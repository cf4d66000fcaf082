-- ===== src/Common/Base64.antt =====
-- `base64.RawURLEncoding` and the lower-case hexadecimal of package hex.
use Prim.Native.Nat.{ℕ, ◌+◌, ◌-◌, ◌*◌, ◌/◌, ◌%◌, ◌<◌}
use mathlib.Core.Path.{◌≡◌, refl}
use mathlib.Core.Logic.{◌≢◌}
use mathlib.Core.Bool.{Bool, false, ◌&&◌, ◌||◌}
use mathlib.Core.Option.{Option, none, some}
use mathlib.Core.List.{List, [], ◌∷◌, map}
use native.Mathlib.Omega.{arith}
use tinyrange_ad.Common.Tests.{ltb, leb, ◌==◌, if◌then◌else◌, ◌>>=◌}
use tinyrange_ad.Common.Lists.{All}
use tinyrange_ad.Common.Text.{Bytes, codes, Lacks}

abbrev pub Byte : ℕ → Type 0
Byte c = c < 256

-- The character of a value below 64.
letter : ℕ → ℕ
letter v =
    if ltb v 26
    then b'A' + v
    else if ltb v 52
    then b'a' + (v - 26)
    else if ltb v 62
    then b'0' + (v - 52)
    else if v == 62
    then b'-'
    else b'_'

value : ℕ → Option ℕ
value c =
    if leb b'A' c && leb c b'Z'
    then some (c - b'A')
    else if leb b'a' c && leb c b'z'
    then some (c - b'a' + 26)
    else if leb b'0' c && leb c b'9'
    then some (c - b'0' + 52)
    else if c == b'-'
    then some 62
    else if c == b'_'
    then some 63
    else none

-- `EncodeToString`: three bytes make four characters, and the last one or two make two or three.
unfoldable pub encode : Bytes → Bytes
unfolding letter
encode [] = []
encode (a ∷ []) = letter (a / 4) ∷ letter (a % 4 * 16) ∷ []
encode (a ∷ b ∷ []) = letter (a / 4) ∷ letter (a % 4 * 16 + b / 16) ∷ letter (b % 16 * 4) ∷ []
encode (a ∷ b ∷ c ∷ s) =
    letter (a / 4)
    ∷ letter (a % 4 * 16 + b / 16)
    ∷ letter (b % 16 * 4 + c / 64)
    ∷ letter (c % 64)
    ∷ encode s

-- The decoder skips line ends.
line_end : ℕ → Bool
line_end c = c == 10 || c == 13

values : Bytes → Option (List ℕ)
unfolding value line_end
values [] = some []
values (c ∷ s) =
    let rest = values s in
    if line_end c then rest else (value c >>= λ v. rest >>= λ vs. some (v ∷ vs))

-- A group of one character is an error, and bits that a short group leaves over are not looked at.
groups : List ℕ → Option Bytes
groups [] = some []
groups (p ∷ []) = none
groups (p ∷ q ∷ []) = some ((p * 4 + q / 16) ∷ [])
groups (p ∷ q ∷ r ∷ []) = some ((p * 4 + q / 16) ∷ (q % 16 * 16 + r / 4) ∷ [])
groups (p ∷ q ∷ r ∷ t ∷ s) =
    groups s >>= λ rest. some ((p * 4 + q / 16) ∷ (q % 16 * 16 + r / 4) ∷ (r % 4 * 64 + t) ∷ rest)

-- `DecodeString`, with `none` for a corrupt input.
unfoldable pub decode : Bytes → Option Bytes
unfolding values groups
decode s = values s >>= groups

value-letter : (v : ℕ) → v < 64 → value (letter v) ≡ some v
unfolding value letter
value-letter v h = ground arith

line_end-letter : (v : ℕ) → line_end (letter v) ≡ false
unfolding line_end letter
line_end-letter v = ground arith

letter_ne_dot : (v : ℕ) → v < 64 → letter v ≢ b'.'
unfolding letter
letter_ne_dot v h = ground arith

-- The values below 64 that an encoding writes.
sextets : Bytes → List ℕ
sextets [] = []
sextets (a ∷ []) = (a / 4) ∷ (a % 4 * 16) ∷ []
sextets (a ∷ b ∷ []) = (a / 4) ∷ (a % 4 * 16 + b / 16) ∷ (b % 16 * 4) ∷ []
sextets (a ∷ b ∷ c ∷ s) =
    (a / 4) ∷ (a % 4 * 16 + b / 16) ∷ (b % 16 * 4 + c / 64) ∷ (c % 64) ∷ sextets s

encode-sextets : (s : Bytes) → encode s ≡ map letter (sextets s)
unfolding encode sextets
encode-sextets [] = refl
encode-sextets (a ∷ []) = refl
encode-sextets (a ∷ b ∷ []) = refl
encode-sextets (a ∷ b ∷ c ∷ s) = rw (encode-sextets s)

sextets-All : (s : Bytes) → All Byte s → All (λ v. v < 64) (sextets s)
unfolding sextets
sextets-All [] h = tt
sextets-All (a ∷ []) h = omega arith
sextets-All (a ∷ b ∷ []) h = omega arith
sextets-All (a ∷ b ∷ c ∷ s) (ha, (hb, (hc, hs))) =
    (omega arith, (omega arith, (omega arith, (omega arith, sextets-All s hs))))

values-map : (vs : List ℕ) → All (λ v. v < 64) vs → values (map letter vs) ≡ some vs
unfolding values
values-map [] h = refl
values-map (v ∷ vs) h = rw (line_end-letter v, value-letter v h.0, values-map vs h.1)

groups-sextets : (s : Bytes) → All Byte s → groups (sextets s) ≡ some s
unfolding groups sextets
groups-sextets [] h = refl
groups-sextets (a ∷ []) h = ground arith
groups-sextets (a ∷ b ∷ []) h = ground arith
groups-sextets (a ∷ b ∷ c ∷ s) (ha, (hb, (hc, hs))) = rw (groups-sextets s hs) (ground arith)

-- Decoding an encoding gives the bytes back.
pub decode-encode : (s : Bytes) → All Byte s → decode (encode s) ≡ some s
decode-encode s h =
    unfold decode in
    rw (encode-sextets s, values-map (sextets s) (sextets-All s h)) (groups-sextets s h)

map-letter-Lacks : (vs : List ℕ) → All (λ v. v < 64) vs → Lacks b'.' (map letter vs)
map-letter-Lacks [] h = tt
map-letter-Lacks (v ∷ vs) h = (letter_ne_dot v h.0, map-letter-Lacks vs h.1)

-- The text of an encoding holds no dot.
pub encode-Lacks : (s : Bytes) → All Byte s → Lacks b'.' (encode s)
encode-Lacks s h = rw (encode-sextets s) (map-letter-Lacks (sextets s) (sextets-All s h))

hex_digit : ℕ → ℕ
hex_digit v = if ltb v 10 then b'0' + v else b'a' + (v - 10)

-- `hex.EncodeToString`, and `%x` of a byte array.
unfoldable pub hex : Bytes → Bytes
unfolding hex_digit
hex [] = []
hex (c ∷ s) = hex_digit (c / 16) ∷ hex_digit (c % 16) ∷ hex s

encode_short : (encode (codes "Man") ≡ codes "TWFu") × (encode (255 ∷ 254 ∷ []) ≡ codes "__4")
unfolding encode
encode_short = (refl, refl)
