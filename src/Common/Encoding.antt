-- ===== src/Common/Encoding.antt =====
-- `hex.DecodeString` and `base64.StdEncoding.EncodeToString`.
use Prim.Native.Nat.{ℕ, ◌+◌, ◌-◌, ◌*◌, ◌/◌, ◌%◌}
use mathlib.Core.Bool.{◌&&◌}
use mathlib.Core.Option.{Option, none, some}
use mathlib.Core.List.{[], ◌∷◌}
use tinyrange_ad.Common.Tests.{ltb, leb, ◌==◌, if◌then◌else◌, ◌>>=◌}
use tinyrange_ad.Common.Text.{Bytes}

digit_value : ℕ → Option ℕ
digit_value c =
    if leb b'0' c && leb c b'9'
    then some (c - b'0')
    else if leb b'a' c && leb c b'f'
    then some (c - b'a' + 10)
    else if leb b'A' c && leb c b'F'
    then some (c - b'A' + 10)
    else none

-- `none` for a text of odd length and for one with another character.
unfoldable pub hex_decode : Bytes → Option Bytes
unfolding digit_value
hex_decode [] = some []
hex_decode (c ∷ []) = none
hex_decode (c ∷ d ∷ s) = digit_value c >>= λ h.
    digit_value d >>= λ l. hex_decode s >>= λ rest. some ((h * 16 + l) ∷ rest)

std_letter : ℕ → ℕ
std_letter v =
    if ltb v 26
    then b'A' + v
    else if ltb v 52
    then b'a' + (v - 26)
    else if ltb v 62
    then b'0' + (v - 52)
    else if v == 62
    then b'+'
    else b'/'

-- With `=` at the end of a short group.
unfoldable pub encode_std : Bytes → Bytes
unfolding std_letter
encode_std [] = []
encode_std (a ∷ []) = std_letter (a / 4) ∷ std_letter (a % 4 * 16) ∷ b'=' ∷ b'=' ∷ []
encode_std (a ∷ b ∷ []) =
    std_letter (a / 4) ∷ std_letter (a % 4 * 16 + b / 16) ∷ std_letter (b % 16 * 4) ∷ b'=' ∷ []
encode_std (a ∷ b ∷ c ∷ s) =
    std_letter (a / 4)
    ∷ std_letter (a % 4 * 16 + b / 16)
    ∷ std_letter (b % 16 * 4 + c / 64)
    ∷ std_letter (c % 64)
    ∷ encode_std s
