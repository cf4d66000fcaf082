-- ===== src/Common/Decimal.antt =====
-- `%d` and `strconv.Atoi`.
use Prim.Native.Nat.{ℕ, zero, suc, ◌+◌, ◌-◌, ◌*◌, ◌/◌, ◌%◌, ◌^◌, ◌≤◌, ◌<◌}
use mathlib.Core.Path.{◌≡◌, refl, sym}
use mathlib.Core.Logic.{◌≢◌, inl, inr}
use mathlib.Core.Bool.{Bool, ◌&&◌}
use mathlib.Core.Option.{Option, none, some}
use mathlib.Core.List.{[], ◌∷◌, ◌++◌, cons-ne-nil, concat-ne-nil}
use native.Mathlib.Omega.{arith}
use tinyrange_ad.Common.Tests.{ltb, leb, ◌==◌, if◌then◌else◌, ◌>>=◌, Bool-cases}
use tinyrange_ad.Common.Lists.{All, All-append}
use tinyrange_ad.Common.Int.{ℤ, pos, negsuc, Int64}
use tinyrange_ad.Common.Text.{Bytes, codes, Lacks}

-- The digits of `n`, one for each round; `n` rounds are enough.
digits : ℕ → ℕ → Bytes
digits zero n = (b'0' + n % 10) ∷ []
digits (suc f) n =
    let rest = digits f (n / 10) ++ (b'0' + n % 10) ∷ [] in
    if ltb n 10 then (b'0' + n % 10) ∷ [] else rest

pub format_nat : ℕ → Bytes
format_nat n = digits n n

-- `fmt.Sprintf("%d", z)` and `strconv.Itoa(z)`.
unfoldable pub itoa : ℤ → Bytes
unfolding format_nat digits
itoa (pos n) = format_nat n
itoa (negsuc n) = b'-' ∷ format_nat (suc n)

is_digit : ℕ → Bool
is_digit c = leb b'0' c && leb c b'9'

scan : ℕ → Bytes → Option ℕ
unfolding is_digit
scan acc [] = some acc
scan acc (c ∷ s) = if is_digit c then scan (acc * 10 + (c - b'0')) s else none

-- One digit or more.
scan_some : Bytes → Option ℕ
unfolding scan
scan_some [] = none
scan_some (c ∷ s) = scan 0 (c ∷ s)

-- A value that an int cannot hold is an error.
positive : ℕ → Option ℤ
positive n = if ltb n (2 ^ 63) then some (pos n) else none

negative : ℕ → Option ℤ
negative zero = some (pos 0)
negative (suc n) = if ltb n (2 ^ 63) then some (negsuc n) else none

-- `strconv.Atoi(s)`, with `none` for its errors.
unfoldable pub atoi : Bytes → Option ℤ
unfolding scan_some positive negative
atoi [] = none
atoi (c ∷ s) =
    if c == b'-'
    then scan_some s >>= negative
    else if c == b'+'
    then scan_some s >>= positive
    else scan_some (c ∷ s) >>= positive

scan-append : (s t : Bytes) (acc : ℕ) → scan acc (s ++ t) ≡ (scan acc s >>= λ n. scan n t)
unfolding scan
scan-append [] t acc = refl
scan-append (c ∷ s) t acc = ground (arith, scan-append s t (acc * 10 + (c - b'0')))

digit : (n a : ℕ) → scan a ((b'0' + n % 10) ∷ []) ≡ some (a * 10 + n % 10)
unfolding scan
digit n a = ground arith

scan-digits : (f n : ℕ) → n ≤ f → scan 0 (digits f n) ≡ some n
unfolding digits
scan-digits zero n h = ground (arith, digit n 0)
scan-digits (suc f) n h = ground (
  arith,
  digit n 0,
  digit n (n / 10),
  scan-append (digits f (n / 10)) ((b'0' + n % 10) ∷ []) 0,
  scan-digits f (n / 10),
)

abbrev pub Digit : ℕ → Type 0
Digit c = (b'0' ≤ c) × (c ≤ b'9')

digits-Digit : (f n : ℕ) → All Digit (digits f n)
unfolding digits
digits-Digit zero n = ground arith
digits-Digit (suc f) n = elim (Bool-cases (ltb n 10)) [
  | inl small ↦ rw small (ground arith)
  | inr large ↦ rw large (
      All-append Digit (digits f (n / 10)) ((b'0' + n % 10) ∷ []) (digits-Digit f (n / 10))
        (ground arith))
]

-- A text of digits, not empty, is read by its value.
atoi-digits :
    (s : Bytes) (n : ℕ)
    → All Digit s
    → scan 0 s ≡ some n
    → s ≢ []
    → n < 2 ^ 63
    → atoi s ≡ some (pos n)
unfolding atoi
atoi-digits [] n h e ne b = absurd (ne refl)
atoi-digits (c ∷ s) n h e ne b = ground arith

digits-ne-nil : (f n : ℕ) → digits f n ≢ []
unfolding digits
digits-ne-nil zero n = cons-ne-nil _ _
digits-ne-nil (suc f) n = elim (Bool-cases (ltb n 10)) [
  | inl small ↦ rw small (cons-ne-nil _ _)
  | inr large ↦ rw large (concat-ne-nil _ (digits f (n / 10)))
]

scan_some-scan : (s : Bytes) → s ≢ [] → scan_some s ≡ scan 0 s
unfolding scan_some
scan_some-scan [] h = absurd (h refl)
scan_some-scan (c ∷ s) h = refl

-- Every int is read back from its decimal text.
pub atoi-itoa : (z : ℤ) → Int64 z → atoi (itoa z) ≡ some z
unfolding format_nat
atoi-itoa (pos n) h =
    unfold itoa in
    atoi-digits (digits n n) n (digits-Digit n n) (scan-digits n n (omega arith))
      (digits-ne-nil n n) h.0
atoi-itoa (negsuc n) h =
    unfold itoa atoi in
    ground (
      arith,
      scan_some-scan (digits (suc n) (suc n)) (digits-ne-nil (suc n) (suc n)),
      scan-digits (suc n) (suc n) (omega arith),
    )

Digit-Lacks : (s : Bytes) (b : ℕ) → b < b'0' → All Digit s → Lacks b s
Digit-Lacks [] b h d = tt
Digit-Lacks (c ∷ s) b h d = (omega arith, Digit-Lacks s b h d.1)

-- A decimal text holds no byte below the digits but the sign.
pub itoa-Lacks : (z : ℤ) (b : ℕ) → b < b'0' → b ≢ b'-' → Lacks b (itoa z)
unfolding itoa
itoa-Lacks (pos n) b h k = Digit-Lacks (digits n n) b h (digits-Digit n n)
itoa-Lacks (negsuc n) b h k =
    (λ e. k (sym e), Digit-Lacks (digits (suc n) (suc n)) b h (digits-Digit (suc n) (suc n)))

itoa_negative : (itoa (negsuc 119) ≡ codes "-120") × (atoi (codes "+07") ≡ some (pos 7))
unfolding itoa atoi
itoa_negative = (refl, refl)

atoi_range : (atoi (codes "9223372036854775808") ≡ none) × (atoi (codes "1x") ≡ none)
unfolding atoi
atoi_range = (refl, refl)
