-- ===== src/Common/Text.antt =====
-- Go strings as lists of bytes, with the functions of package strings that the program calls.
use Prim.Native.Char.{code}
use Prim.Native.String.{String}
use Prim.Native.Nat.{ℕ}
use mathlib.Core.Path.{◌≡◌, refl, ap}
use mathlib.Core.Logic.{◌≢◌, ◌↔◌, inl, inr}
use mathlib.Core.Bool.{Bool, true, false, ◌&&◌, ◌||◌}
use mathlib.Core.Option.{Option, none, some}
use mathlib.Core.List.{List, [], ◌∷◌, ◌++◌}
use native.Mathlib.Omega.{arith}
use tinyrange_ad.Common.Tests.{◌==◌, if◌then◌else◌, Bool-cases, ◌>>=◌}
use tinyrange_ad.Common.Lists.{length, drop, length-append, drop-append, All}

abbrev pub Bytes : Type 0
Bytes = List ℕ

-- The bytes of an ASCII literal.
abbrev pub codes : String → Bytes
codes String.[] = []
codes (String.◌∷◌ c s) = code c ∷ codes s

unfoldable pub eqb : Bytes → Bytes → Bool
eqb [] [] = true
eqb [] (d ∷ t) = false
eqb (c ∷ s) [] = false
eqb (c ∷ s) (d ∷ t) = c == d && eqb s t

pub eqb_iff : (s t : Bytes) → (eqb s t ≡ true) ↔ (s ≡ t)
unfolding eqb
eqb_iff [] [] = ground arith
eqb_iff [] (d ∷ t) = ground arith
eqb_iff (c ∷ s) [] = ground arith
eqb_iff (c ∷ s) (d ∷ t) = ground (arith, eqb_iff s t)

pub eqb_refl : (s : Bytes) → eqb s s ≡ true
eqb_refl s = (eqb_iff s s).1 refl

pub eqb_ne : (s t : Bytes) → s ≢ t → eqb s t ≡ false
eqb_ne s t h = ground (arith, eqb_iff s t)

unfoldable pub has_prefix : Bytes → Bytes → Bool
has_prefix s [] = true
has_prefix [] (d ∷ p) = false
has_prefix (c ∷ s) (d ∷ p) = c == d && has_prefix s p

unfoldable pub trim_prefix : Bytes → Bytes → Bytes
unfolding has_prefix
trim_prefix s p = if has_prefix s p then drop (length p) s else s

unfoldable pub has_suffix : Bytes → Bytes → Bool
unfolding eqb
has_suffix [] p = eqb [] p
has_suffix (c ∷ s) p = eqb (c ∷ s) p || has_suffix s p

-- The text with the suffix cut off, where it ends in it.
unfoldable pub trim_suffix : Bytes → Bytes → Bytes
unfolding eqb
trim_suffix [] p = []
trim_suffix (c ∷ s) p = if eqb (c ∷ s) p then [] else c ∷ trim_suffix s p

cons_head : ℕ → List Bytes → List Bytes
cons_head c [] = (c ∷ []) ∷ []
cons_head c (p ∷ ps) = (c ∷ p) ∷ ps

-- `strings.Split(s, sep)` for a separator of one byte.
unfoldable pub split : Bytes → ℕ → List Bytes
unfolding cons_head
split [] sep = [] ∷ []
split (c ∷ s) sep = let rest = split s sep in if c == sep then [] ∷ rest else cons_head c rest

-- `strings.Cut(s, sep)`: the text before the first separator and the text after it, or `none`.
unfoldable pub cut : ℕ → Bytes → Option (Bytes × Bytes)
cut sep [] = none
cut sep (c ∷ s) =
    let rest = cut sep s >>= λ r. some (c ∷ r.0, r.1) in if c == sep then some ([], s) else rest

-- `strings.Join(parts, sep)`.
unfoldable pub join : List Bytes → Bytes → Bytes
join [] sep = []
join (p ∷ []) sep = p
join (p ∷ q ∷ ps) sep = p ++ (sep ++ join (q ∷ ps) sep)

abbrev pub Lacks : ℕ → Bytes → Type 0
Lacks b = All (λ c. c ≢ b)

pub has_prefix-append : (p s : Bytes) → has_prefix (p ++ s) p ≡ true
unfolding has_prefix
has_prefix-append [] s = refl
has_prefix-append (c ∷ p) s = ground (arith, has_prefix-append p s)

pub has_prefix_sound : (s p : Bytes) → has_prefix s p ≡ true → (rest : Bytes) × (s ≡ p ++ rest)
unfolding has_prefix
has_prefix_sound s [] h = (s, refl)
has_prefix_sound [] (d ∷ p) h = cc
has_prefix_sound (c ∷ s) (d ∷ p) h =
    let (rest, e) = has_prefix_sound s p (ground arith) in (rest, ground arith)

pub trim_prefix-append : (p s : Bytes) → trim_prefix (p ++ s) p ≡ s
unfolding trim_prefix
trim_prefix-append p s = rw (has_prefix-append p s) (drop-append p s)

pub has_suffix-append : (s p : Bytes) → has_suffix (s ++ p) p ≡ true
unfolding has_suffix
has_suffix-append [] [] = refl
has_suffix-append [] (c ∷ p) = ground (arith, eqb_refl (c ∷ p))
has_suffix-append (c ∷ s) p = ground (arith, has_suffix-append s p)

longer_ne : (c : ℕ) (s p : Bytes) → c ∷ s ++ p ≢ p
longer_ne c s p e = omega (arith, ap length e, length-append s p)

pub trim_suffix-append : (s p : Bytes) → trim_suffix (s ++ p) p ≡ s
unfolding trim_suffix
trim_suffix-append [] [] = refl
trim_suffix-append [] (c ∷ p) = ground (arith, eqb_refl (c ∷ p))
trim_suffix-append (c ∷ s) p =
    ground (arith, eqb_iff (c ∷ s ++ p) p, longer_ne c s p, trim_suffix-append s p)

pub split-Lacks : (p : Bytes) (sep : ℕ) → Lacks sep p → split p sep ≡ p ∷ []
unfolding split
split-Lacks [] sep h = refl
split-Lacks (c ∷ p) sep h = ground (arith, split-Lacks p sep h.1)

pub split-append :
    (p s : Bytes) (sep : ℕ) → Lacks sep p → split (p ++ sep ∷ s) sep ≡ p ∷ split s sep
unfolding split
split-append [] s sep h = ground arith
split-append (c ∷ p) s sep h = ground (arith, split-append p s sep h.1)

-- A text that starts a split is its first piece.
split-cons : (s : Bytes) (sep : ℕ) → (p : Bytes) × (ps : List Bytes) × (split s sep ≡ p ∷ ps)
unfolding split cons_head
split-cons [] sep = ([], [], refl)
split-cons (c ∷ s) sep = elim (Bool-cases (c == sep)) [
  | inl e ↦ ([], split s sep, rw (e) refl)
  | inr e ↦ let (p, ps, r) = split-cons s sep in (c ∷ p, ps, rw (e, r) refl)
]

cons_head-append :
    (c : ℕ) (s : Bytes) (b : ℕ) (q : List Bytes)
    → cons_head c (split s b ++ q) ≡ cons_head c (split s b) ++ q
unfolding cons_head
cons_head-append c s b q = let (p, ps, r) = split-cons s b in rw (r) refl

-- Splitting a text at a separator in its middle.
pub split_between : (p s : Bytes) (sep : ℕ) → split (p ++ sep ∷ s) sep ≡ split p sep ++ split s sep
unfolding split cons_head
split_between [] s sep = ground arith
split_between (c ∷ p) s sep = elim (Bool-cases (c == sep)) [
  | inl e ↦ rw (e, split_between p s sep) refl
  | inr e ↦ rw (e, split_between p s sep) (cons_head-append c p sep (split s sep))
]

cons_head-All :
    (c sep : ℕ) (pieces : List Bytes)
    → c ≢ sep
    → All (Lacks sep) pieces
    → All (Lacks sep) (cons_head c pieces)
unfolding cons_head
cons_head-All c sep [] h hs = ((h, tt), tt)
cons_head-All c sep (p ∷ ps) h hs = ((h, hs.0), hs.1)

-- The pieces of a split hold no separator.
pub split-All : (s : Bytes) (sep : ℕ) → All (Lacks sep) (split s sep)
unfolding split
split-All [] sep = (tt, tt)
split-All (c ∷ s) sep = elim (Bool-cases (c == sep)) [
  | inl e ↦ rw (e) (tt, split-All s sep)
  | inr e ↦ rw (e) (cons_head-All c sep (split s sep) (ground arith) (split-All s sep))
]

-- Splitting a join gives the pieces back.
pub split-join :
    (p : Bytes) (ps : List Bytes) (sep : ℕ)
    → All (Lacks sep) (p ∷ ps)
    → split (join (p ∷ ps) (sep ∷ [])) sep ≡ p ∷ ps
unfolding join
split-join p [] sep h = split-Lacks p sep h.0
split-join p (q ∷ ps) sep h =
    rw (split-append p (join (q ∷ ps) (sep ∷ [])) sep h.0, split-join q ps sep h.1) refl
