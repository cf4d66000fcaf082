-- ===== src/Persist/Keys.antt =====
-- `ValidateKey`: which keys it lets through.
use mathlib.Core.Path.{subst}
use tinyrange_ad.Common.{
  ℕ, [], ◌∷◌, none, some, ◌≡◌, ◌≢◌, ◌↔◌, ◌⊎◌, inl, inr, refl, sym, arith, ◌==◌, Bool-cases,
}
use tinyrange_ad.Common.Text.{Bytes, codes, eqb, eqb_iff, eqb_refl, Lacks}
use tinyrange_ad.Persist.{validate_key, base, trim_slashes, last_part, is_empty, after_slash}

-- A text without a slash is its own last part.
trim_slashes-Lacks : (s : Bytes) → Lacks b'/' s → trim_slashes s ≡ s
unfolding trim_slashes is_empty
trim_slashes-Lacks [] h = refl
trim_slashes-Lacks (c ∷ []) h = ground arith
trim_slashes-Lacks (c ∷ d ∷ s) h = rw (trim_slashes-Lacks (d ∷ s) h.1)

last_part-Lacks : (s : Bytes) → Lacks b'/' s → last_part s ≡ none
unfolding last_part
last_part-Lacks [] h = refl
last_part-Lacks (c ∷ s) h = rw (last_part-Lacks s h.1) (ground arith)

-- The last part behind a slash, or the whole text, holds no slash.
last_part_cases :
    (s : Bytes)
    → (last_part s ≡ none) × Lacks b'/' s ⊎ (p : Bytes) × (last_part s ≡ some p) × Lacks b'/' p
unfolding last_part
last_part_cases [] = inl (refl, tt)
last_part_cases (c ∷ s) = elim (last_part_cases s) [
  | inl (e, h) ↦ elim (Bool-cases (c == b'/')) [
    | inl slash ↦ inr (s, rw (e, slash) refl, h)
    | inr other ↦ inl (rw (e, other) refl, (ground arith, h))
  ]
  | inr (p, e, h) ↦ inr (p, rw (e) refl, h)
]

after_slash-Lacks : (s : Bytes) → Lacks b'/' (after_slash s)
unfolding after_slash
after_slash-Lacks s = elim (last_part_cases s) [
  | inl (e, h) ↦ rw (e, after_slash) h
  | inr (p, e, h) ↦ rw (e, after_slash) h
]

base-Lacks : (s : Bytes) → Lacks b'/' (base s) ⊎ (base s ≡ codes "/")
unfolding base is_empty
base-Lacks [] = inl ((λ e. omega (arith, e)), tt)
base-Lacks (c ∷ s) = elim (Bool-cases (is_empty (after_slash (trim_slashes (c ∷ s))))) [
  | inl e ↦ inr (rw (e) refl)
  | inr e ↦ inl (rw (e) (after_slash-Lacks (trim_slashes (c ∷ s))))
]

base-id : (c : ℕ) (s : Bytes) → Lacks b'/' (c ∷ s) → base (c ∷ s) ≡ c ∷ s
unfolding base is_empty
base-id c s h =
    rw
      (
        trim_slashes-Lacks (c ∷ s) h,
        after_slash,
        last_part-Lacks (c ∷ s) h,
        trim_slashes-Lacks (c ∷ s) h,
      )
      refl

base-slash : base (codes "/") ≡ codes "/"
unfolding base trim_slashes after_slash last_part is_empty
base-slash = refl

validate-base : (c : ℕ) (s : Bytes) → base (c ∷ s) ≡ c ∷ s → validate_key (c ∷ s) ≡ some (c ∷ s)
unfolding validate_key eqb
validate-base c s h = rw (h, eqb_refl (c ∷ s)) refl

base_fixed : (key : Bytes) → base key ≡ key → Lacks b'/' key ⊎ (key ≡ codes "/")
base_fixed key e = subst (λ x. Lacks b'/' x ⊎ (x ≡ codes "/")) e (base-Lacks key)

-- ValidateKey lets a key through exactly if it is not empty and holds no slash, or is one slash.
pub validate_key_iff :
    (key : Bytes)
    → (validate_key key ≡ some key) ↔ (key ≢ []) × (Lacks b'/' key ⊎ (key ≡ codes "/"))
unfolding validate_key eqb
validate_key_iff [] = ((λ h. cc), (λ h. absurd (h.0 refl)))
validate_key_iff (c ∷ s) = (
  (λ h. elim (Bool-cases (eqb (base (c ∷ s)) (c ∷ s))) [
    | inl same ↦ ((λ e. cc), base_fixed (c ∷ s) ((eqb_iff (base (c ∷ s)) (c ∷ s)).0 same))
    | inr other ↦ absurd (cc)
  ]),
  (λ h. elim h.1 [
    | inl lacks ↦ validate-base c s (base-id c s lacks)
    | inr slash ↦ validate-base c s (subst (λ k. base k ≡ k) (sym slash) base-slash)
  ]),
)
