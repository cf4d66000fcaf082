-- ===== src/Wireguard/Filter.antt =====
-- `filterConfigToKeys`: what it keeps of a configuration.
use mathlib.Core.Path.{subst}
use tinyrange_ad.Common.{
  ℕ, List, [], ◌∷◌, true, false, Option, none, some, if◌then◌else◌, ◌≡◌, refl, sym, ap, ◌∙◌, inl,
  inr, ◌≢◌, Bool-cases, some_injective, >>=-eq-some, All,
}
use tinyrange_ad.Common.Text.{Bytes, eqb, eqb_ne, split, split-All, split-join, join, cut, Lacks}
use tinyrange_ad.Wireguard.{filter_config_to_keys, keep_lines, keep_pair, listed, newline}

value_or : Option Bytes → Bytes → Option (Bytes × Bytes) → Option Bytes
value_or later k none = later
value_or (some v) k (some pair) = some v
value_or none k (some (j, v)) = if eqb j k then some v else none

-- The value of the last line that gives the key one.
unfoldable pub last_value : Bytes → List Bytes → Option Bytes
unfolding value_or cut
last_value k [] = none
last_value k (line ∷ lines) = value_or (last_value k lines) k (cut b'=' line)

value_or-other :
    (later : Option Bytes) (k j v : Bytes)
    → eqb j k ≡ false
    → value_or later k (some (j, v)) ≡ later
unfolding value_or
value_or-other none k j v h = rw (h) refl
value_or-other (some w) k j v h = refl

apart : (keys : List Bytes) (j k : Bytes) → listed j keys ≢ listed k keys → eqb j k ≡ false
apart keys j k h = eqb_ne j k (λ e. h (ap (λ q. listed q keys) e))

module _ (k : Bytes) (keys : List Bytes) (line : Bytes) (rest lines : List Bytes) where
  -- A line whose key is listed is kept.
  line_kept :
      (j v : Bytes)
      → cut b'=' line ≡ some (j, v)
      → listed j keys ≡ true
      → last_value k rest ≡ (if listed k keys then last_value k lines else none)
      → last_value k (line ∷ rest)
        ≡ (if listed k keys then value_or (last_value k lines) k (some (j, v)) else none)
  unfolding last_value
  line_kept j v e lj before = elim (Bool-cases (listed k keys)) [
    | inl lk ↦ rw (e, before, lk) refl
    | inr lk ↦ rw (e, before, lk) (value_or-other none k j v (apart keys j k (λ same. cc)))
  ]

  line_dropped :
      (j v : Bytes)
      → listed j keys ≡ false
      → last_value k rest ≡ (if listed k keys then last_value k lines else none)
      → last_value k rest
        ≡ (if listed k keys then value_or (last_value k lines) k (some (j, v)) else none)
  line_dropped j v lj before = elim (Bool-cases (listed k keys)) [
    | inl lk ↦
        rw (before, lk)
          (sym (value_or-other (last_value k lines) k j v (apart keys j k (λ same. cc))))
    | inr lk ↦ rw (before, lk) refl
  ]

  keep_pair-last_value :
      (kept : List Bytes) (pair : Option (Bytes × Bytes))
      → cut b'=' line ≡ pair
      → keep_pair keys line pair rest ≡ some kept
      → last_value k rest ≡ (if listed k keys then last_value k lines else none)
      → last_value k kept ≡ (if listed k keys then value_or (last_value k lines) k pair else none)
  unfolding keep_pair value_or
  keep_pair-last_value kept none e h before = elim (Bool-cases (eqb line [])) [
    | inl blank ↦ let same : kept ≡ rest = cc in ap (last_value k) same ∙ before
    | inr text ↦ cc
  ]
  keep_pair-last_value kept (some (j, v)) e h before = elim (Bool-cases (listed j keys)) [
    | inl lj ↦
        let same : kept ≡ line ∷ rest = cc in ap (last_value k) same ∙ line_kept j v e lj before
    | inr lj ↦ let same : kept ≡ rest = cc in ap (last_value k) same ∙ line_dropped j v lj before
  ]

keep_lines-last_value :
    (k : Bytes) (keys lines kept : List Bytes)
    → keep_lines keys lines ≡ some kept
    → last_value k kept ≡ (if listed k keys then last_value k lines else none)
unfolding keep_lines last_value
keep_lines-last_value k keys [] kept h = elim (Bool-cases (listed k keys)) [
  | inl l ↦ rw (l) (ap (last_value k) (sym (some_injective h)))
  | inr l ↦ rw (l) (ap (last_value k) (sym (some_injective h)))
]
keep_lines-last_value k keys (line ∷ lines) kept h =
    let (rest, before, now) =
      >>=-eq-some (keep_lines keys lines) (λ r. keep_pair keys line (cut b'=' line) r) h in
    keep_pair-last_value k keys line rest lines kept (cut b'=' line) refl now
      (keep_lines-last_value k keys lines rest before)

keep_pair-All :
    (sep : ℕ) (keys : List Bytes) (line : Bytes) (pair : Option (Bytes × Bytes))
    (rest kept : List Bytes)
    → keep_pair keys line pair rest ≡ some kept
    → Lacks sep line
    → All (Lacks sep) rest
    → All (Lacks sep) kept
unfolding keep_pair
keep_pair-All sep keys line none rest kept h hl hr = elim (Bool-cases (eqb line [])) [
  | inl blank ↦ let same : rest ≡ kept = cc in subst (All (Lacks sep)) same hr
  | inr text ↦ cc
]
keep_pair-All sep keys line (some (j, v)) rest kept h hl hr = elim (Bool-cases (listed j keys)) [
  | inl lj ↦ let same : line ∷ rest ≡ kept = cc in subst (All (Lacks sep)) same (hl, hr)
  | inr lj ↦ let same : rest ≡ kept = cc in subst (All (Lacks sep)) same hr
]

keep_lines-All :
    (sep : ℕ) (keys lines kept : List Bytes)
    → keep_lines keys lines ≡ some kept
    → All (Lacks sep) lines
    → All (Lacks sep) kept
unfolding keep_lines
keep_lines-All sep keys [] kept h hs = subst (All (Lacks sep)) (some_injective h) tt
keep_lines-All sep keys (line ∷ lines) kept h hs =
    let (rest, before, now) =
      >>=-eq-some (keep_lines keys lines) (λ r. keep_pair keys line (cut b'=' line) r) h in
    keep_pair-All sep keys line (cut b'=' line) rest kept now hs.0
      (keep_lines-All sep keys lines rest before hs.1)

split_of_join :
    (k : Bytes) (lines : List Bytes)
    → All (Lacks 10) lines
    → last_value k (split (join lines newline) 10) ≡ last_value k lines
unfolding newline last_value split join cut
split_of_join k [] h = refl
split_of_join k (line ∷ lines) h = ap (last_value k) (split-join line lines 10 h)

-- A filtered configuration gives every listed key the value that the configuration gives it, in
-- its last line for the key, and gives no other key a value.
pub filter_config_to_keys-last_value :
    (config : Bytes) (keys : List Bytes) (filtered k : Bytes)
    → filter_config_to_keys config keys ≡ some filtered
    → last_value k (split filtered 10)
      ≡ (if listed k keys then last_value k (split config 10) else none)
unfolding filter_config_to_keys
filter_config_to_keys-last_value config keys filtered k h =
    let (kept, made, joined) =
      >>=-eq-some (keep_lines keys (split config 10)) (λ l. some (join l newline)) h in
    ap (λ text. last_value k (split text 10)) (sym (some_injective joined))
    ∙ split_of_join k kept
        (keep_lines-All 10 keys (split config 10) kept made (split-All config 10))
    ∙ keep_lines-last_value k keys (split config 10) kept made
