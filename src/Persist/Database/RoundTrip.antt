-- ===== src/Persist/Database/RoundTrip.antt =====
-- `Set` followed by `Get`.
use mathlib.Core.Path.{subst}
use tinyrange_ad.Common.{
  [], Bool, true, false, Option, none, some, ◌>>=◌, ◌≡◌, ◌≢◌, refl, sym, ap, ◌∙◌, ◌⊎◌, inl, inr,
  Bool-cases,
}
use tinyrange_ad.Common.Text.{Bytes, eqb}
use tinyrange_ad.Persist.{validate_key, base, get_path, file_dir}
use tinyrange_ad.Persist.Paths.{Plain, get_path_apart}
use tinyrange_ad.Persist.Database.{
  Disk, Codec, set, get, write_encoded, created, made_dir, set_valid,
}

validate_key_cases : (key : Bytes) → (validate_key key ≡ none) ⊎ (validate_key key ≡ some key)
unfolding validate_key
validate_key_cases key = elim (Bool-cases (eqb key [])) [
  | inl e ↦ inl (rw (e) refl)
  | inr e ↦ elim (Bool-cases (eqb (base key) key)) [
    | inl f ↦ inr (rw (e, f) refl)
    | inr f ↦ inl (rw (e, f) refl)
  ]
]

validated : (key valid : Bytes) → validate_key key ≡ some valid → valid ≡ key
validated key valid h = elim (validate_key_cases key) [ inl e ↦ cc | inr e ↦ cc ]

module _ (os : Disk) where
  -- A write that succeeds leaves the encoded value in the file.
  write_encoded-read :
      (path : Bytes) (encoded : Option Bytes) (s : os.State)
      → (write_encoded os path encoded s).0 ≡ true
      → (text : Bytes) × (encoded ≡ some text)
        × (os.read (write_encoded os path encoded s).1 path ≡ some text)
  unfolding write_encoded
  write_encoded-read path none s h = cc
  write_encoded-read path (some text) s h = (text, refl, os.read-write s path text h)

  created-read :
      (path : Bytes) (encoded : Option Bytes) (r : Bool × os.State)
      → (created os path encoded r).0 ≡ true
      → (text : Bytes) × (encoded ≡ some text)
        × (os.read (created os path encoded r).1 path ≡ some text)
  unfolding created
  created-read path encoded (false, s) h = cc
  created-read path encoded (true, s) h = write_encoded-read path encoded s h

  made_dir-read :
      (path : Bytes) (encoded : Option Bytes) (r : Bool × os.State)
      → (made_dir os path encoded r).0 ≡ true
      → (text : Bytes) × (encoded ≡ some text)
        × (os.read (made_dir os path encoded r).1 path ≡ some text)
  unfolding made_dir
  made_dir-read path encoded (false, s) h = cc
  made_dir-read path encoded (true, s) h = created-read path encoded (os.create s path) h

  -- Whatever becomes of a write, the other files are kept.
  write_encoded-other :
      (path other : Bytes) (encoded : Option Bytes) (s : os.State)
      → path ≢ other
      → os.read (write_encoded os path encoded s).1 other ≡ os.read s other
  unfolding write_encoded
  write_encoded-other path other none s h = refl
  write_encoded-other path other (some text) s h = os.read-write_other s path text other h

  created-other :
      (path other : Bytes) (encoded : Option Bytes) (r : Bool × os.State)
      → path ≢ other
      → os.read (created os path encoded r).1 other ≡ os.read r.1 other
  unfolding created
  created-other path other encoded (false, s) h = refl
  created-other path other encoded (true, s) h = write_encoded-other path other encoded s h

  made_dir-other :
      (path other : Bytes) (encoded : Option Bytes) (r : Bool × os.State)
      → path ≢ other
      → os.read (made_dir os path encoded r).1 other ≡ os.read r.1 other
  unfolding made_dir
  made_dir-other path other encoded (false, s) h = refl
  made_dir-other path other encoded (true, s) h =
      created-other path other encoded (os.create s path) h ∙ os.read-create s path other h

  set_valid-other :
      (dir group path : Bytes) (valid encoded : Option Bytes) (s : os.State)
      → ((key : Bytes) → valid ≡ some key → get_path dir group key ≢ path)
      → os.read (set_valid os dir group valid encoded s).1 path ≡ os.read s path
  unfolding set_valid
  set_valid-other dir group path none encoded s h = refl
  set_valid-other dir group path (some key) encoded s h =
      let file = get_path dir group key in
      made_dir-other file path encoded (os.mkdir_all s (file_dir file)) (h key refl)
      ∙ os.read-mkdir_all s (file_dir file) path

module _ (os : Disk) {V : Type 0} (json : Codec V) (dir : Bytes) where
  set_valid-read :
      (group : Bytes) (valid : Option Bytes) (value : V) (s : os.State)
      → (set_valid os dir group valid (json.encode value) s).0 ≡ true
      → (valid >>= λ key.
          os.read (set_valid os dir group valid (json.encode value) s).1 (get_path dir group key)
          >>= json.decode)
        ≡ (json.encode value >>= json.decode)
  unfolding set_valid
  set_valid-read group none value s h = cc
  set_valid-read group (some key) value s h =
      let file = get_path dir group key in
      let (text, encoded, held) =
        made_dir-read os file (json.encode value) (os.mkdir_all s (file_dir file)) h in
      rw (held, encoded) refl

  -- After Set has succeeded, Get under the same group and key reads what the value's JSON form is
  -- decoded to, for every key that Set accepts.
  pub set-get :
      (group key : Bytes) (value : V) (s : os.State)
      → (set os json dir group key value s).0 ≡ true
      → get os json dir group key (set os json dir group key value s).1
        ≡ (json.encode value >>= json.decode)
  unfolding set get
  set-get group key value s h = set_valid-read group (validate_key key) value s h

  -- Set leaves what Get reads under every other plain key of the group as it was, also if it fails.
  pub set_other :
      (group key other : Bytes) (value : V) (s : os.State)
      → group ≢ []
      → Plain key
      → Plain other
      → key ≢ other
      → get os json dir group other (set os json dir group key value s).1
        ≡ get os json dir group other s
  unfolding set get
  set_other group key other value s named k o apart = elim (validate_key_cases other) [
    | inl e ↦ rw (e) refl
    | inr e ↦ rw (e) (
        ap (λ held. held >>= json.decode)
          (set_valid-other os dir group (get_path dir group other) (validate_key key)
            (json.encode value) s
            (λ valid accepted same. apart (
              sym (validated key valid accepted)
              ∙ get_path_apart dir group valid other named
                  (subst Plain (sym (validated key valid accepted)) k) o same))))
  ]
