-- ===== src/Persist/Database.antt =====
-- Reading and writing values: `EnsurePath`, `Set`, `Get` and `ForEach`.
pub mod RoundTrip
use tinyrange_ad.Common.{
  ◌<◌, All, List, [], ◌∷◌, ◌++◌, Bool, true, false, Option, none, some, if◌then◌else◌, ◌>>=◌, ◌≡◌,
  ◌≢◌, refl,
}
use tinyrange_ad.Common.Text.{Bytes, codes}
use tinyrange_ad.Persist.{validate_key, get_path, filepath_join, file_dir}

-- What `os.ReadDir` answers: the directory is missing, it cannot be read, or its entries, each
-- with whether it is a directory itself.
pub data Dir : Type 0 where
  missing unreadable : Dir
  entries : List (Bytes × Bool) → Dir

-- The file system, of the operating system, on whose writes the database relies: a call may fail,
-- and one that succeeds changes what the other files hold in no way. `write` is the write to a file
-- that was created just before.
pub record Disk : Type 1 where
  pub State : Type 0
  pub read : State → Bytes → Option Bytes
  pub read_dir : State → Bytes → Dir
  pub mkdir_all : State → Bytes → Bool × State
  pub create : State → Bytes → Bool × State
  pub write : State → Bytes → Bytes → Bool × State
  pub read-mkdir_all : (s : State) (dir path : Bytes) → read (mkdir_all s dir).1 path ≡ read s path
  pub read-create :
      (s : State) (path other : Bytes) → path ≢ other → read (create s path).1 other ≡ read s other
  pub read-write :
      (s : State) (path text : Bytes)
      → (write s path text).0 ≡ true
      → read (write s path text).1 path ≡ some text
  pub read-write_other :
      (s : State) (path text other : Bytes)
      → path ≢ other
      → read (write s path text).1 other ≡ read s other

-- A text of 7-bit characters.
abbrev pub Ascii : Bytes → Type 0
Ascii = All (λ c. c < 128)

-- The JSON form of a type of values, of package json, without any law: it does not give back every
-- string.
pub record Codec (V : Type 0) : Type 0 where
  pub encode : V → Option Bytes
  pub decode : Bytes → Option V

module _ (os : Disk) where
  ensured : Bytes → Bool × os.State → Option Bytes × os.State
  ensured path (false, s) = (none, s)
  ensured path (true, s) = (some path, s)

  -- `EnsurePath`, for the database's directory: the path if its directory could be made.
  unfoldable pub ensure_path : Bytes → Bytes → Bytes → os.State → Option Bytes × os.State
  unfolding ensured
  ensure_path dir group key s =
      let path = get_path dir group key in ensured path (os.mkdir_all s (file_dir path))

  write_encoded : Bytes → Option Bytes → os.State → Bool × os.State
  write_encoded path none s = (false, s)
  write_encoded path (some text) s = os.write s path text

  -- A text is written to the file that was created, if it was.
  created : Bytes → Option Bytes → Bool × os.State → Bool × os.State
  unfolding write_encoded
  created path encoded (false, s) = (false, s)
  created path encoded (true, s) = write_encoded path encoded s

  made_dir : Bytes → Option Bytes → Bool × os.State → Bool × os.State
  unfolding created
  made_dir path encoded (false, s) = (false, s)
  made_dir path encoded (true, s) = created path encoded (os.create s path)

  set_valid : Bytes → Bytes → Option Bytes → Option Bytes → os.State → Bool × os.State
  unfolding made_dir
  set_valid dir group none encoded s = (false, s)
  set_valid dir group (some valid) encoded s =
      let path = get_path dir group valid in made_dir path encoded (os.mkdir_all s (file_dir path))

module _ (os : Disk) {V : Type 0} (json : Codec V) (dir : Bytes) where
  -- `PersistDatabase.Set`: whether it succeeded.
  unfoldable pub set : Bytes → Bytes → V → os.State → Bool × os.State
  unfolding set_valid
  set group key value s = set_valid os dir group (validate_key key) (json.encode value) s

  -- `PersistDatabase.Get`, with `none` for its errors.
  unfoldable pub get : Bytes → Bytes → os.State → Option V
  get group key s =
      validate_key key >>= λ valid. os.read s (get_path dir group valid) >>= json.decode

  -- The calls of `ForEach`: the reader of the value is handed over as what it reads. A `none` of
  -- the callback is its error.
  unfoldable pub each_entry :
      {A : Type 0} (s : os.State)
      → Bytes
      → (Bytes → Option V → A → Option A)
      → List (Bytes × Bool)
      → A
      → Option A
  each_entry s path callback [] a = some a
  each_entry s path callback ((key, is_dir) ∷ ents) a =
      let skipped = each_entry s path callback ents a in
      if is_dir
      then skipped
      else (os.read s (filepath_join (path ∷ key ∷ [])) >>= λ text.
          callback key (json.decode text) a >>= λ b. each_entry s path callback ents b)

  -- `PersistDatabase.ForEach`.
  unfoldable pub for_each :
      {A : Type 0} → Bytes → (Bytes → Option V → A → Option A) → os.State → A → Option A
  unfolding each_entry
  for_each group callback s a =
      let path = filepath_join (dir ∷ group ∷ []) in
      elim (os.read_dir s path) [
        | missing ↦ some a
        | unreadable ↦ none
        | entries ents ↦ each_entry s path callback ents a
      ]
