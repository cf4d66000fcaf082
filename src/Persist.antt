-- ===== src/Persist.antt =====
-- The persisted database: cmd/ad/persist.go. A group is a directory, a key is a file of it.
pub mod Keys
pub mod Paths
pub mod Database
use tinyrange_ad.Common.{
  List, [], ◌∷◌, ◌++◌, Bool, true, false, not, ◌||◌, ◌==◌, Option, none, some, if◌then◌else◌,
}
use tinyrange_ad.Common.Text.{Bytes, codes, eqb, split, join, has_prefix}

is_empty : Bytes → Bool
is_empty [] = true
is_empty (c ∷ s) = false

-- The text without the slashes at its end.
unfoldable pub trim_slashes : Bytes → Bytes
unfolding is_empty
trim_slashes [] = []
trim_slashes (c ∷ s) =
    let rest = trim_slashes s in
    if is_empty rest then (if c == b'/' then [] else c ∷ []) else c ∷ rest

-- The text behind the last slash, and all of it where there is none.
unfoldable pub last_part : Bytes → Option Bytes
last_part [] = none
last_part (c ∷ s) =
    let rest = last_part s in
    elim rest [ some part ↦ some part | none ↦ if c == b'/' then some s else none ]

after_slash : Bytes → Bytes
unfolding last_part
after_slash path = elim (last_part path) [ some part ↦ part | none ↦ path ]

-- `filepath.Base`.
unfoldable pub base : Bytes → Bytes
unfolding trim_slashes after_slash is_empty
base path =
    let part = after_slash (trim_slashes path) in
    if is_empty path then codes "." else if is_empty part then codes "/" else part

-- `PersistDatabase.ValidateKey`, with `none` for its errors.
unfoldable pub validate_key : Bytes → Option Bytes
unfolding base
validate_key key = if eqb key [] then none else if not (eqb (base key) key) then none else some key

-- A path is kept as its elements from the last one up.
up : Bool → List Bytes → List Bytes
up rooted [] = if rooted then [] else codes ".." ∷ []
up rooted (s ∷ out) = if eqb s (codes "..") then codes ".." ∷ s ∷ out else out

push : Bool → List Bytes → Bytes → List Bytes
unfolding up
push rooted out s =
    if eqb s [] || eqb s (codes ".")
    then out
    else if eqb s (codes "..")
    then up rooted out
    else s ∷ out

unfoldable pub push_all : Bool → List Bytes → List Bytes → List Bytes
unfolding push
push_all rooted out [] = out
push_all rooted out (s ∷ ss) = push_all rooted (push rooted out s) ss

-- The text before the last element of a path, its slash included.
unfoldable pub above : Bool → List Bytes → Bytes
above rooted [] = if rooted then codes "/" else []
above rooted (s ∷ out) = above rooted out ++ (s ++ codes "/")

path_text : Bool → List Bytes → Bytes
unfolding above
path_text rooted [] = if rooted then codes "/" else codes "."
path_text rooted (s ∷ out) = above rooted out ++ s

-- `filepath.Clean`.
unfoldable pub clean : Bytes → Bytes
unfolding path_text push_all
clean path =
    let rooted = has_prefix path (codes "/") in
    path_text rooted (push_all rooted [] (split path b'/'))

-- `filepath.Join`: empty elements at the front are left out.
unfoldable pub filepath_join : List Bytes → Bytes
unfolding clean
filepath_join [] = []
filepath_join (e ∷ es) =
    let rest = filepath_join es in if eqb e [] then rest else clean (join (e ∷ es) (codes "/"))

-- `PersistDatabase.GetPath`, for the directory of the database.
unfoldable pub get_path : Bytes → Bytes → Bytes → Bytes
unfolding filepath_join
get_path dir group key = filepath_join (dir ∷ group ∷ key ∷ [])

through_last_slash : Bytes → Bytes
unfolding is_empty
through_last_slash [] = []
through_last_slash (c ∷ s) =
    let rest = through_last_slash s in
    if is_empty rest then (if c == b'/' then c ∷ [] else []) else c ∷ rest

-- `filepath.Dir`.
unfoldable pub file_dir : Bytes → Bytes
unfolding through_last_slash
file_dir path = clean (through_last_slash path)
