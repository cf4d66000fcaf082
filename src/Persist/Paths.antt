-- ===== src/Persist/Paths.antt =====
-- Where the file of a key lies.
use tinyrange_ad.Common.{
  List, [], ◌∷◌, ◌++◌, Bool, ◌≡◌, ◌≢◌, refl, append_assoc, ◌∙◌, ap, sym, drop, drop-append, length,
}
use tinyrange_ad.Common.Text.{
  Bytes, codes, eqb, eqb_ne, Lacks, split, split-Lacks, join, has_prefix, split_between,
}
use tinyrange_ad.Persist.{get_path, filepath_join, clean, push_all, push, above, path_text}

-- A key that names a file of its own: neither empty nor `.` nor `..`, and without a slash.
unfoldable pub Plain : Bytes → Type 0
Plain key = (key ≢ []) × (key ≢ codes ".") × (key ≢ codes "..") × Lacks b'/' key

push_all-append :
    (rooted : Bool) (out ss ts : List Bytes)
    → push_all rooted out (ss ++ ts) ≡ push_all rooted (push_all rooted out ss) ts
unfolding push_all
push_all-append rooted out [] ts = refl
push_all-append rooted out (s ∷ ss) ts = push_all-append rooted (push rooted out s) ss ts

push-Plain :
    (rooted : Bool) (out : List Bytes) (key : Bytes) → Plain key → push rooted out key ≡ key ∷ out
unfolding push Plain
push-Plain rooted out key (some_text, dot, dots, _) =
    rw (eqb_ne key [] some_text, eqb_ne key (codes ".") dot, eqb_ne key (codes "..") dots) refl

-- The directory of a group, its slash included.
unfoldable pub directory : Bytes → Bytes
directory path =
    let rooted = has_prefix path (codes "/") in above rooted (push_all rooted [] (split path b'/'))

clean-Plain :
    (path key : Bytes) → path ≢ [] → Plain key → clean (path ++ b'/' ∷ key) ≡ directory path ++ key
unfolding clean push_all Plain directory path_text has_prefix
clean-Plain [] key h plain = absurd (h refl)
clean-Plain (c ∷ path) key h plain =
    let rooted = has_prefix (c ∷ path) (codes "/") in
    ap (λ ss. path_text rooted (push_all rooted [] ss))
      (split_between (c ∷ path) key b'/'
        ∙ ap (λ k. split (c ∷ path) b'/' ++ k) (split-Lacks key b'/' plain.3))
    ∙ ap (path_text rooted) (push_all-append rooted [] (split (c ∷ path) b'/') (key ∷ []))
    ∙ ap (path_text rooted)
        (push-Plain rooted (push_all rooted [] (split (c ∷ path) b'/')) key plain)

-- The path of a group.
unfoldable pub group_path : Bytes → Bytes → Bytes
group_path [] group = group
group_path (c ∷ dir) group = (c ∷ dir) ++ b'/' ∷ group

-- The file of a plain key lies directly in the directory of its group, under the key's own name.
pub get_path-Plain :
    (dir group key : Bytes)
    → group ≢ []
    → Plain key
    → get_path dir group key ≡ directory (group_path dir group) ++ key
unfolding get_path filepath_join group_path Plain join eqb
get_path-Plain [] group key h plain = rw (eqb_ne group [] h) (clean-Plain group key h plain)
get_path-Plain (c ∷ dir) group key h plain =
    ap (λ path. clean (c ∷ path)) (sym (append_assoc dir (b'/' ∷ group) (b'/' ∷ key)))
    ∙ clean-Plain (c ∷ dir ++ b'/' ∷ group) key (λ e. cc) plain

-- Two plain keys of a group never share a file.
pub get_path_apart :
    (dir group key other : Bytes)
    → group ≢ []
    → Plain key
    → Plain other
    → get_path dir group key ≡ get_path dir group other
    → key ≡ other
get_path_apart dir group key other h k o same =
    let place = directory (group_path dir group) in
    sym (drop-append place key)
    ∙ ap (drop (length place))
        (sym (get_path-Plain dir group key h k) ∙ same ∙ get_path-Plain dir group other h o)
    ∙ drop-append place other
