-- ===== src/Tests/Storage.antt =====
-- Keys on which the theorems on storage.py are tried.
use decrypt0r_x.Prelude.{◌≡◌, refl, List, [], ◌∷◌, none}
use decrypt0r_x.Text.{Text, codes}
use decrypt0r_x.Storage.{path, put, body_key}
use decrypt0r_x.Storage.Calls
use decrypt0r_x.Storage.Calls.{putting, deleting, getting, empty_store}

normal : path (codes "//a/./b//c") ≡ codes "a/b/c"
unfolding path
normal = refl

-- a file and a directory of one name exclude each other
conflict : (put (codes "a/b") (codes "two") (put (codes "a") (codes "one") empty_store).1).0 ≡ none
unfolding put path
conflict = refl

abbrev request_key : Text
request_key = codes "2024/01/02/f1/request.bin"

-- another key of the same path
abbrev same_key : Text
same_key = codes "/2024/01/02//f1/./request.bin"

request_key-body_key : body_key (codes "2024/01/02") (codes "f1") (codes "request") ≡ request_key
unfolding body_key
request_key-body_key = refl

abbrev calls : List Calls.Call
calls =
    putting request_key (codes "one")
    ∷ putting same_key (codes "two")
    ∷ deleting request_key
    ∷ getting request_key
    ∷ putting request_key (codes "three")
    ∷ []
