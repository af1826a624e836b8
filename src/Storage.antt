-- ===== src/Storage.antt =====
-- packages/core/decrypt0rx_core/storage.py: the store of captured bodies on a file system. A store is the
-- files under its root, by their path, and the directories that were made for them. Nothing else writes under
-- the root; what a system refuses for other reasons (a full disk, a name too long, a zero byte) is not modelled.
pub mod Paths
pub mod Calls
pub mod Levels
pub mod Refines
use decrypt0r_x.Prelude.{
  ℕ, Bool, true, false, List, [], ◌∷◌, ◌++◌, Option, none, some, if◌then◌else◌, ◌==◌, ◌&&◌, ◌||◌,
  not, any, select,
}
use decrypt0r_x.Text.{Text, codes, drop_while, text_eq, split_on}
use decrypt0r_x.Text.Split.{join}
use decrypt0r_x.Text.Dict.{find, assign, without}

-- `key.replace("..", "_")`, where `pending` is a dot that the scan has just seen
abbrev pub replace_after : Bool → Text → Text
replace_after true [] = b'.' ∷ []
replace_after false [] = []
replace_after true (c ∷ t) =
    let rest = replace_after false t in if c == b'.' then b'_' ∷ rest else b'.' ∷ c ∷ rest
replace_after false (c ∷ t) =
    let rest = replace_after false t in
    let later = replace_after true t in if c == b'.' then later else c ∷ rest

abbrev pub replace_dots : Text → Text
replace_dots t = replace_after false t

abbrev pub is_slash : ℕ → Bool
is_slash c = c == b'/'

-- a component that `Path` keeps: it drops the empty ones and the single dots
abbrev pub is_component : Text → Bool
is_component [] = false
is_component (c ∷ t) = not (text_eq (c ∷ t) (codes "."))

-- the components of `_path` below the root
abbrev pub components : Text → List Text
components key = select is_component (split_on b'/' (drop_while is_slash (replace_dots key)))

-- `_path` below the root; the root itself is the empty text
unfoldable pub path : Text → Text
path key = join b'/' (components key)

-- The files by their paths; and the paths whose parents were made: the directories are the root and all that is above
-- one of these paths.
pub record LocalBodyStore : Type 0 where
  pub files : List (Text × Text)
  pub walked : List Text

-- the first path is a parent of the second, or a parent of one
abbrev pub is_above : Text → Text → Bool
is_above [] [] = false
is_above [] (d ∷ q) = d == b'/'
is_above (c ∷ p) [] = false
is_above (c ∷ p) (d ∷ q) = c == d && is_above p q

abbrev pub is_root : Text → Bool
is_root [] = true
is_root (c ∷ p) = false

abbrev pub is_directory : Text → LocalBodyStore → Bool
is_directory p store = is_root p || any (is_above p) store.walked

-- `path.parent.mkdir(parents=True, exist_ok=True)`, which fails if one of them is a file
abbrev pub make_parents : Text → LocalBodyStore → Option LocalBodyStore
make_parents p store =
    if any (λ (file : Text × Text). is_above file.0 p) store.files
    then none
    else some (record store { walked = p ∷ store.walked })

abbrev pub put_at : Text → Text → Text → LocalBodyStore → Option Text × LocalBodyStore
put_at p key bytes store =
    if is_directory p store
    then (none, store)
    else (some key, record store { files = assign p bytes store.files })

abbrev pub put_made :
    Text → Text → Text → LocalBodyStore → Option LocalBodyStore → Option Text × LocalBodyStore
put_made p key bytes store none = (none, store)
put_made p key bytes store (some made) = put_at p key bytes made

-- `put`, which returns the key; `none` is an `OSError`
unfoldable pub put : Text → Text → LocalBodyStore → Option Text × LocalBodyStore
put key bytes store = put_made (path key) key bytes store (make_parents (path key) store)

abbrev pub read_at : Text → LocalBodyStore → Option Text
read_at p store = if is_directory p store then none else find p store.files

abbrev pub get_made : Text → LocalBodyStore → Option LocalBodyStore → Option Text × LocalBodyStore
get_made p store none = (none, store)
get_made p store (some made) = (read_at p made, made)

-- `get`, which makes the parents too; `none` is a `FileNotFoundError` or another `OSError`
unfoldable pub get : Text → LocalBodyStore → Option Text × LocalBodyStore
get key store = get_made (path key) store (make_parents (path key) store)

abbrev pub unlink_at : Text → LocalBodyStore → Bool × LocalBodyStore
unlink_at p store =
    if is_directory p store
    then (false, store)
    else (true, record store { files = without p store.files })

abbrev pub unlink_made : Text → LocalBodyStore → Option LocalBodyStore → Bool × LocalBodyStore
unlink_made p store none = (false, store)
unlink_made p store (some made) = unlink_at p made

-- `delete`, and whether it returns; a missing file is no error
unfoldable pub delete : Text → LocalBodyStore → Bool × LocalBodyStore
delete key store = unlink_made (path key) store (make_parents (path key) store)

-- `body_key(flow_id, direction)` on a day
unfoldable pub body_key : Text → Text → Text → Text
body_key day flow_id direction =
    day ++ codes "/" ++ flow_id ++ codes "/" ++ direction ++ codes ".bin"
