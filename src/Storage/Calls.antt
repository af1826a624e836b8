-- ===== src/Storage/Calls.antt =====
-- The calls of the body store of packages/core/decrypt0rx_core/storage.py, and the map that they are
-- replayed on.
use decrypt0r_x.Prelude.{
  ℕ, suc, ◌≡◌, Bool, true, false, List, [], ◌∷◌, Option, none, some, if◌then◌else◌, ◌==◌,
}
use decrypt0r_x.Text.{Text, text_eq}
use decrypt0r_x.Storage.{path, LocalBodyStore, put, get, delete}

-- the calls
pub data Call : Type 0 where
  putting : Text → Text → Call
  getting : Text → Call
  deleting : Text → Call

abbrev pub key_of : Call → Text
key_of (putting key bytes) = key
key_of (getting key) = key
key_of (deleting key) = key

abbrev pub is_some {ℓ} : {A : Type ℓ} → Option A → Bool
is_some none = false
is_some (some a) = true

-- what the store is after a call, and whether a write or a removal returned
unfoldable pub call : Call → LocalBodyStore → Bool × LocalBodyStore
call (putting key bytes) store = (is_some (put key bytes store).0, (put key bytes store).1)
call (getting key) store = (true, (get key store).1)
call (deleting key) store = delete key store

unfoldable pub call_all : List Call → LocalBodyStore → Bool × LocalBodyStore
unfolding call
call_all [] store = (true, store)
call_all (c ∷ calls) store =
    let later = call_all calls (call c store).1 in
    (if (call c store).0 then later.0 else false, later.1)

-- what the store stands for
abbrev pub Bodies : Type 0
Bodies = Text → Option Text

abbrev pub assigned : Text → Option Text → Bodies → Bodies
assigned p body bodies other = if text_eq p other then body else bodies other

abbrev pub effect : Call → Bodies → Bodies
effect (putting key bytes) bodies = assigned (path key) (some bytes) bodies
effect (getting key) bodies = bodies
effect (deleting key) bodies = assigned (path key) none bodies

abbrev pub replay : List Call → Bodies → Bodies
replay [] bodies = bodies
replay (c ∷ calls) bodies = replay calls (effect c bodies)

abbrev pub no_bodies : Bodies
no_bodies p = none

abbrev pub empty_store : LocalBodyStore
empty_store = record { files = []; walked = [] }

-- the number of slashes of a path, which is the number of directories above it, the root left out
abbrev pub depth : Text → ℕ
depth [] = 0
depth (c ∷ p) = let rest = depth p in if c == b'/' then suc rest else rest

abbrev pub AllAtDepth : ℕ → List Call → Type 0
AllAtDepth n [] = Unit
AllAtDepth n (c ∷ calls) = (depth (path (key_of c)) ≡ n) × AllAtDepth n calls
