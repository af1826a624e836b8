-- ===== src/Storage/Levels.antt =====
-- Paths of one depth do not get in each other's way in the body store of
-- packages/core/decrypt0rx_core/storage.py: none is a directory above another.
use decrypt0r_x.Prelude.{
  ℕ, suc, ◌≤◌, ◌≡◌, refl, sym, ap, ◌∙◌, Bool, true, false, List, [], ◌∷◌, Option, none, some,
  if◌then◌else◌, any, inl, inr, Bool-cases, arith,
}
use decrypt0r_x.Text.{Text, text_eq}
use decrypt0r_x.Text.Dict.{find, assign, without}
use decrypt0r_x.Storage.{
  path, is_above, is_root, is_directory, make_parents, put_made, get_made, unlink_made,
  LocalBodyStore, put, get, delete,
}
use decrypt0r_x.Storage.Calls.{
  Call, putting, getting, deleting, key_of, is_some, call, empty_store, depth,
}

is_above-depth : (p q : Text) → is_above p q ≡ true → suc (depth p) ≤ depth q
is_above-depth [] [] h = cc
is_above-depth [] (d ∷ q) h = ground arith
is_above-depth (c ∷ p) [] h = cc
is_above-depth (c ∷ p) (d ∷ q) h = ground (arith, is_above-depth p q)

not_above : (p q : Text) → depth p ≡ depth q → is_above p q ≡ false
not_above p q e = elim (Bool-cases (is_above p q)) [
  | inl above ↦ absurd (omega (arith, e, is_above-depth p q above))
  | inr apart ↦ apart
]

module _ (n : ℕ) where
  AllFiles : List (Text × Text) → Type 0
  AllFiles [] = Unit
  AllFiles ((p, bytes) ∷ files) = (depth p ≡ n) × AllFiles files

  AllWalked : List Text → Type 0
  AllWalked [] = Unit
  AllWalked (p ∷ walked) = (depth p ≡ n) × AllWalked walked

  assign-AllFiles :
      (p bytes : Text) (files : List (Text × Text))
      → depth p ≡ n
      → AllFiles files
      → AllFiles (assign p bytes files)
  unfolding AllFiles
  assign-AllFiles p bytes [] e h = (e, tt)
  assign-AllFiles p bytes ((q, old) ∷ files) e (d, h) = elim (Bool-cases (text_eq q p)) [
    | inl hit ↦ rw hit (d, h)
    | inr miss ↦ rw miss (d, assign-AllFiles p bytes files e h)
  ]

  without-AllFiles :
      (p : Text) (files : List (Text × Text)) → AllFiles files → AllFiles (without p files)
  unfolding AllFiles
  without-AllFiles p [] h = tt
  without-AllFiles p ((q, old) ∷ files) (d, h) = elim (Bool-cases (text_eq q p)) [
    | inl hit ↦ rw hit (without-AllFiles p files h)
    | inr miss ↦ rw miss (d, without-AllFiles p files h)
  ]

  no_file_above :
      (p : Text) (files : List (Text × Text))
      → depth p ≡ n
      → AllFiles files
      → any (λ (file : Text × Text). is_above file.0 p) files ≡ false
  unfolding AllFiles
  no_file_above p [] e h = refl
  no_file_above p ((q, old) ∷ files) e (d, h) =
      rw (not_above q p (d ∙ sym e), no_file_above p files e h)

  none_below :
      (p : Text) (walked : List Text)
      → depth p ≡ n
      → AllWalked walked
      → any (is_above p) walked ≡ false
  unfolding AllWalked
  none_below p [] e h = refl
  none_below p (q ∷ walked) e (d, h) = rw (not_above p q (e ∙ sym d), none_below p walked e h)

  -- every path that is held lies as deep as the others, so that no file is where a directory is
  pub IsLevel : LocalBodyStore → Type 0
  IsLevel store = AllFiles store.files × AllWalked store.walked

  pub empty-IsLevel : IsLevel empty_store
  unfolding IsLevel AllFiles AllWalked
  empty-IsLevel = (tt, tt)

  module _ (deep : 1 ≤ n) where
    not_root : (p : Text) → depth p ≡ n → is_root p ≡ false
    not_root [] e = absurd (omega arith)
    not_root (c ∷ p) e = refl

    make_parents-level :
        (p : Text) (store : LocalBodyStore)
        → depth p ≡ n
        → IsLevel store
        → make_parents p store ≡ some (record store { walked = p ∷ store.walked })
    unfolding IsLevel
    make_parents-level p store e h = rw (no_file_above p store.files e h.0)

    not_directory :
        (p : Text) (store : LocalBodyStore)
        → depth p ≡ n
        → IsLevel store
        → is_directory p (record store { walked = p ∷ store.walked }) ≡ false
    unfolding IsLevel
    not_directory p store e h =
        rw (not_root p e, not_above p p refl, none_below p store.walked e h.1)

    -- the store after a call that finds no conflict
    abbrev pub after : Call → LocalBodyStore → LocalBodyStore
    after (putting key bytes) store = record {
      files = assign (path key) bytes store.files;
      walked = path key ∷ store.walked;
    }
    after (getting key) store = record { files = store.files; walked = path key ∷ store.walked }
    after (deleting key) store = record {
      files = without (path key) store.files;
      walked = path key ∷ store.walked;
    }

    -- the store with the parents of a path made
    abbrev walk : Text → LocalBodyStore → LocalBodyStore
    walk p store = record { files = store.files; walked = p ∷ store.walked }

    pub call-after :
        (c : Call) (store : LocalBodyStore)
        → depth (path (key_of c)) ≡ n
        → IsLevel store
        → call c store ≡ (true, after c store)
    unfolding call put get delete
    call-after (putting key bytes) store e h =
        let made = walk (path key) store in
        ap
          (λ o. (
            is_some (put_made (path key) key bytes store o).0,
            (put_made (path key) key bytes store o).1,
          ))
          (make_parents-level (path key) store e h)
        ∙ ap
            (λ (b : Bool).
              let r : Option Text × LocalBodyStore =
                if b
                then (none, made)
                else (some key, record made { files = assign (path key) bytes made.files }) in
              (is_some r.0, r.1))
            (not_directory (path key) store e h)
    call-after (getting key) store e h =
        ap (λ o. (true, (get_made (path key) store o).1)) (make_parents-level (path key) store e h)
    call-after (deleting key) store e h =
        let made = walk (path key) store in
        ap (unlink_made (path key) store) (make_parents-level (path key) store e h)
        ∙ ap
            (λ (b : Bool).
              if b
              then (false, made)
              else (true, record made { files = without (path key) made.files }))
            (not_directory (path key) store e h)

    pub after-IsLevel :
        (c : Call) (store : LocalBodyStore)
        → depth (path (key_of c)) ≡ n
        → IsLevel store
        → IsLevel (after c store)
    unfolding IsLevel AllWalked
    after-IsLevel (putting key bytes) store e h =
        (assign-AllFiles (path key) bytes store.files e h.0, (e, h.1))
    after-IsLevel (getting key) store e h = (h.0, (e, h.1))
    after-IsLevel (deleting key) store e h = (without-AllFiles (path key) store.files h.0, (e, h.1))

    pub get-level :
        (key : Text) (store : LocalBodyStore)
        → depth (path key) ≡ n
        → IsLevel store
        → (get key store).0 ≡ find (path key) store.files
    unfolding get
    get-level key store e h =
        ap (λ o. (get_made (path key) store o).0) (make_parents-level (path key) store e h)
        ∙ ap (λ (b : Bool). if b then none else find (path key) store.files)
            (not_directory (path key) store e h)
