-- ===== src/Api/Authorities/Active.antt =====
-- The ids and the active flags in the table of authorities.
use decrypt0r_x.Prelude.{
  ℕ, suc, ◌+◌, ◌≤◌, ◌≡◌, refl, Bool, true, false, not, List, [], ◌∷◌, ◌++◌, Option, none, some,
  arith, if◌then◌else◌, ◌==◌, ltb, Bool-cases, Option-cases, inl, inr, ◌⊎◌, select, if_cases,
}
use decrypt0r_x.Text.{Text, codes}
use decrypt0r_x.Models.{User, AuditLog, CaSource, generated, imported, CertificateAuthority}
use decrypt0r_x.Pki.{RootCa}
use decrypt0r_x.Api.Authorities.{
  Db, find_ca, deactivate_others, activate_row, has_name, activated, Outcome, new_row, store_ca,
  import_ca, activate_found, activate_ca, delete_ca,
}
use decrypt0r_x.Api.Authorities.Requests.{
  Call, generate, import, activate, delete, perform, perform_all,
}

abbrev pub count_active : List CertificateAuthority → ℕ
count_active [] = 0
count_active (ca ∷ cas) = if ca.is_active then suc (count_active cas) else count_active cas

abbrev pub count_id : ℕ → List CertificateAuthority → ℕ
count_id k [] = 0
count_id k (ca ∷ cas) = if ca.id == k then suc (count_id k cas) else count_id k cas

pub record IsWellFormed (db : Db) : Type 0 where
  pub distinct : (k : ℕ) → count_id k db.authorities ≤ 1
  pub fresh : (k : ℕ) → db.next_id ≤ k → count_id k db.authorities ≡ 0
  pub single : count_active db.authorities ≤ 1

abbrev one_if : Bool → ℕ
one_if true = 1
one_if false = 0

count_id-append :
    (k : ℕ) (cas : List CertificateAuthority) (ca : CertificateAuthority)
    → count_id k (cas ++ ca ∷ []) ≡ count_id k cas + one_if (ca.id == k)
count_id-append k [] ca = ground arith
count_id-append k (c ∷ cas) ca = ground (arith, count_id-append k cas ca)

count_active-append :
    (cas : List CertificateAuthority) (ca : CertificateAuthority)
    → count_active (cas ++ ca ∷ []) ≡ count_active cas + one_if ca.is_active
count_active-append [] ca = ground arith
count_active-append (c ∷ cas) ca = ground (arith, count_active-append cas ca)

count_id-deactivate :
    (k j : ℕ) (cas : List CertificateAuthority)
    → count_id k (deactivate_others j cas) ≡ count_id k cas
unfolding deactivate_others
count_id-deactivate k j [] = refl
count_id-deactivate k j (ca ∷ cas) = ground (arith, count_id-deactivate k j cas)

count_id-activate :
    (k j : ℕ) (cas : List CertificateAuthority) → count_id k (activate_row j cas) ≡ count_id k cas
unfolding activate_row
count_id-activate k j [] = refl
count_id-activate k j (ca ∷ cas) = ground (arith, count_id-activate k j cas)

count_active-deactivate :
    (j : ℕ) (cas : List CertificateAuthority)
    → count_active (deactivate_others j cas) ≤ count_id j cas
unfolding deactivate_others
count_active-deactivate j [] = omega arith
count_active-deactivate j (ca ∷ cas) = ground (arith, count_active-deactivate j cas)

count_active-activate :
    (j : ℕ) (cas : List CertificateAuthority)
    → count_active (activate_row j (deactivate_others j cas)) ≡ count_id j cas
unfolding activate_row deactivate_others
count_active-activate j [] = refl
count_active-activate j (ca ∷ cas) = ground (arith, count_active-activate j cas)

count_id-select :
    (p : CertificateAuthority → Bool) (k : ℕ) (cas : List CertificateAuthority)
    → count_id k (select p cas) ≤ count_id k cas
count_id-select p k [] = omega arith
count_id-select p k (ca ∷ cas) = ground (arith, count_id-select p k cas)

count_active-select :
    (p : CertificateAuthority → Bool) (cas : List CertificateAuthority)
    → count_active (select p cas) ≤ count_active cas
count_active-select p [] = omega arith
count_active-select p (ca ∷ cas) = ground (arith, count_active-select p cas)

module _ (encrypt : Text → Text → Text) (client_ip : Text) where
  activated-IsWellFormed :
      (active : Bool) (ca : CertificateAuthority) (db : Db) (audit : List AuditLog)
      → IsWellFormed db
      → ca.id ≡ db.next_id
      → ca.is_active ≡ active
      → IsWellFormed (record {
        authorities = activated active ca.id (db.authorities ++ ca ∷ []);
        audit = audit;
        next_id = db.next_id + 1;
      })
  activated-IsWellFormed true ca db audit h fresh on = record {
    distinct = λ k.
        rw count_id-deactivate
          (ground (arith, count_id-append k db.authorities ca, h.distinct k, h.fresh k));
    fresh = λ k le.
        rw count_id-deactivate (ground (arith, count_id-append k db.authorities ca, h.fresh k));
    single = ground (
      arith,
      count_active-deactivate ca.id (db.authorities ++ ca ∷ []),
      count_id-append ca.id db.authorities ca,
      h.fresh ca.id,
    );
  }
  activated-IsWellFormed false ca db audit h fresh off = record {
    distinct = λ k. ground (arith, count_id-append k db.authorities ca, h.distinct k, h.fresh k);
    fresh = λ k le. ground (arith, count_id-append k db.authorities ca, h.fresh k);
    single = ground (arith, count_active-append db.authorities ca, h.single);
  }

  store-IsWellFormed :
      (action name : Text) (root : RootCa) (active : Bool) (source : CaSource) (actor : User)
      (db : Db)
      → IsWellFormed db
      → IsWellFormed (store_ca encrypt client_ip action name root active source actor db).1
  unfolding store_ca
  store-IsWellFormed action name root active source actor db h =
      elim (Bool-cases (has_name name db.authorities)) [
        | inl taken ↦ rw taken h
        | inr free ↦ rw free (
            activated-IsWellFormed active
              (new_row encrypt client_ip name root active source actor db.next_id) db _ h refl refl)
      ]

  import-IsWellFormed :
      (name : Text) (active : Bool) (parsed : Option RootCa) (now : ℕ) (actor : User) (db : Db)
      → IsWellFormed db
      → IsWellFormed (import_ca encrypt client_ip name active parsed now actor db).1
  unfolding import_ca
  import-IsWellFormed name active none now actor db h = h
  import-IsWellFormed name active (some root) now actor db h =
      elim (Bool-cases (ltb root.not_after now)) [
        | inl expired ↦ rw expired h
        | inr valid ↦
            rw valid (store-IsWellFormed (codes "ca.imported") name root active imported actor db h)
      ]

  activate-IsWellFormed :
      (ca_id now : ℕ) (actor : User) (db : Db)
      → IsWellFormed db
      → IsWellFormed (activate_ca encrypt client_ip ca_id now actor db).1
  unfolding activate_ca
  activate-IsWellFormed ca_id now actor db h = elim (Option-cases (find_ca ca_id db.authorities)) [
    | inl missing ↦ rw (missing, activate_ca) h
    | inr (ca, there) ↦ rw (there, activate_ca) (go ca (Bool-cases (ltb ca.not_after now)))
  ]
    where
      go :
          (ca : CertificateAuthority)
          → (ltb ca.not_after now ≡ true) ⊎ (ltb ca.not_after now ≡ false)
          → IsWellFormed (activate_found encrypt client_ip ca now actor db).1
      go ca (inl expired) = rw expired h
      go ca (inr valid) = rw valid (record {
        distinct = λ k. rw (count_id-activate, count_id-deactivate) (h.distinct k);
        fresh = λ k le. rw (count_id-activate, count_id-deactivate) (h.fresh k le);
        single = rw count_active-activate (h.distinct ca.id);
      })

  delete-IsWellFormed :
      (ca_id : ℕ) (actor : User) (db : Db)
      → IsWellFormed db
      → IsWellFormed (delete_ca encrypt client_ip ca_id actor db).1
  unfolding delete_ca
  delete-IsWellFormed ca_id actor db h = elim (Option-cases (find_ca ca_id db.authorities)) [
    | inl missing ↦ rw (missing, delete_ca) h
    | inr (ca, there) ↦
        rw (there, delete_ca)
          (if_cases (λ (o : Outcome). IsWellFormed o.1) ca.is_active _ _ (λ _. h)
            (λ _. record {
              distinct =
                  λ k. omega (arith, count_id-select (others ca) k db.authorities, h.distinct k);
              fresh =
                  λ k le. omega (arith, count_id-select (others ca) k db.authorities, h.fresh k le);
              single = omega (arith, count_active-select (others ca) db.authorities, h.single);
            }))
  ]
    where
      others : CertificateAuthority → CertificateAuthority → Bool
      others ca c = not (c.id == ca.id)

  perform-IsWellFormed :
      (actor : User) (now : ℕ) (call : Call) (db : Db)
      → IsWellFormed db
      → IsWellFormed (perform encrypt client_ip actor now call db).1
  unfolding perform
  perform-IsWellFormed actor now (generate name active root) db h =
      store-IsWellFormed (codes "ca.generated") name root active generated actor db h
  perform-IsWellFormed actor now (import name active parsed) db h =
      import-IsWellFormed name active parsed now actor db h
  perform-IsWellFormed actor now (activate id) db h = activate-IsWellFormed id now actor db h
  perform-IsWellFormed actor now (delete id) db h = delete-IsWellFormed id actor db h

  -- A table in which no two authorities have the same id, every id is below the next one to be
  -- given, and at most one authority is active, is still one after any requests of any users at any
  -- times.
  pub perform_all-IsWellFormed :
      (calls : List (User × ℕ × Call)) (db : Db)
      → IsWellFormed db
      → IsWellFormed (perform_all encrypt client_ip calls db)
  unfolding perform_all
  perform_all-IsWellFormed [] db h = h
  perform_all-IsWellFormed ((actor, now, call) ∷ calls) db h =
      perform_all-IsWellFormed calls (perform encrypt client_ip actor now call db).1
        (perform-IsWellFormed actor now call db h)
