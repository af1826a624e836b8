-- ===== src/Api/Authorities.antt =====
-- services/api/app/routers/ca.py: the lifecycle of certificate authorities. A handler takes the
-- database and the time, and returns its reply with the database as it leaves it and the event it
-- publishes; a request that raises has committed nothing.
pub mod Requests
pub mod Active
use decrypt0r_x.Prelude.{
  ℕ, ◌+◌, Bool, true, false, not, ◌&&◌, ◌||◌, List, [], ◌∷◌, ◌++◌, Option, none, some,
  if◌then◌else◌, any, select, ltb, ◌==◌,
}
use decrypt0r_x.Text.{Text, codes, text_eq}
use decrypt0r_x.Models.{User, AuditLog, CaSource, generated, imported, CertificateAuthority}
use decrypt0r_x.Api.Reply.{Reply, reply, http_error, uncaught}
use decrypt0r_x.Pki.{RootCa}

pub record Db : Type 0 where
  pub authorities : List CertificateAuthority
  pub audit : List AuditLog
  pub next_id : ℕ

abbrev pub find_ca : ℕ → List CertificateAuthority → Option CertificateAuthority
find_ca id [] = none
find_ca id (ca ∷ cas) = if ca.id == id then some ca else find_ca id cas

abbrev pub deactivate : CertificateAuthority → CertificateAuthority
deactivate ca = record ca { is_active = false }

-- `_deactivate_others(session, keep_id)`, which every caller calls with an id
unfoldable pub deactivate_others : ℕ → List CertificateAuthority → List CertificateAuthority
deactivate_others keep [] = []
deactivate_others keep (ca ∷ cas) =
    (if ca.id == keep then ca else deactivate ca) ∷ deactivate_others keep cas

-- `ca.is_active = True`
pub activate_row : ℕ → List CertificateAuthority → List CertificateAuthority
activate_row id [] = []
activate_row id (ca ∷ cas) =
    (if ca.id == id then record ca { is_active = true } else ca) ∷ activate_row id cas

-- the name is unique
abbrev pub has_name : Text → List CertificateAuthority → Bool
has_name name cas = any (λ ca. text_eq ca.name name) cas

-- `if payload.activate`
abbrev pub activated : Bool → ℕ → List CertificateAuthority → List CertificateAuthority
activated activate id cas = if activate then deactivate_others id cas else cas

-- `select(…).where(is_active)`, the first row
unfoldable pub active_ca : Db → Reply CertificateAuthority
active_ca db = go (select (λ ca. ca.is_active) db.authorities)
  where
    go : List CertificateAuthority → Reply CertificateAuthority
    go [] = http_error 404
    go (ca ∷ cas) = reply ca

-- what a handler returns: its reply, the database, and the id that it publishes
abbrev pub Outcome : Type 0
Outcome = Reply CertificateAuthority × Db × Option ℕ

-- `box.encrypt(plaintext, aad=…)`
module _ (encrypt : Text → Text → Text) (client_ip : Text) where
  abbrev pub new_row : Text → RootCa → Bool → CaSource → User → ℕ → CertificateAuthority
  new_row name root activate source actor id = record {
    id = id;
    name = name;
    cert_pem = root.cert_pem;
    key_encrypted = encrypt root.key_pem root.fingerprint;
    fingerprint = root.fingerprint;
    not_after = root.not_after;
    is_active = activate;
    source = source;
    created_by = some actor.email;
  }

  -- the part that `generate_ca` and `import_ca` share, from `session.add` on
  unfoldable pub store_ca : Text → Text → RootCa → Bool → CaSource → User → Db → Outcome
  unfolding deactivate_others
  store_ca action name root activate source actor db =
      let ca = new_row name root activate source actor db.next_id in
      if has_name name db.authorities then (http_error 409, db, none) else (
        reply ca,
        record {
          authorities = activated activate ca.id (db.authorities ++ ca ∷ []);
          audit =
              db.audit
              ++ record {
                actor = actor.email;
                action = action;
                target = some ca.name;
                client_ip = client_ip;
              }
                ∷ [];
          next_id = db.next_id + 1;
        },
        some ca.id,
      )

  -- `root` is what `generate_root_ca` returns
  unfoldable pub generate_ca : Text → Bool → RootCa → User → Db → Outcome
  unfolding store_ca
  generate_ca name activate root actor db =
      store_ca (codes "ca.generated") name root activate generated actor db

  -- `parsed` is what `parse_ca_bundle` returns, `none` for its `ValueError`
  unfoldable pub import_ca : Text → Bool → Option RootCa → ℕ → User → Db → Outcome
  unfolding store_ca
  import_ca name activate none now actor db = (http_error 422, db, none)
  import_ca name activate (some root) now actor db =
      if ltb root.not_after now
      then (http_error 422, db, none)
      else store_ca (codes "ca.imported") name root activate imported actor db

  abbrev pub activate_found : CertificateAuthority → ℕ → User → Db → Outcome
  activate_found ca now actor db = if ltb ca.not_after now then (http_error 400, db, none) else (
    reply (record ca { is_active = true }),
    record db {
      authorities = activate_row ca.id (deactivate_others ca.id db.authorities);
      audit =
          db.audit
          ++ record {
            actor = actor.email;
            action = codes "ca.activated";
            target = some ca.name;
            client_ip = client_ip;
          }
            ∷ [];
    },
    some ca.id,
  )

  unfoldable pub activate_ca : ℕ → ℕ → User → Db → Outcome
  unfolding activate_row deactivate_others
  activate_ca ca_id now actor db = elim (find_ca ca_id db.authorities) [
    | none ↦ (http_error 404, db, none)
    | some ca ↦ activate_found ca now actor db
  ]

  abbrev pub delete_found : CertificateAuthority → User → Db → Outcome
  delete_found ca actor db = if ca.is_active then (http_error 400, db, none) else (
    reply ca,
    record db {
      authorities = select (λ c. not (c.id == ca.id)) db.authorities;
      audit =
          db.audit
          ++ record {
            actor = actor.email;
            action = codes "ca.deleted";
            target = some ca.name;
            client_ip = client_ip;
          }
            ∷ [];
    },
    none,
  )

  -- no event is published; the reply's row stands for the empty 204
  unfoldable pub delete_ca : ℕ → User → Db → Outcome
  delete_ca ca_id actor db = elim (find_ca ca_id db.authorities) [
    | none ↦ (http_error 404, db, none)
    | some ca ↦ delete_found ca actor db
  ]
