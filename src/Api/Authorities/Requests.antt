-- ===== src/Api/Authorities/Requests.antt =====
-- services/api/app/routers/ca.py: sequences of requests that change an authority.
use decrypt0r_x.Prelude.{ℕ, Bool, List, [], ◌∷◌, Option}
use decrypt0r_x.Text.{Text}
use decrypt0r_x.Models.{User}
use decrypt0r_x.Pki.{RootCa}
use decrypt0r_x.Api.Authorities.{Db, Outcome, generate_ca, import_ca, activate_ca, delete_ca}

-- `import` carries what `parse_ca_bundle` returns
pub data Call : Type 0 where
  generate : Text → Bool → RootCa → Call
  import : Text → Bool → Option RootCa → Call
  activate : ℕ → Call
  delete : ℕ → Call

module _ (encrypt : Text → Text → Text) (client_ip : Text) where
  -- one request, at a time
  unfoldable pub perform : User → ℕ → Call → Db → Outcome
  unfolding generate_ca import_ca activate_ca delete_ca
  perform actor now (generate name active root) db =
      generate_ca encrypt client_ip name active root actor db
  perform actor now (import name active parsed) db =
      import_ca encrypt client_ip name active parsed now actor db
  perform actor now (activate id) db = activate_ca encrypt client_ip id now actor db
  perform actor now (delete id) db = delete_ca encrypt client_ip id actor db

  -- requests one after the other, each with its user and its time
  unfoldable pub perform_all : List (User × ℕ × Call) → Db → Db
  unfolding perform
  perform_all [] db = db
  perform_all ((actor, now, call) ∷ calls) db = perform_all calls (perform actor now call db).1
