-- ===== src/Tests/Ca.antt =====
-- Requests on which the theorems on the certificate authorities are tried.
use decrypt0r_x.Prelude.{ℕ, refl, true, List, [], ◌∷◌, ◌++◌, none, some, arith}
use decrypt0r_x.Text.{Text, codes}
use decrypt0r_x.Models.{admin, User}
use decrypt0r_x.Pki.{RootCa}
use decrypt0r_x.Api.Authorities.{Db}
use decrypt0r_x.Api.Authorities.Requests.{Call, generate, import, activate, delete, perform_all}
use decrypt0r_x.Api.Authorities.Active.{IsWellFormed, perform_all-IsWellFormed}

abbrev sealed : Text → Text → Text
sealed plain context = context ++ plain

abbrev ann : User
ann = record {
  id = 1;
  email = codes "ann@x";
  full_name = none;
  password_hash = codes "h";
  role = admin;
  is_active = true;
  last_login_at = none;
}

abbrev root : RootCa
root = record {
  cert_pem = codes "cert";
  key_pem = codes "key";
  subject = codes "CN=r";
  fingerprint = codes "f0";
  not_before = 1;
  not_after = 100;
  key_algorithm = codes "rsa-2048";
}

abbrev empty : Db
empty = record { authorities = []; audit = []; next_id = 1 }

-- two authorities that both ask to be active, then the first one again
abbrev asked : List (User × ℕ × Call)
asked =
    (ann, 5, generate (codes "one") true root)
    ∷ (ann, 6, import (codes "two") true (some root))
    ∷ (ann, 7, activate 1)
    ∷ (ann, 8, delete 1)
    ∷ []

empty-IsWellFormed : IsWellFormed empty
empty-IsWellFormed = record {
  distinct = λ k. omega arith;
  fresh = λ k le. refl;
  single = omega arith;
}

perform_all-IsWellFormed_example : IsWellFormed (perform_all sealed (codes "10.0.0.1") asked empty)
perform_all-IsWellFormed_example =
    perform_all-IsWellFormed sealed (codes "10.0.0.1") asked empty empty-IsWellFormed
