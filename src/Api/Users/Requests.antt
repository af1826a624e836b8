-- ===== src/Api/Users/Requests.antt =====
-- services/api/app/routers/users.py: sequences of requests that change a user.
use decrypt0r_x.Prelude.{ℕ, List, [], ◌∷◌}
use decrypt0r_x.Text.{Text}
use decrypt0r_x.Models.{User}
use decrypt0r_x.Api.Users.{Db, UserCreate, UserUpdate, create_user, update_user, delete_user}

pub data Call : Type 0 where
  create : UserCreate → Call
  update : ℕ → UserUpdate → Call
  delete : ℕ → Call

module _ (hash_password : Text → Text) (client_ip : Text) where
  -- the database after a request, whatever its reply
  unfoldable pub perform : User → Call → Db → Db
  unfolding create_user update_user delete_user
  perform actor (create payload) db = (create_user hash_password client_ip actor payload db).1
  perform actor (update id payload) db = (update_user hash_password client_ip actor id payload db).1
  perform actor (delete id) db = (delete_user hash_password client_ip actor id db).1

  unfoldable pub perform_all : User → List Call → Db → Db
  unfolding perform
  perform_all actor [] db = db
  perform_all actor (call ∷ calls) db = perform_all actor calls (perform actor call db)
