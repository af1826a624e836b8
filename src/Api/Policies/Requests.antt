-- ===== src/Api/Policies/Requests.antt =====
-- services/api/app/routers/policies.py: sequences of requests that change a rule.
use decrypt0r_x.Prelude.{ℕ, List, [], ◌∷◌}
use decrypt0r_x.Text.{Text}
use decrypt0r_x.Models.{User}
use decrypt0r_x.Policy.{Matching}
use decrypt0r_x.Api.Policies.{Db, create_policy, update_policy, delete_policy}
use decrypt0r_x.Api.Policies.Payloads.{PolicyRuleCreate, PolicyRuleUpdate}

pub data Call : Type 0 where
  create : PolicyRuleCreate → Call
  update : ℕ → PolicyRuleUpdate → Call
  delete : ℕ → Call

module _ (lib : Matching) (client_ip : Text) where
  -- the database after a request, whatever its reply
  unfoldable pub perform : User → Call → Db → Db
  unfolding create_policy update_policy delete_policy
  perform actor (create payload) db = (create_policy lib client_ip actor payload db).1
  perform actor (update id payload) db = (update_policy lib client_ip actor id payload db).1
  perform actor (delete id) db = (delete_policy lib client_ip actor id db).1

  -- requests of any users, one after the other
  unfoldable pub perform_all : List (User × Call) → Db → Db
  unfolding perform
  perform_all [] db = db
  perform_all ((actor, call) ∷ calls) db = perform_all calls (perform actor call db)
