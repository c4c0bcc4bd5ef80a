-- ===== src/Examples/Rest.antt =====
-- A request of an administrator.
use open_machine_core.Prelude.{
  refl, [], ◌∷◌, String, str_eq, if◌then◌else◌, Option, none, some, inr, Memᴰ, ◌≡◌, ◌≤◌, ◌⊎◌, List,
  length, arith, map, true, false,
}
use open_machine_core.Prelude.Text.{text_append}
use open_machine_core.Auth.{AuthEnv, perm_admin}
use open_machine_core.Auth.Middleware.{
  Claims, Context, uuid_value, uuid_pointer, auth_middleware, require, token_of,
}
use open_machine_core.Auth.Tokens.{
  MachineToken, create_machine_token, delete_machine_token, update_machine_token,
  get_machine_token_by_hash,
}
use open_machine_core.Rest.Accounts.{
  Accounts, Request, deleting_machine_token, creating_machine_token, updating_machine_token,
  Outside, failure, create_token, delete_token, update_token, handle,
}
use open_machine_core.Rest.Accounts.Refusals.{handle_refused}
use open_machine_core.Rest.Accounts.Growth.{Arrival, arrive_all, length-arrive_all}
use open_machine_core.Rest.Routes.{
  Route, Handler, post, route, authenticating, requiring, routes, run_chain,
}
use open_machine_core.Rest.Access.{Meets, access_of, routes-Meets}

abbrev env : AuthEnv
env = record {
  verify_password = λ password hash. inr (str_eq password hash);
  generate_access_token = λ id name role. inr (text_append "jwt of " name);
  hash_token = λ t. text_append "hash of " t;
  refresh_ttl = 1000000;
}

abbrev validate_access_token : String → Option Claims
validate_access_token token =
    if str_eq token "jwt"
    then some (record { user_id = 1; username = "eve"; role = "admin" })
    else none

abbrev creation : Route
creation =
    route post "/api/v1/machine-tokens" (authenticating ∷ requiring perm_admin ∷ [])
      Handler.create_machine_token

routes-Meets_example :
    Meets env validate_access_token (access_of Handler.create_machine_token) 5 "Bearer jwt" []
unfolding routes run_chain auth_middleware require token_of
routes-Meets_example =
    routes-Meets env validate_access_token creation 5 "Bearer jwt" []
      (Memᴰ.tail (Memᴰ.tail (Memᴰ.tail (Memᴰ.tail (Memᴰ.tail (Memᴰ.head refl)))))) (_, refl)

abbrev badge : MachineToken
badge = record {
  id = 3;
  token_hash = "hash of omc_3";
  name = "press";
  permissions = "operator" ∷ [];
  last_used_at = none;
  created_by_user_id = none;
  metadata = none;
  logged = false;
}

abbrev accounts : Accounts
accounts = record { store = record { users = []; refresh_tokens = [] }; tokens = badge ∷ [] }

abbrev hashes : String → String ⊎ String
hashes password = inr password

abbrev eve : Context
eve = record {
  permissions = some (perm_admin ∷ []);
  user_id = some (uuid_value 1);
  username = some "eve";
  role = some "admin";
}

abbrev outside : Outside
outside = record {
  now = 5;
  random = inr "r";
  new_id = 9;
  uuid_text = "0123abcd-0123-0123-0123-0123456789ab";
  secret = some (171 ∷ []);
  fails = (false, true);
}

-- Token 7 cannot be deleted, as there is none.
unknown_refused :
    400 ≤ (handle env hashes outside eve (deleting_machine_token (some 7)) accounts).1.0
unfolding handle delete_token delete_machine_token
unknown_refused = omega arith

handle_refused_example :
    (handle env hashes outside eve (deleting_machine_token (some 7)) accounts).0 ≡ accounts
handle_refused_example =
    handle_refused env hashes outside eve (deleting_machine_token (some 7)) accounts tt
      unknown_refused

abbrev renaming : Request
renaming = updating_machine_token (some 3) (some (some "drill", some "{}"))

-- An update of both fields whose second statement fails is answered with 500, and the name has
-- changed.
half_updated :
    ((handle env hashes outside eve renaming accounts).1 ≡ (500, failure "TOKEN_500"))
    × (map (λ t. t.name) (handle env hashes outside eve renaming accounts).0.tokens ≡ "drill" ∷ [])
unfolding handle update_token update_machine_token
half_updated = (refl, refl)

abbrev pointing : Context
pointing = record eve { user_id = some (uuid_pointer none) }

-- A pointer in the context would let a token be created.
pointer_creates :
    (handle env hashes outside pointing
      (creating_machine_token (some ("lathe", [], none)))
      accounts).1.0
    ≡ 201
unfolding handle create_token create_machine_token get_machine_token_by_hash
pointer_creates = refl

abbrev arrivals : List Arrival
arrivals =
    record {
      chain = authenticating ∷ requiring perm_admin ∷ [];
      header = "Bearer jwt";
      outside = outside;
      request = creating_machine_token (some ("lathe", [], none));
    }
    ∷ record {
      chain = authenticating ∷ requiring perm_admin ∷ [];
      header = "Bearer jwt";
      outside = outside;
      request = deleting_machine_token (some 3);
    }
    ∷ []

length-arrive_all_example :
    length (arrive_all env hashes validate_access_token arrivals accounts).tokens
    ≤ length accounts.tokens
length-arrive_all_example = length-arrive_all env hashes validate_access_token arrivals accounts

-- Nothing is left.
arrive_all_tokens : (arrive_all env hashes validate_access_token arrivals accounts).tokens ≡ []
unfolding arrive_all run_chain auth_middleware require token_of handle create_token delete_token
    delete_machine_token
arrive_all_tokens = refl
