-- ===== src/Examples/Auth.antt =====
-- Logging in and refreshing at concrete values.
use open_machine_core.Prelude.{
  ℕ, map, replicate, eq_iff, false, ◌+◌, ◌≡◌, refl, List, [], ◌∷◌, none, some, String, str_eq, inl,
  inr, arith,
}
use open_machine_core.Prelude.Text.{text_append}
use open_machine_core.Auth.Tokens.{
  MachineToken, machine_token_prefix, hex, permission_of, still_referenced, create_machine_token,
  validate_machine_token, delete_machine_token, get_machine_token_by_hash,
}
use open_machine_core.Auth.Tokens.Creation.{validate_machine_token-create_machine_token}
use open_machine_core.Auth.Users.{create_user, new_user}
use open_machine_core.Auth.Users.Creation.{login_user-create_user}
use open_machine_core.Auth.Races.{refresh_user-refresh_access_token}
use open_machine_core.Auth.{
  refresh_user, find_refresh_token, get_refresh_token, get_user_by_id, User, Store, AuthEnv,
  account_locked, refresh_token_revoked, lock_time, login_user, refresh_access_token,
  get_user_by_username,
}
use open_machine_core.Auth.Lockout.{login_all, login_user-login_all}
use open_machine_core.Auth.Refresh.{
  log_in, log_out, run_operations, refresh_access_token-run_operations,
}

-- The stored hash is the password, and a token's hash is marked.
abbrev env : AuthEnv
env = record {
  verify_password = λ password hash. inr (str_eq password hash);
  generate_access_token = λ id name role. inr (text_append "jwt of " name);
  hash_token = λ t. text_append "hash of " t;
  refresh_ttl = 1000000;
}

abbrev ann : User
ann = record {
  id = 1;
  username = "ann";
  password_hash = "secret";
  role = "technician";
  last_login_at = none;
  failed_login_attempts = 0;
  locked_until = none;
  logged = false;
}

abbrev store : Store
store = record { users = ann ∷ []; refresh_tokens = [] }

abbrev four : List (ℕ × String)
four = (10, "a") ∷ (20, "b") ∷ (30, "c") ∷ (40, "d") ∷ []

found : get_user_by_username "ann" store.users ≡ some ann
unfolding get_user_by_username
found = refl

abbrev fifth_tried : Store
fifth_tried = (login_user env 50 "ann" "e" (inr "t") (login_all env "ann" (inr "t") four store)).0

login_user-login_all_example :
    login_user env 60 "ann" "secret" (inr "t") fifth_tried
    ≡ (fifth_tried, inl (account_locked (50 + lock_time)))
login_user-login_all_example =
    login_user-login_all env "ann" (inr "t") four 50 60 "e" "secret" ann store found refl refl refl
      ((λ h. cc), ((λ h. cc), ((λ h. cc), ((λ h. cc), tt)))) (λ h. cc) (omega arith)

abbrev logged_in : Store
logged_in = (login_user env 100 "ann" "secret" (inr "r1") store).0

accepted : (refresh_access_token env 200 "r1" (inr "r2") logged_in).1 ≡ inr ("jwt of ann", "r2")
unfolding login_user refresh_access_token
accepted = refl

abbrev refreshed : Store
refreshed =
    run_operations env (log_in 300 "ann" "secret" (inr "r3") ∷ log_out "r3" ∷ [])
      (refresh_access_token env 200 "r1" (inr "r2") logged_in).0

refresh_access_token-run_operations_example :
    refresh_access_token env 400 "r1" (inr "r4") refreshed ≡ (refreshed, inl refresh_token_revoked)
refresh_access_token-run_operations_example =
    refresh_access_token-run_operations env 200 400 "r1" (inr "r2") (inr "r4") logged_in
      ("jwt of ann", "r2") (log_in 300 "ann" "secret" (inr "r3") ∷ log_out "r3" ∷ []) accepted

abbrev uuid_text : String
uuid_text = "0123abcd-0123-0123-0123-0123456789ab"

abbrev secret : List ℕ
secret = replicate 32 171

abbrev token : String
token = text_append machine_token_prefix (text_append uuid_text (text_append "_" (hex secret)))

abbrev tokens : List MachineToken
tokens =
    (create_machine_token env uuid_text (some secret) 8 "hmi" ("operator" ∷ []) none none [] []).0

token_created :
    (create_machine_token env uuid_text (some secret) 8 "hmi" ("operator" ∷ []) none none [] []).1
    ≡ inr (token, 8)
unfolding create_machine_token get_machine_token_by_hash
token_created = refl

abbrev one_login : Store
one_login = record {
  users = ann ∷ [];
  refresh_tokens =
      record { user_id = 1; token_hash = "hash of r1"; expires_at = 1000; revoked = false } ∷ [];
}

validate_machine_token-create_machine_token_example :
    ((validate_machine_token env 1 token tokens).1 ≡ inr (map permission_of ("operator" ∷ [])))
    × (delete_machine_token 8 tokens ≡ (tokens, inl still_referenced))
validate_machine_token-create_machine_token_example =
    validate_machine_token-create_machine_token env 1 uuid_text secret 8 "hmi" ("operator" ∷ [])
      none none [] [] refl refl token_created

bob_created :
    (create_user (inr "pass") 2 "bob" "admin" store).1 ≡ inr (new_user 2 "bob" "pass" "admin")
unfolding create_user get_user_by_username
bob_created = refl

login_user-create_user_example :
    (login_user env 9 "bob" "pass" (inr "r") (create_user (inr "pass") 2 "bob" "admin" store).0).1
    ≡ inr ("jwt of bob", "r")
unfolding find_refresh_token
login_user-create_user_example =
    login_user-create_user env 9 "pass" 2 "bob" "pass" "admin" "jwt of bob" "r" store bob_created
      refl refl refl

refresh_user-refresh_access_token_example :
    ((refresh_access_token env 200 "r1" (inr "r2") one_login).1 ≡ inr ("jwt of ann", "r2"))
    × ((refresh_user env 200
          (env.hash_token "r1")
          (some ann)
          (inr "r3")
          (refresh_access_token env 200 "r1" (inr "r2") one_login).0).1
        ≡ inr ("jwt of ann", "r3"))
unfolding get_refresh_token get_user_by_id find_refresh_token
refresh_user-refresh_access_token_example =
    refresh_user-refresh_access_token env 200 "r1" "jwt of ann" "r2" "r3" 1 ann one_login refl refl
      refl refl refl (λ e. cc ((eq_iff "hash of r2" "hash of r3").1 e))
