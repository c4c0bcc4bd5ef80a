-- ===== src/Auth/Users/Creation.antt =====
-- service.go: a user who was created can log in.
use open_machine_core.Prelude.{
  ℕ, ◌+◌, String, List, [], ◌∷◌, ◌++◌, ◌≡◌, refl, ap, ◌∙◌, true, false, Option, none, some, eq_iff,
  inr, Uuid, arith,
}
use open_machine_core.Auth.{
  User, Store, AuthEnv, get_user_by_username, login_user, login_found, unlocked, verified, issue,
  with_stored, stored_unless, find_refresh_token, store_refresh_token, reset_failed_login_attempts,
  update_last_login,
}
use open_machine_core.Auth.Users.{new_user, inserted, insert_user, create_user}

get_user_by_username-append :
    (u : User) (users : List User)
    → get_user_by_username u.username users ≡ none
    → get_user_by_username u.username (users ++ u ∷ []) ≡ some u
unfolding get_user_by_username
get_user_by_username-append u [] h = ground (arith, eq_iff u.username u.username)
get_user_by_username-append u (x ∷ users) h = ground (arith, get_user_by_username-append u users, h)

-- What a successful insertion has done.
inserted_lem :
    (found : Option User) (u : User) (s : Store) {v : User}
    → (inserted found u s).1 ≡ inr v
    → (found ≡ none) × ((inserted found u s).0 ≡ record s { users = s.users ++ u ∷ [] })
inserted_lem (some other) u s h = cc
inserted_lem none u s h = (refl, ground (arith, h))

module _ (env : AuthEnv) where
  -- The login of a user who is found, not locked, and gives the right password.
  login_lem :
      (now : ℕ) (u : User) (password access refresh : String) (s : Store)
      → get_user_by_username u.username s.users ≡ some u
      → u.locked_until ≡ none
      → env.verify_password password u.password_hash ≡ inr true
      → env.generate_access_token u.id u.username u.role ≡ inr access
      → find_refresh_token (env.hash_token refresh) s.refresh_tokens ≡ none
      → (login_user env now u.username password (inr refresh) s).1 ≡ inr (access, refresh)
  unfolding login_user reset_failed_login_attempts store_refresh_token
  login_lem now u password access refresh s found open_account right token new =
      ap (λ o. (login_found env now o password (inr refresh) s).1) found
      ∙ ap (λ o. (unlocked env now u o password (inr refresh) s).1) open_account
      ∙ ap (λ o. (verified env now u o (inr refresh) s).1) right
      ∙ ap
          (λ o.
            (issue env now u o (inr refresh) (reset_failed_login_attempts u.id s)
              (λ t. update_last_login now u.id t)).1)
          token
      ∙ ap
          (λ o.
            (with_stored env access refresh (reset_failed_login_attempts u.id s)
              (stored_unless o
                (record {
                  user_id = u.id;
                  token_hash = env.hash_token refresh;
                  expires_at = now + env.refresh_ttl;
                  revoked = false;
                })
                (reset_failed_login_attempts u.id s))
              (λ t. update_last_login now u.id t)).1)
          new

  -- A user who was created logs in with the password whose hash was stored, and gets the access
  -- token and the refresh token, when the password verifies against that hash, an access token
  -- can be made and the refresh token is a new one.
  pub login_user-create_user :
      (now : ℕ) (hash : String) (id : Uuid) (username password role access refresh : String)
      (s : Store) {u : User}
      → (create_user (inr hash) id username role s).1 ≡ inr u
      → env.verify_password password hash ≡ inr true
      → env.generate_access_token id username role ≡ inr access
      → find_refresh_token (env.hash_token refresh) s.refresh_tokens ≡ none
      → (login_user env now username password
          (inr refresh)
          (create_user (inr hash) id username role s).0).1
        ≡ inr (access, refresh)
  unfolding create_user insert_user
  login_user-create_user now hash id username password role access refresh s h right token new =
      let u : User = new_user id username hash role in
      let (missing, after) = inserted_lem (get_user_by_username username s.users) u s h in
      ap (λ t. (login_user env now username password (inr refresh) t).1) after
      ∙ login_lem now u password access refresh (record s { users = s.users ++ u ∷ [] })
          (get_user_by_username-append u s.users missing) refl right token new
