-- ===== src/Auth.antt =====
-- internal/auth/service.go and middleware.go, with the statements on users and refresh tokens of
-- internal/storage/auth.go: logging in, refreshing and revoking. The tables are lists in which a
-- statement finds the first row; the database answers each statement, and refuses a second refresh
-- token of the same hash, as its schema does. Times are nanoseconds, and `now` is the time of a call.
-- Of the audit log, it is known to which users and machine tokens its events refer: while there is
-- such an event, the schema refuses to delete the row.
pub mod Tables
pub mod Lockout
pub mod Refresh
pub mod Roles
pub mod Tokens
pub mod Users
pub mod Middleware
pub mod Races
use open_machine_core.Prelude.{
  ℕ, ◌+◌, ◌*◌, String, List, [], ◌∷◌, ◌++◌, Bool, true, false, not, Option, none, some, str_eq,
  if◌then◌else◌, ◌⊎◌, inl, inr, Uuid, ◌==◌, ltb, leb, map,
}

pub data Permission : Type 0 where
  perm_operator perm_technician perm_admin : Permission
  perm_other : String → Permission  -- of a machine token, any other text

pub record User : Type 0 where
  pub id : Uuid
  pub username : String
  pub password_hash : String
  pub role : String
  pub last_login_at : Option ℕ
  pub failed_login_attempts : ℕ
  pub locked_until : Option ℕ
  pub logged : Bool  -- an event of the audit log refers to the row

pub record RefreshToken : Type 0 where
  pub user_id : Uuid
  pub token_hash : String
  pub expires_at : ℕ
  pub revoked : Bool

pub record Store : Type 0 where
  pub users : List User
  pub refresh_tokens : List RefreshToken

pub data AuthError : Type 0 where
  invalid_credentials : AuthError
  account_locked : ℕ → AuthError
  access_token_failed : String → AuthError
  refresh_token_failed : String → AuthError
  store_failed : AuthError
  refresh_token_not_found refresh_token_revoked refresh_token_expired : AuthError
  user_not_found : AuthError

-- What the libraries do: argon2, JWT and sha256. An error is its text.
pub record AuthEnv : Type 0 where
  pub verify_password : String → String → String ⊎ Bool  -- the password and the stored hash
  pub generate_access_token : Uuid → String → String → String ⊎ String
  pub hash_token : String → String
  pub refresh_ttl : ℕ

abbrev pub lock_time : ℕ
lock_time = 15 * 60 * 1000000000

unfoldable pub role_to_permissions : String → List Permission
role_to_permissions role =
    if str_eq role "admin"
    then perm_operator ∷ perm_technician ∷ perm_admin ∷ []
    else if str_eq role "technician"
    then perm_operator ∷ perm_technician ∷ []
    else perm_operator ∷ []

abbrev pub same_permission : Permission → Permission → Bool
same_permission perm_operator perm_operator = true
same_permission perm_technician perm_technician = true
same_permission perm_admin perm_admin = true
same_permission (perm_other a) (perm_other b) = str_eq a b
same_permission _ _ = false

-- RequirePermission, for a request whose token gave these permissions
unfoldable pub require_permission : Permission → List Permission → Bool
require_permission required [] = false
require_permission required (p ∷ ps) =
    if same_permission p required then true else require_permission required ps

unfoldable pub get_user_by_username : String → List User → Option User
get_user_by_username name [] = none
get_user_by_username name (u ∷ us) =
    if str_eq u.username name then some u else get_user_by_username name us

unfoldable pub get_user_by_id : Uuid → List User → Option User
get_user_by_id id [] = none
get_user_by_id id (u ∷ us) = if u.id == id then some u else get_user_by_id id us

-- UPDATE users SET ... WHERE id = id
unfoldable pub update_user : Uuid → (User → User) → List User → List User
update_user id f users = map (λ u. if u.id == id then f u else u) users

-- with the event that is logged then
abbrev pub failed_once : ℕ → User → User
failed_once now u = record u {
  failed_login_attempts = u.failed_login_attempts + 1;
  logged = true;
  locked_until =
      if leb 5 (u.failed_login_attempts + 1) then some (now + lock_time) else u.locked_until;
}

unfoldable pub increment_failed_login_attempts : ℕ → Uuid → Store → Store
unfolding update_user
increment_failed_login_attempts now id s = record s {
  users = update_user id (λ u. failed_once now u) s.users;
}

unfoldable pub reset_failed_login_attempts : Uuid → Store → Store
unfolding update_user
reset_failed_login_attempts id s = record s {
  users = update_user id (λ u. record u { failed_login_attempts = 0; locked_until = none }) s.users;
}

-- with the event that is logged then
unfoldable pub update_last_login : ℕ → Uuid → Store → Store
unfolding update_user
update_last_login now id s = record s {
  users = update_user id (λ u. record u { last_login_at = some now; logged = true }) s.users;
}

unfoldable pub find_refresh_token : String → List RefreshToken → Option RefreshToken
find_refresh_token hash [] = none
find_refresh_token hash (t ∷ ts) =
    if str_eq t.token_hash hash then some t else find_refresh_token hash ts

abbrev pub stored_unless : Option RefreshToken → RefreshToken → Store → Option Store
stored_unless (some other) t s = none
stored_unless none t s = some (record s { refresh_tokens = s.refresh_tokens ++ t ∷ [] })

-- INSERT into a table whose hashes are unique
unfoldable pub store_refresh_token : Uuid → String → ℕ → Store → Option Store
unfolding find_refresh_token
store_refresh_token user_id hash expires_at s =
    stored_unless (find_refresh_token hash s.refresh_tokens)
      (record { user_id = user_id; token_hash = hash; expires_at = expires_at; revoked = false }) s

abbrev pub usable : ℕ → Option RefreshToken → AuthError ⊎ Uuid
usable now none = inl refresh_token_not_found
usable now (some t) =
    if t.revoked
    then inl refresh_token_revoked
    else if ltb t.expires_at now
    then inl refresh_token_expired
    else inr t.user_id

unfoldable pub get_refresh_token : ℕ → String → Store → AuthError ⊎ Uuid
unfolding find_refresh_token
get_refresh_token now hash s = usable now (find_refresh_token hash s.refresh_tokens)

unfoldable pub revoke_refresh_token : String → Store → Store
revoke_refresh_token hash s = record s {
  refresh_tokens =
      map (λ t. if str_eq t.token_hash hash then record t { revoked = true } else t)
        s.refresh_tokens;
}

abbrev pub Tokens : Type 0
Tokens = String × String

module _ (env : AuthEnv) where
  abbrev pub with_stored :
      String → String → Store → Option Store → (Store → Store) → Store × (AuthError ⊎ Tokens)
  with_stored access refresh s none finish = (s, inl store_failed)
  with_stored access refresh s (some s') finish = (finish s', inr (access, refresh))

  abbrev pub with_refresh :
      ℕ → User → String → String ⊎ String → Store → (Store → Store) → Store × (AuthError ⊎ Tokens)
  with_refresh now u access (inl e) s finish = (s, inl (refresh_token_failed e))
  with_refresh now u access (inr refresh) s finish =
      with_stored access refresh s
        (store_refresh_token u.id (env.hash_token refresh) (now + env.refresh_ttl) s) finish

  -- the new tokens of a user; `random` is what GenerateRefreshToken returns
  abbrev pub issue :
      ℕ
      → User
      → String ⊎ String
      → String ⊎ String
      → Store
      → (Store → Store)
      → Store × (AuthError ⊎ Tokens)
  issue now u (inl e) random s finish = (s, inl (access_token_failed e))
  issue now u (inr access) random s finish = with_refresh now u access random s finish

  abbrev pub verified :
      ℕ → User → String ⊎ Bool → String ⊎ String → Store → Store × (AuthError ⊎ Tokens)
  verified now u (inl e) random s =
      (increment_failed_login_attempts now u.id s, inl invalid_credentials)
  verified now u (inr false) random s =
      (increment_failed_login_attempts now u.id s, inl invalid_credentials)
  verified now u (inr true) random s =
      issue now u (env.generate_access_token u.id u.username u.role) random
        (reset_failed_login_attempts u.id s) (λ t. update_last_login now u.id t)

  abbrev pub unlocked :
      ℕ → User → Option ℕ → String → String ⊎ String → Store → Store × (AuthError ⊎ Tokens)
  unlocked now u none password random s =
      verified now u (env.verify_password password u.password_hash) random s
  unlocked now u (some until) password random s =
      let rest = verified now u (env.verify_password password u.password_hash) random s in
      if ltb now until then (s, inl (account_locked until)) else rest

  abbrev pub login_found :
      ℕ → Option User → String → String ⊎ String → Store → Store × (AuthError ⊎ Tokens)
  login_found now none password random s = (s, inl invalid_credentials)
  login_found now (some u) password random s = unlocked now u u.locked_until password random s

  unfoldable pub login_user :
      ℕ → String → String → String ⊎ String → Store → Store × (AuthError ⊎ Tokens)
  unfolding get_user_by_username increment_failed_login_attempts reset_failed_login_attempts
      update_last_login store_refresh_token
  login_user now username password random s =
      login_found now (get_user_by_username username s.users) password random s

  abbrev pub refresh_user :
      ℕ → String → Option User → String ⊎ String → Store → Store × (AuthError ⊎ Tokens)
  refresh_user now hash none random s = (s, inl user_not_found)
  refresh_user now hash (some u) random s =
      issue now u (env.generate_access_token u.id u.username u.role) random
        (revoke_refresh_token hash s) (λ t. t)

  abbrev pub refresh_found :
      ℕ → String → AuthError ⊎ Uuid → String ⊎ String → Store → Store × (AuthError ⊎ Tokens)
  refresh_found now hash (inl e) random s = (s, inl e)
  refresh_found now hash (inr id) random s =
      refresh_user now hash (get_user_by_id id s.users) random s

  unfoldable pub refresh_access_token :
      ℕ → String → String ⊎ String → Store → Store × (AuthError ⊎ Tokens)
  unfolding get_refresh_token get_user_by_id revoke_refresh_token store_refresh_token
  refresh_access_token now token random s =
      refresh_found now (env.hash_token token) (get_refresh_token now (env.hash_token token) s)
        random s

  -- the service's RevokeRefreshToken, at logout
  unfoldable pub logout : String → Store → Store
  unfolding revoke_refresh_token
  logout token s = revoke_refresh_token (env.hash_token token) s
