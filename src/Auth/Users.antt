-- ===== src/Auth/Users.antt =====
-- internal/auth/service.go and the statements of internal/storage/auth.go: the administration of
-- users. The hash of a password, or the text of an error, is an argument; the id of a new row is too.
-- The schema has unique names and two roles. Deleting a user deletes its refresh tokens, and is
-- refused while an event of the audit log or a machine token refers to it.
pub mod Creation
use open_machine_core.Prelude.{
  ℕ, String, List, [], ◌∷◌, ◌++◌, Bool, true, false, ◌||◌, ◌&&◌, Option, none, some, str_eq,
  if◌then◌else◌, ◌⊎◌, inl, inr, Uuid, ◌==◌, length,
}
use open_machine_core.Auth.Tokens.{MachineToken}
use open_machine_core.Auth.{
  User, RefreshToken, Store, get_user_by_username, get_user_by_id, update_user,
}

pub data UserError : Type 0 where
  hash_failed : String → UserError
  insert_refused no_rows not_found still_referenced statement_failed : UserError

abbrev pub role_allowed : String → Bool
role_allowed role = str_eq role "technician" || str_eq role "admin"

abbrev pub new_user : Uuid → String → String → String → User
new_user id username password_hash role = record {
  id = id;
  username = username;
  password_hash = password_hash;
  role = role;
  last_login_at = none;
  failed_login_attempts = 0;
  locked_until = none;
  logged = false;
}

-- INSERT INTO users
abbrev pub inserted : Option User → User → Store → Store × (UserError ⊎ User)
inserted (some other) u s = (s, inl insert_refused)
inserted none u s =
    if role_allowed u.role
    then (record s { users = s.users ++ u ∷ [] }, inr u)
    else (s, inl insert_refused)

unfoldable pub insert_user : Uuid → String → String → String → Store → Store × (UserError ⊎ User)
unfolding get_user_by_username
insert_user id username password_hash role s =
    inserted (get_user_by_username username s.users) (new_user id username password_hash role) s

-- CreateUser of the service
unfoldable pub create_user :
    String ⊎ String → Uuid → String → String → Store → Store × (UserError ⊎ User)
unfolding insert_user
create_user (inl e) id username role s = (s, inl (hash_failed e))
create_user (inr hash) id username role s = insert_user id username hash role s

unfoldable pub update_user_password : Uuid → String → Store → Store
unfolding update_user
update_user_password id password_hash s = record s {
  users = update_user id (λ u. record u { password_hash = password_hash }) s.users;
}

abbrev pub Updated : Type 0
Updated = Store × (UserError ⊎ Unit {0})

abbrev pub role_refused : Option User → Store → Updated
role_refused none s = (s, inr tt)
role_refused (some u) s = (s, inl insert_refused)

-- A role that the schema refuses is an error if there is such a user.
unfoldable pub update_user_role : Uuid → String → Store → Updated
unfolding update_user get_user_by_id
update_user_role id role s =
    if role_allowed role
    then (record s { users = update_user id (λ u. record u { role = role }) s.users }, inr tt)
    else role_refused (get_user_by_id id s.users) s

abbrev pub with_role : Bool → Uuid → Option String → Store → Updated
unfolding update_user_role
with_role fails id none s = (s, inr tt)
with_role fails id (some role) s =
    if fails then (s, inl statement_failed) else update_user_role id role s

-- UpdateUser of the service: first the password, then the role, in two statements, each of which
-- may fail
unfoldable pub update_user_details :
    Bool × Bool → Uuid → Option (String ⊎ String) → Option String → Store → Updated
unfolding update_user_password update_user_role
update_user_details fails id none role s = with_role fails.1 id role s
update_user_details fails id (some (inl e)) role s = (s, inl (hash_failed e))
update_user_details fails id (some (inr hash)) role s =
    if fails.0
    then (s, inl statement_failed)
    else with_role fails.1 id role (update_user_password id hash s)

abbrev pub users_without : Uuid → List User → List User
users_without id [] = []
users_without id (u ∷ us) = let rest = users_without id us in if u.id == id then rest else u ∷ rest

abbrev pub tokens_without : Uuid → List RefreshToken → List RefreshToken
tokens_without id [] = []
tokens_without id (t ∷ ts) =
    let rest = tokens_without id ts in if t.user_id == id then rest else t ∷ rest

abbrev pub user_logged : Uuid → List User → Bool
user_logged id [] = false
user_logged id (u ∷ us) = (u.id == id && u.logged) || user_logged id us

abbrev pub is_creator : Uuid → List MachineToken → Bool
is_creator id [] = false
is_creator id (t ∷ ts) = is_by id t.created_by_user_id || is_creator id ts
  where
    is_by : Uuid → Option Uuid → Bool
    is_by id none = false
    is_by id (some creator) = creator == id

unfoldable pub delete_user : Uuid → List MachineToken → Store → Updated
delete_user id tokens s =
    let users = users_without id s.users in
    if user_logged id s.users || is_creator id tokens
    then (s, inl still_referenced)
    else if length users == length s.users
    then (s, inl no_rows)
    else (record { users = users; refresh_tokens = tokens_without id s.refresh_tokens }, inr tt)
