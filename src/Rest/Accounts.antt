-- ===== src/Rest/Accounts.antt =====
-- internal/api/rest/auth.go: the handlers of logins, machine tokens and users, from a request whose
-- body is decoded, or is not JSON of its type, to the status and the body of the answer. The
-- database may fail each statement of a handler other than those that issue tokens, where it answers;
-- what it refuses is part of the statements' models.
pub mod Refusals
pub mod Growth
use Prim.Native.String.{len}
use open_machine_core.Prelude.{
  ℕ, String, List, [], ◌∷◌, Bool, true, ◌||◌, ◌&&◌, not, Option, none, some, str_eq, leb,
  if◌then◌else◌, ◌⊎◌, inl, inr, Uuid,
}
use open_machine_core.Auth.{
  Permission, User, Store, AuthEnv, AuthError, Tokens, get_user_by_id, login_user,
  refresh_access_token, logout,
}
use open_machine_core.Auth.Tokens.{
  MachineToken, TokenError, create_machine_token, delete_machine_token, update_machine_token,
}
use open_machine_core.Auth.Users.{UserError, create_user, update_user_details, delete_user}
use open_machine_core.Auth.Middleware.{UserValue, uuid_value, uuid_pointer, Context}

pub record Accounts : Type 0 where
  pub store : Store
  pub tokens : List MachineToken

-- A body is `none` when it is not JSON of the request's type, an id when it is not a uuid.
pub data Request : Type 0 where
  logging_in : Option (String × String) → Request
  refreshing logging_out : Option String → Request
  getting_current_user listing_machine_tokens listing_users : Request
  creating_machine_token : Option (String × List String × Option String) → Request
  deleting_machine_token deleting_user : Option Uuid → Request
  updating_machine_token : Option Uuid → Option (Option String × Option String) → Request
  creating_user : Option (String × String × String) → Request
  updating_user : Option Uuid → Option (Option String × Option String) → Request

pub data Body : Type 0 where
  failure message : String → Body
  nothing : Body  -- of gin's recovery
  tokens_body : Tokens → Body
  current_user_body : User → Option (List Permission) → Body
  created_token_body : String → Uuid → String → List String → Option String → Body
  user_body : User → Body
  users_body : List User → Body
  machine_tokens_body : List MachineToken → Body

-- What a handler finds: the time, the next refresh token and id, what a new machine token is made
-- of, and whether the database fails its first and its second statement.
pub record Outside : Type 0 where
  pub now : ℕ
  pub random : String ⊎ String
  pub new_id : Uuid
  pub uuid_text : String
  pub secret : Option (List ℕ)
  pub fails : Bool × Bool

abbrev pub Answered : Type 0
Answered = Accounts × (ℕ × Body)

-- the tags `required`, `min=8` and `oneof` of a binding
abbrev pub required : String → Bool
required s = not (str_eq s "")

abbrev pub long_enough : String → Bool
long_enough s = leb 8 (len s)

abbrev pub one_of_roles : String → Bool
one_of_roles s = str_eq s "technician" || str_eq s "admin"

abbrev pub omitempty : (String → Bool) → Option String → Bool
omitempty check none = true
omitempty check (some s) = check s

abbrev pub refused : ℕ → String → Accounts → Answered
refused status code a = (a, (status, failure code))

abbrev pub with_store : Accounts → Store → Accounts
with_store a s = record a { store = s }

abbrev pub got_tokens : Accounts → Store × (AuthError ⊎ Tokens) → Answered
got_tokens a (s, inl e) = refused 401 "AUTH_401" (with_store a s)
got_tokens a (s, inr tokens) = (with_store a s, (200, tokens_body tokens))

abbrev pub got_current_user : Accounts → Context → Option User → Answered
got_current_user a c none = refused 404 "USER_404" a
got_current_user a c (some u) = (a, (200, current_user_body u c.permissions))

-- `userID.(uuid.UUID)`, whose panic gin's recovery answers; any error of the query is answered as
-- no user.
abbrev pub current_user : Bool → Accounts → Context → Option UserValue → Answered
current_user fails a c none = refused 401 "AUTH_401" a
current_user fails a c (some (uuid_pointer id)) = (a, (500, nothing))
current_user fails a c (some (uuid_value id)) =
    got_current_user a c (if fails then none else get_user_by_id id a.store.users)

unfoldable pub get_current_user : Bool → Context → Accounts → Answered
unfolding get_user_by_id
get_current_user fails c a = current_user fails a c c.user_id

abbrev pub unless_failed : Bool → String → Accounts → Answered → Answered
unless_failed fails code a answered = if fails then refused 500 code a else answered

abbrev pub default_permissions : List String → List String
default_permissions [] = "operator" ∷ []
default_permissions (p ∷ ps) = p ∷ ps

-- `userID.(*uuid.UUID)`, which panics on nothing and on a value that is no pointer
abbrev pub asserted_pointer : Option UserValue → Option (Option Uuid)
asserted_pointer none = none
asserted_pointer (some (uuid_value id)) = none
asserted_pointer (some (uuid_pointer id)) = some id

abbrev pub created_token :
    Accounts
    → String
    → List String
    → Option String
    → List MachineToken × (TokenError ⊎ (String × Uuid))
    → Answered
created_token a name permissions metadata (ts, inl e) =
    refused 500 "TOKEN_500" (record a { tokens = ts })
created_token a name permissions metadata (ts, inr (token, id)) =
    (record a { tokens = ts }, (201, created_token_body token id name permissions metadata))

abbrev pub deleted_machine_token : Accounts → List MachineToken × (TokenError ⊎ Unit {0}) → Answered
deleted_machine_token a (ts, inl e) = refused 500 "TOKEN_500" (record a { tokens = ts })
deleted_machine_token a (ts, inr u) = (record a { tokens = ts }, (200, message "token deleted"))

unfoldable pub delete_token : Bool → Option Uuid → Accounts → Answered
unfolding delete_machine_token
delete_token fails none a = refused 400 "TOKEN_400" a
delete_token fails (some id) a =
    unless_failed fails "TOKEN_500" a (deleted_machine_token a (delete_machine_token id a.tokens))

abbrev pub updated_machine_token : Accounts → List MachineToken × (TokenError ⊎ Unit {0}) → Answered
updated_machine_token a (ts, inl e) = refused 500 "TOKEN_500" (record a { tokens = ts })
updated_machine_token a (ts, inr u) = (record a { tokens = ts }, (200, message "token updated"))

unfoldable pub update_token :
    Bool × Bool → Option Uuid → Option (Option String × Option String) → Accounts → Answered
unfolding update_machine_token
update_token fails none body a = refused 400 "TOKEN_400" a
update_token fails (some id) none a = refused 400 "TOKEN_400" a
update_token fails (some id) (some (name, metadata)) a =
    updated_machine_token a (update_machine_token fails id name metadata a.tokens)

abbrev pub created_user : Accounts → Store × (UserError ⊎ User) → Answered
created_user a (s, inl e) = refused 500 "USER_500" (with_store a s)
created_user a (s, inr u) = (with_store a s, (201, user_body u))

abbrev pub changed_user : Accounts → String → Store × (UserError ⊎ Unit {0}) → Answered
changed_user a done (s, inl e) = refused 500 "USER_500" (with_store a s)
changed_user a done (s, inr u) = (with_store a s, (200, message done))

abbrev pub hashed : (String → String ⊎ String) → Option String → Option (String ⊎ String)
hashed hash none = none
hashed hash (some password) = some (hash password)

unfoldable pub delete_user_request : Bool → Option Uuid → Accounts → Answered
unfolding delete_user
delete_user_request fails none a = refused 400 "USER_400" a
delete_user_request fails (some id) a =
    unless_failed fails "USER_500" a
      (changed_user a "user deleted" (delete_user id a.tokens a.store))

-- `hash` is HashPassword, an error being a text.
module _ (env : AuthEnv) (hash : String → String ⊎ String) where
  unfoldable pub login : ℕ → String ⊎ String → Option (String × String) → Accounts → Answered
  unfolding login_user
  login now random none a = refused 400 "AUTH_400" a
  login now random (some (username, password)) a =
      if required username && required password
      then got_tokens a (login_user env now username password random a.store)
      else refused 400 "AUTH_400" a

  unfoldable pub refresh_token : ℕ → String ⊎ String → Option String → Accounts → Answered
  unfolding refresh_access_token
  refresh_token now random none a = refused 400 "AUTH_400" a
  refresh_token now random (some token) a =
      if required token
      then got_tokens a (refresh_access_token env now token random a.store)
      else refused 400 "AUTH_400" a

  unfoldable pub logout_user : Bool → Option String → Accounts → Answered
  unfolding logout
  logout_user fails none a = refused 400 "AUTH_400" a
  logout_user fails (some token) a =
      if required token
      then unless_failed fails "AUTH_500" a
          (with_store a (logout env token a.store), (200, message "logged out successfully"))
      else refused 400 "AUTH_400" a

  abbrev pub asserted :
      Outside → String → List String → Option String → Option (Option Uuid) → Accounts → Answered
  unfolding create_machine_token
  asserted o name permissions metadata none a = (a, (500, nothing))
  asserted o name permissions metadata (some created_by) a = unless_failed o.fails.0 "TOKEN_500" a (
      created_token a name permissions metadata (
        create_machine_token env o.uuid_text o.secret o.new_id name permissions created_by metadata
          a.store.users a.tokens))

  unfoldable pub create_token :
      Outside → Context → Option (String × List String × Option String) → Accounts → Answered
  unfolding create_machine_token
  create_token o c none a = refused 400 "TOKEN_400" a
  create_token o c (some (name, permissions, metadata)) a =
      if required name
      then asserted o name (default_permissions permissions) metadata (asserted_pointer c.user_id) a
      else refused 400 "TOKEN_400" a

  unfoldable pub create_user_request :
      Bool → Uuid → Option (String × String × String) → Accounts → Answered
  unfolding create_user
  create_user_request fails id none a = refused 400 "USER_400" a
  create_user_request fails id (some (username, password, role)) a =
      if required username
        && (required password && long_enough password)
        && (required role && one_of_roles role)
      then unless_failed fails "USER_500" a
          (created_user a (create_user (hash password) id username role a.store))
      else refused 400 "USER_400" a

  unfoldable pub update_user_request :
      Bool × Bool → Option Uuid → Option (Option String × Option String) → Accounts → Answered
  unfolding update_user_details
  update_user_request fails none body a = refused 400 "USER_400" a
  update_user_request fails (some id) none a = refused 400 "USER_400" a
  update_user_request fails (some id) (some (password, role)) a =
      if omitempty long_enough password && omitempty one_of_roles role
      then changed_user a "user updated"
          (update_user_details fails id (hashed hash password) role a.store)
      else refused 400 "USER_400" a

  -- The handler of a request that its middleware passed with this context.
  unfoldable pub handle : Outside → Context → Request → Accounts → Answered
  unfolding login refresh_token logout_user get_current_user create_token delete_token update_token
      create_user_request update_user_request delete_user_request
  handle o c (logging_in body) a = login o.now o.random body a
  handle o c (refreshing body) a = refresh_token o.now o.random body a
  handle o c (logging_out body) a = logout_user o.fails.0 body a
  handle o c getting_current_user a = get_current_user o.fails.0 c a
  handle o c listing_machine_tokens a =
      unless_failed o.fails.0 "TOKEN_500" a (a, (200, machine_tokens_body a.tokens))
  handle o c listing_users a =
      unless_failed o.fails.0 "USER_500" a (a, (200, users_body a.store.users))
  handle o c (creating_machine_token body) a = create_token o c body a
  handle o c (deleting_machine_token token_id) a = delete_token o.fails.0 token_id a
  handle o c (updating_machine_token token_id body) a = update_token o.fails token_id body a
  handle o c (creating_user body) a = create_user_request o.fails.0 o.new_id body a
  handle o c (updating_user user_id body) a = update_user_request o.fails user_id body a
  handle o c (deleting_user user_id) a = delete_user_request o.fails.0 user_id a
