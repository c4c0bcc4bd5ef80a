-- ===== src/Auth/Middleware.antt =====
-- internal/auth/middleware.go: what a request has shown when it reaches its handler. JWT is an argument,
-- the claims of a token that it accepts.
use open_machine_core.Prelude.{
  ℕ, String, List, Option, none, some, str_eq, if◌then◌else◌, ◌⊎◌, inl, inr, Uuid, ◌==◌,
}
use Prim.Native.Char.{Char, code}
use open_machine_core.Auth.{Permission, AuthEnv, role_to_permissions, require_permission}
use open_machine_core.Auth.Tokens.{MachineToken, Checked, validate_machine_token}

pub record Claims : Type 0 where
  pub user_id : Uuid
  pub username : String
  pub role : String

-- a value of type any in gin's context, as an id: a uuid.UUID, or a *uuid.UUID, which may be nil
pub data UserValue : Type 0 where
  uuid_value : Uuid → UserValue
  uuid_pointer : Option Uuid → UserValue

-- what the middleware puts into gin's context
pub record Context : Type 0 where
  pub permissions : Option (List Permission)
  pub user_id : Option UserValue
  pub username : Option String
  pub role : Option String

abbrev pub empty_context : Context
empty_context = record { permissions = none; user_id = none; username = none; role = none }

pub data Refusal : Type 0 where
  missing_header invalid_header invalid_token : Refusal
  no_permissions insufficient_permissions : Refusal

-- c.Abort or c.Next
pub data Passed : Type 0 where
  aborted : Refusal → Passed
  passed : Context → Passed

-- 401 or 403
unfoldable pub status_of : Refusal → ℕ
status_of missing_header = 401
status_of invalid_header = 401
status_of invalid_token = 401
status_of no_permissions = 403
status_of insufficient_permissions = 403

-- strings.SplitN(s, " ", 2): the two parts, if there is a space
abbrev with_front : Char → Option (String × String) → Option (String × String)
with_front c none = none
with_front c (some (a, b)) = some (String.◌∷◌ c a, b)

unfoldable pub split_space : String → Option (String × String)
split_space String.[] = none
split_space (String.◌∷◌ c s) =
    let rest = with_front c (split_space s) in if code c == 32 then some ("", s) else rest

-- the token of a header
abbrev pub bearer : Option (String × String) → Refusal ⊎ String
bearer none = inl invalid_header
bearer (some (scheme, token)) = if str_eq scheme "Bearer" then inr token else inl invalid_header

unfoldable pub token_of : String → Refusal ⊎ String
unfolding split_space
token_of header = if str_eq header "" then inl missing_header else bearer (split_space header)

abbrev pub with_checked : Context → Checked → List MachineToken × Passed
with_checked context (tokens, inl e) = (tokens, aborted invalid_token)
with_checked context (tokens, inr permissions) =
    (tokens, passed (record context { permissions = some permissions }))

abbrev pub permitted : Permission → Option (List Permission) → Context → Passed
permitted required none context = aborted no_permissions
permitted required (some permissions) context =
    if require_permission required permissions
    then passed context
    else aborted insufficient_permissions

unfoldable pub require : Permission → Context → Passed
unfolding require_permission
require required context = permitted required context.permissions context

module _ (env : AuthEnv) (validate_access_token : String → Option Claims) where
  abbrev pub with_claims :
      ℕ → String → Option Claims → Context → List MachineToken → List MachineToken × Passed
  with_claims now token (some claims) context tokens = (
    tokens,
    passed (record {
      permissions = some (role_to_permissions claims.role);
      user_id = some (uuid_value claims.user_id);
      username = some claims.username;
      role = some claims.role;
    }),
  )
  with_claims now token none context tokens =
      with_checked context (validate_machine_token env now token tokens)

  abbrev pub with_token :
      ℕ → Refusal ⊎ String → Context → List MachineToken → List MachineToken × Passed
  with_token now (inl refusal) context tokens = (tokens, aborted refusal)
  with_token now (inr token) context tokens =
      with_claims now token (validate_access_token token) context tokens

  unfoldable pub auth_middleware :
      ℕ → String → Context → List MachineToken → List MachineToken × Passed
  unfolding token_of role_to_permissions validate_machine_token
  auth_middleware now header context tokens = with_token now (token_of header) context tokens

  -- ValidateToken, of the WebSocket's handshake
  abbrev pub by_claims : ℕ → String → Option Claims → List MachineToken → Checked
  by_claims now token (some claims) tokens = (tokens, inr (role_to_permissions claims.role))
  by_claims now token none tokens = validate_machine_token env now token tokens

  unfoldable pub validate_token : ℕ → String → List MachineToken → Checked
  unfolding role_to_permissions validate_machine_token
  validate_token now token tokens = by_claims now token (validate_access_token token) tokens
