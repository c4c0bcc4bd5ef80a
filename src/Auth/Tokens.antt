-- ===== src/Auth/Tokens.antt =====
-- internal/auth/machine_token.go, service.go and the statements on machine tokens of
-- internal/storage/auth.go. sha256 is `hash_token` of `AuthEnv`; the bytes that `rand.Read` gives and
-- the text of a new uuid are arguments. Creating a token and accepting one log events that refer to
-- it. A text is measured in its bytes, as Go does.
pub mod Format
pub mod Creation
use open_machine_core.Prelude.{
  ℕ, zero, suc, ◌+◌, ◌*◌, ◌/◌, ◌%◌, String, List, [], ◌∷◌, ◌++◌, Bool, true, false, not, Option,
  none, some, str_eq, if◌then◌else◌, ◌⊎◌, inl, inr, Uuid, ◌==◌, ltb, map, length, get_or, ◌||◌,
  ◌&&◌,
}
use Prim.Native.String.{len}
use text.Mathlib.Text.{starts_with}
use open_machine_core.Prelude.Text.{text_append}
use open_machine_core.Auth.{
  Permission, perm_operator, perm_technician, perm_admin, perm_other, AuthEnv, User, get_user_by_id,
}

pub record MachineToken : Type 0 where
  pub id : Uuid
  pub token_hash : String
  pub name : String
  pub permissions : List String
  pub last_used_at : Option ℕ
  pub created_by_user_id : Option Uuid
  pub metadata : Option String
  pub logged : Bool  -- an event of the audit log refers to the row

abbrev pub machine_token_prefix : String
machine_token_prefix = "omc_"

unfoldable pub validate_token_format : String → Bool
validate_token_format token =
    if ltb (len token) (4 + 36 + 1 + 64)
    then false
    else if not (starts_with token machine_token_prefix)
    then false
    else true

abbrev pub hex_digits : List String
hex_digits =
    "0" ∷ "1" ∷ "2" ∷ "3" ∷ "4" ∷ "5" ∷ "6" ∷ "7" ∷ "8" ∷ "9" ∷ "a" ∷ "b" ∷ "c" ∷ "d" ∷ "e" ∷ "f"
    ∷ []

abbrev pub hex_digit : ℕ → String
hex_digit n = get_or hex_digits n "f"

-- hex.EncodeToString
unfoldable pub hex : List ℕ → String
hex [] = ""
hex (b ∷ bs) = text_append (hex_digit (b / 16)) (text_append (hex_digit (b % 16)) (hex bs))

-- the token, from a uuid's text and what `rand.Read` gives, if it does not fail
unfoldable pub generate_machine_token : String → Option (List ℕ) → Option String
unfolding hex
generate_machine_token id none = none
generate_machine_token id (some secret) =
    some (text_append machine_token_prefix (text_append id (text_append "_" (hex secret))))

pub data TokenError : Type 0 where
  invalid_token_format invalid_token : TokenError
  generate_failed store_token_failed : TokenError
  no_rows still_referenced statement_failed : TokenError

unfoldable pub get_machine_token_by_hash : String → List MachineToken → Option MachineToken
get_machine_token_by_hash hash [] = none
get_machine_token_by_hash hash (t ∷ ts) =
    if str_eq t.token_hash hash then some t else get_machine_token_by_hash hash ts

-- UPDATE machine_tokens SET ... WHERE id = id
abbrev pub update_tokens :
    Uuid → (MachineToken → MachineToken) → List MachineToken → List MachineToken
update_tokens id f tokens = map (λ t. if t.id == id then f t else t) tokens

unfoldable pub update_machine_token_last_used : ℕ → Uuid → List MachineToken → List MachineToken
update_machine_token_last_used now id tokens =
    update_tokens id (λ t. record t { last_used_at = some now }) tokens

-- LogAuthEvent of an event of a machine token
abbrev pub log_token : Uuid → List MachineToken → List MachineToken
log_token id tokens = update_tokens id (λ t. record t { logged = true }) tokens

-- Permission(p)
unfoldable pub permission_of : String → Permission
permission_of p =
    if str_eq p "operator"
    then perm_operator
    else if str_eq p "technician"
    then perm_technician
    else if str_eq p "admin"
    then perm_admin
    else perm_other p

abbrev pub Checked : Type 0
Checked = List MachineToken × (TokenError ⊎ List Permission)

abbrev pub with_machine_token : ℕ → Option MachineToken → List MachineToken → Checked
with_machine_token now none tokens = (tokens, inl invalid_token)
with_machine_token now (some t) tokens = (
  log_token t.id (update_machine_token_last_used now t.id tokens),
  inr (map permission_of t.permissions),
)

-- the reference of `created_by_user_id` to the users
abbrev pub creator_found : Option Uuid → List User → Bool
unfolding get_user_by_id
creator_found none users = true
creator_found (some id) users = is_there (get_user_by_id id users)
  where
    is_there : Option User → Bool
    is_there none = false
    is_there (some u) = true

-- Creating one; the database answers with the row's id, or refuses a hash that is there and a
-- creator that is not.
abbrev pub stored :
    Bool → Option MachineToken → MachineToken → List MachineToken → Option (List MachineToken)
stored creator (some other) t tokens = none
stored true none t tokens = some (tokens ++ t ∷ [])
stored false none t tokens = none

abbrev pub Changed : Type 0
Changed = List MachineToken × (TokenError ⊎ Unit {0})

abbrev pub without : Uuid → List MachineToken → List MachineToken
without id [] = []
without id (t ∷ ts) = let rest = without id ts in if t.id == id then rest else t ∷ rest

abbrev pub token_logged : Uuid → List MachineToken → Bool
token_logged id [] = false
token_logged id (t ∷ ts) = (t.id == id && t.logged) || token_logged id ts

-- DeleteMachineToken: an error when no row was deleted, or an event refers to the row
unfoldable pub delete_machine_token : Uuid → List MachineToken → Changed
delete_machine_token id tokens =
    let rest = without id tokens in
    if token_logged id tokens
    then (tokens, inl still_referenced)
    else if length rest == length tokens
    then (rest, inl no_rows)
    else (rest, inr tt)

abbrev pub with_metadata : Bool → Uuid → Option String → List MachineToken → Changed
with_metadata fails id none tokens = (tokens, inr tt)
with_metadata fails id (some metadata) tokens =
    if fails
    then (tokens, inl statement_failed)
    else (update_tokens id (λ t. record t { metadata = some metadata }) tokens, inr tt)

-- UpdateMachineToken: two statements, each for what is given, and each of which may fail
unfoldable pub update_machine_token :
    Bool × Bool → Uuid → Option String → Option String → List MachineToken → Changed
update_machine_token fails id none metadata tokens = with_metadata fails.1 id metadata tokens
update_machine_token fails id (some name) metadata tokens =
    if fails.0
    then (tokens, inl statement_failed)
    else with_metadata fails.1 id metadata (update_tokens id (λ t. record t { name = name }) tokens)

abbrev pub created :
    String
    → Uuid
    → List MachineToken
    → Option (List MachineToken)
    → List MachineToken × (TokenError ⊎ (String × Uuid))
created token id tokens none = (tokens, inl store_token_failed)
created token id tokens (some after) = (after, inr (token, id))

module _ (env : AuthEnv) where
  unfoldable pub validate_machine_token : ℕ → String → List MachineToken → Checked
  unfolding validate_token_format get_machine_token_by_hash update_machine_token_last_used
      permission_of
  validate_machine_token now token tokens =
      if not (validate_token_format token)
      then (tokens, inl invalid_token_format)
      else with_machine_token now (get_machine_token_by_hash (env.hash_token token) tokens) tokens

  abbrev pub with_generated :
      Option String
      → Uuid
      → String
      → List String
      → Option Uuid
      → Option String
      → List User
      → List MachineToken
      → List MachineToken × (TokenError ⊎ (String × Uuid))
  with_generated none id name permissions created_by metadata users tokens =
      (tokens, inl generate_failed)
  with_generated (some token) id name permissions created_by metadata users tokens =
      let row : MachineToken = record {
        id = id;
        token_hash = env.hash_token token;
        name = name;
        permissions = permissions;
        last_used_at = none;
        created_by_user_id = created_by;
        metadata = metadata;
        logged = true;
      } in
      created token id tokens (
        stored (creator_found created_by users) (get_machine_token_by_hash row.token_hash tokens)
          row tokens)

  unfoldable pub create_machine_token :
      String
      → Option (List ℕ)
      → Uuid
      → String
      → List String
      → Option Uuid
      → Option String
      → List User
      → List MachineToken
      → List MachineToken × (TokenError ⊎ (String × Uuid))
  unfolding generate_machine_token get_machine_token_by_hash get_user_by_id
  create_machine_token uuid_text secret id name permissions created_by metadata users tokens =
      with_generated (generate_machine_token uuid_text secret) id name permissions created_by
        metadata users tokens
