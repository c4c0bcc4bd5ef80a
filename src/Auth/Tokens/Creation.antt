-- ===== src/Auth/Tokens/Creation.antt =====
-- service.go: a machine token that was created, and its deletion.
use open_machine_core.Prelude.{
  ℕ, String, List, [], ◌∷◌, ◌++◌, ◌≡◌, refl, ap, subst, ◌∙◌, Bool, true, false, not, Option, none,
  some, ◌⊎◌, inl, inr, eq_iff, ==_iff, if◌then◌else◌, Uuid, map, length, arith,
}
use Prim.Native.String.{len}
use open_machine_core.Prelude.Text.{text_append}
use open_machine_core.Auth.{Permission, AuthEnv, User}
use open_machine_core.Auth.Tokens.{
  MachineToken, TokenError, still_referenced, machine_token_prefix, hex, generate_machine_token,
  validate_token_format, get_machine_token_by_hash, permission_of, with_machine_token, stored,
  created, token_logged, creator_found, delete_machine_token, validate_machine_token,
  create_machine_token, Checked, invalid_token_format,
}
use open_machine_core.Auth.Tokens.Format.{validate_token_format-generate_machine_token}

get_machine_token_by_hash-append :
    (t : MachineToken) (tokens : List MachineToken)
    → get_machine_token_by_hash t.token_hash tokens ≡ none
    → get_machine_token_by_hash t.token_hash (tokens ++ t ∷ []) ≡ some t
unfolding get_machine_token_by_hash
get_machine_token_by_hash-append t [] h = ground (arith, eq_iff t.token_hash t.token_hash)
get_machine_token_by_hash-append t (x ∷ tokens) h =
    ground (arith, get_machine_token_by_hash-append t tokens, h)

token_logged-append :
    (t : MachineToken) (tokens : List MachineToken)
    → t.logged ≡ true
    → token_logged t.id (tokens ++ t ∷ []) ≡ true
token_logged-append t [] h = ground (arith, ==_iff t.id t.id, h)
token_logged-append t (x ∷ tokens) h = ground (arith, token_logged-append t tokens h)

-- A token that an event refers to is not deleted.
delete_machine_token_logged :
    (id : Uuid) (tokens : List MachineToken)
    → token_logged id tokens ≡ true
    → delete_machine_token id tokens ≡ (tokens, inl still_referenced)
unfolding delete_machine_token
delete_machine_token_logged id tokens h = ground (arith, h)

module _ (env : AuthEnv) where
  abbrev pub row : String → Uuid → String → List String → Option Uuid → Option String → MachineToken
  row token id name permissions created_by metadata = record {
    id = id;
    token_hash = env.hash_token token;
    name = name;
    permissions = permissions;
    last_used_at = none;
    created_by_user_id = created_by;
    metadata = metadata;
    logged = true;
  }

  -- The answer to a token that has the format.
  abbrev answer : ℕ → String → List MachineToken → TokenError ⊎ List Permission
  answer now token tokens =
      (with_machine_token now (get_machine_token_by_hash (env.hash_token token) tokens) tokens).1

  formatted :
      (now : ℕ) (token : String) (tokens : List MachineToken)
      → validate_token_format token ≡ true
      → (validate_machine_token env now token tokens).1 ≡ answer now token tokens
  unfolding validate_machine_token
  formatted now token tokens h =
      ap
        (λ b.
          (let r : Checked =
              if not b
              then (tokens, inl invalid_token_format)
              else with_machine_token now (get_machine_token_by_hash (env.hash_token token) tokens)
                  tokens in
            r.1))
        h

  abbrev Lives : ℕ → String → Uuid → List String → List MachineToken → Type 0
  Lives now token id permissions after =
      ((validate_machine_token env now token after).1 ≡ inr (map permission_of permissions))
      × (delete_machine_token id after ≡ (after, inl still_referenced))

  appended-Lives :
      (now : ℕ) (token : String) (t : MachineToken) (tokens : List MachineToken)
      → get_machine_token_by_hash t.token_hash tokens ≡ none
      → env.hash_token token ≡ t.token_hash
      → t.logged ≡ true
      → validate_token_format token ≡ true
      → Lives now token t.id t.permissions (tokens ++ t ∷ [])
  appended-Lives now token t tokens e k l v = (
    formatted now token (tokens ++ t ∷ []) v
        ∙ ap (λ o. (with_machine_token now o (tokens ++ t ∷ [])).1)
            (ap (λ hash. get_machine_token_by_hash hash (tokens ++ t ∷ [])) k
              ∙ get_machine_token_by_hash-append t tokens e),
    delete_machine_token_logged t.id (tokens ++ t ∷ []) (token_logged-append t tokens l),
  )

  -- By whether there is the creator, and what the table held under the hash.
  stored-Lives :
      (creator : Bool) (found : Option MachineToken) (now : ℕ) (token issued : String)
      (t : MachineToken) (tokens : List MachineToken)
      → get_machine_token_by_hash t.token_hash tokens ≡ found
      → env.hash_token token ≡ t.token_hash
      → t.logged ≡ true
      → validate_token_format token ≡ true
      → (created token t.id tokens (stored creator found t tokens)).1 ≡ inr (issued, t.id)
      → Lives now issued t.id t.permissions
          (created token t.id tokens (stored creator found t tokens)).0
  stored-Lives creator (some other) now token issued t tokens e k l v h = cc
  stored-Lives false none now token issued t tokens e k l v h = cc
  stored-Lives true none now token issued t tokens e k l v h =
      subst (λ s. Lives now s t.id t.permissions (tokens ++ t ∷ [])) (cc h)
        (appended-Lives now token t tokens e k l v)

  -- A machine token that was created, from a uuid's text and 32 random bytes, is accepted with
  -- its permissions, and its deletion is refused and leaves the tokens as they are, because an
  -- event of the audit log refers to it.
  pub validate_machine_token-create_machine_token :
      (now : ℕ) (uuid_text : String) (secret : List ℕ) (id : Uuid) (name : String)
      (permissions : List String) (created_by : Option Uuid) (metadata : Option String)
      (users : List User) (tokens : List MachineToken) {token : String}
      → len uuid_text ≡ 36
      → length secret ≡ 32
      → (create_machine_token env uuid_text
          (some secret)
          id
          name
          permissions
          created_by
          metadata
          users
          tokens).1
        ≡ inr (token, id)
      → let after : List MachineToken =
          (create_machine_token env uuid_text
            (some secret)
            id
            name
            permissions
            created_by
            metadata
            users
            tokens).0 in
        ((validate_machine_token env now token after).1 ≡ inr (map permission_of permissions))
        × (delete_machine_token id after ≡ (after, inl still_referenced))
  unfolding create_machine_token generate_machine_token
  validate_machine_token-create_machine_token now uuid_text secret id name permissions created_by
        metadata users tokens {token} n m h =
      let made : String =
        text_append machine_token_prefix (text_append uuid_text (text_append "_" (hex secret))) in
      let t : MachineToken = row made id name permissions created_by metadata in
      stored-Lives (creator_found created_by users) (get_machine_token_by_hash t.token_hash tokens)
        now made token t tokens refl refl refl
        (validate_token_format-generate_machine_token uuid_text secret n m refl) h
