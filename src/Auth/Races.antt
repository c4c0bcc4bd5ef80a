-- ===== src/Auth/Races.antt =====
-- service.go: two refreshes with one token that run at the same time. Each reads the token and the user
-- before it revokes the token.
use open_machine_core.Prelude.{
  ℕ, ◌+◌, String, List, [], ◌∷◌, ◌++◌, ◌≡◌, ◌≢◌, refl, ap, ◌∙◌, true, false, none, some, str_eq,
  eq_iff, if◌then◌else◌, ◌⊎◌, inr, Uuid, map, arith,
}
use open_machine_core.Auth.{
  User, RefreshToken, Store, AuthEnv, AuthError, Tokens, get_user_by_id, get_refresh_token,
  refresh_access_token, refresh_user, refresh_found, issue, with_stored, stored_unless,
  find_refresh_token, store_refresh_token, revoke_refresh_token,
}

find-map_revoke :
    (hash other : String) (ts : List RefreshToken)
    → find_refresh_token hash ts ≡ none
    → find_refresh_token hash
        (map (λ t. if str_eq t.token_hash other then record t { revoked = true } else t) ts)
      ≡ none
unfolding find_refresh_token
find-map_revoke hash other [] h = refl
find-map_revoke hash other (t ∷ ts) h = ground (arith, find-map_revoke hash other ts, h)

find-append_other :
    (hash : String) (ts : List RefreshToken) (t : RefreshToken)
    → find_refresh_token hash ts ≡ none
    → str_eq t.token_hash hash ≡ false
    → find_refresh_token hash (ts ++ t ∷ []) ≡ none
unfolding find_refresh_token
find-append_other hash [] t h e = ground (arith, e)
find-append_other hash (x ∷ ts) t h e = ground (arith, find-append_other hash ts t, h, e)

module _ (env : AuthEnv) where
  abbrev new_token : ℕ → User → String → RefreshToken
  new_token now u refresh = record {
    user_id = u.id;
    token_hash = env.hash_token refresh;
    expires_at = now + env.refresh_ttl;
    revoked = false;
  }

  -- A refresh whose checks have passed, and what it leaves of the tokens.
  refresh_user_lem :
      (now : ℕ) (hash access refresh : String) (u : User) (s : Store)
      → env.generate_access_token u.id u.username u.role ≡ inr access
      → find_refresh_token (env.hash_token refresh) s.refresh_tokens ≡ none
      → refresh_user env now hash (some u) (inr refresh) s ≡ (
        record s {
          refresh_tokens =
              (revoke_refresh_token hash s).refresh_tokens ++ new_token now u refresh ∷ [];
        },
        inr (access, refresh),
      )
  unfolding revoke_refresh_token store_refresh_token
  refresh_user_lem now hash access refresh u s token new =
      let s' : Store = revoke_refresh_token hash s in
      ap (λ o. issue env now u o (inr refresh) s' (λ t. t)) token
      ∙ ap
          (λ o.
            with_stored env access refresh s' (stored_unless o (new_token now u refresh) s')
              (λ t. t))
          (find-map_revoke (env.hash_token refresh) hash s.refresh_tokens new)

  -- Two refreshes with one token that can be used, the second of which read the token and the
  -- user before the first revoked it, both succeed, each with its new refresh token, when an
  -- access token can be made and the new tokens are new and differ.
  pub refresh_user-refresh_access_token :
      (now : ℕ) (token access first second : String) (id : Uuid) (u : User) (s : Store)
      → get_refresh_token now (env.hash_token token) s ≡ inr id
      → get_user_by_id id s.users ≡ some u
      → env.generate_access_token u.id u.username u.role ≡ inr access
      → find_refresh_token (env.hash_token first) s.refresh_tokens ≡ none
      → find_refresh_token (env.hash_token second) s.refresh_tokens ≡ none
      → env.hash_token first ≢ env.hash_token second
      → let r : Store × (AuthError ⊎ Tokens) = refresh_access_token env now token (inr first) s in
        (r.1 ≡ inr (access, first))
        × ((refresh_user env now (env.hash_token token) (some u) (inr second) r.0).1
            ≡ inr (access, second))
  unfolding refresh_access_token revoke_refresh_token
  refresh_user-refresh_access_token now token access first second id u s valid known made new newer
        differ =
      let hash : String = env.hash_token token in
      let whole =
        ap (λ o. refresh_found env now hash o (inr first) s) valid
        ∙ ap (λ o. refresh_user env now hash o (inr first) s) known
        ∙ refresh_user_lem now hash access first u s made new in
      let after : Store = record s {
        refresh_tokens = (revoke_refresh_token hash s).refresh_tokens ++ new_token now u first ∷ [];
      } in
      (
        ap (λ (r : Store × (AuthError ⊎ Tokens)). r.1) whole,
        ap
              (λ (r : Store × (AuthError ⊎ Tokens)).
                (refresh_user env now hash (some u) (inr second) r.0).1)
              whole
            ∙ ap (λ (r : Store × (AuthError ⊎ Tokens)). r.1)
                (refresh_user_lem now hash access second u after made (
                  find-append_other (env.hash_token second)
                    (revoke_refresh_token hash s).refresh_tokens (new_token now u first)
                    (find-map_revoke (env.hash_token second) hash s.refresh_tokens newer)
                    (ground
                      (arith, eq_iff (env.hash_token first) (env.hash_token second), differ)))),
      )
