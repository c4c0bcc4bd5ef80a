-- ===== src/Auth/Refresh.antt =====
-- service.go: a refresh token is used once. Calls follow one another here: two that run at once can
-- both read the token before either revokes it.
use open_machine_core.Prelude.{
  ℕ, String, List, [], ◌∷◌, ◌++◌, ◌≡◌, refl, ap, ◌∙◌, subst, Bool, true, false, Option, none, some,
  some_inj, str_eq, if◌then◌else◌, Uuid, ltb, arith, ◌⊎◌, inl, inr, map,
}
use open_machine_core.Auth.{
  User, RefreshToken, Store, AuthEnv, AuthError, refresh_token_revoked, refresh_token_expired,
  account_locked, Tokens, find_refresh_token, store_refresh_token, stored_unless, usable,
  get_refresh_token, revoke_refresh_token, login_user, refresh_access_token, logout, with_stored,
  issue, verified, unlocked, login_found, refresh_user, refresh_found, get_user_by_username,
  get_user_by_id, increment_failed_login_attempts, reset_failed_login_attempts, update_last_login,
}

-- The token of this hash is stored and revoked.
abbrev pub IsSpent : String → Store → Type 0
IsSpent hash s =
    (t : RefreshToken) × (find_refresh_token hash s.refresh_tokens ≡ some t) × (t.revoked ≡ true)

find-append :
    (hash : String) (ts us : List RefreshToken) (t : RefreshToken)
    → find_refresh_token hash ts ≡ some t
    → find_refresh_token hash (ts ++ us) ≡ some t
unfolding find_refresh_token
find-append hash [] us t h = cc
find-append hash (x ∷ ts) us t h = ground (arith, h, find-append hash ts us t)

abbrev revoke_if : String → RefreshToken → RefreshToken
revoke_if hash t = if str_eq t.token_hash hash then record t { revoked = true } else t

find-revoke :
    (hash other : String) (ts : List RefreshToken) (t : RefreshToken)
    → find_refresh_token hash ts ≡ some t
    → find_refresh_token hash (map (λ x. revoke_if other x) ts) ≡ some (revoke_if other t)
unfolding find_refresh_token
find-revoke hash other [] t h = cc
find-revoke hash other (x ∷ ts) t h = ground (arith, h, find-revoke hash other ts t)

found_hash :
    (hash : String) (ts : List RefreshToken) (t : RefreshToken)
    → find_refresh_token hash ts ≡ some t
    → str_eq t.token_hash hash ≡ true
unfolding find_refresh_token
found_hash hash [] t h = cc
found_hash hash (x ∷ ts) t h = ground (arith, h, found_hash hash ts t)

-- A revoked token stays revoked when any token is revoked.
revoke-IsSpent :
    (hash other : String) (s : Store) → IsSpent hash s → IsSpent hash (revoke_refresh_token other s)
unfolding revoke_refresh_token
revoke-IsSpent hash other s (t, found, spent) =
    (revoke_if other t, find-revoke hash other s.refresh_tokens t found, ground (arith, spent))

revoke-spends :
    (hash : String) (s : Store) (t : RefreshToken)
    → find_refresh_token hash s.refresh_tokens ≡ some t
    → IsSpent hash (revoke_refresh_token hash s)
unfolding revoke_refresh_token
revoke-spends hash s t found = (
  revoke_if hash t,
  find-revoke hash hash s.refresh_tokens t found,
  ground (arith, found_hash hash s.refresh_tokens t found),
)

-- What an operation leaves alone, or adds to the end.
stored-IsSpent :
    (hash : String) (o : Option RefreshToken) (new : RefreshToken) (s s' : Store)
    → stored_unless o new s ≡ some s'
    → IsSpent hash s
    → IsSpent hash s'
stored-IsSpent hash (some x) new s s' h i = cc
stored-IsSpent hash none new s s' h (t, found, spent) =
    subst (λ (q : Store). IsSpent hash q) (some_inj h)
      (t, find-append hash s.refresh_tokens (new ∷ []) t found, spent)

module _ (env : AuthEnv) where
  pub data Operation : Type 0 where
    log_in : ℕ → String → String → String ⊎ String → Operation
    refresh : ℕ → String → String ⊎ String → Operation
    log_out : String → Operation

  pub run_operation : Operation → Store → Store
  run_operation (log_in now name password random) s = (login_user env now name password random s).0
  run_operation (refresh now token random) s = (refresh_access_token env now token random s).0
  run_operation (log_out token) s = logout env token s

  pub run_operations : List Operation → Store → Store
  run_operations [] s = s
  run_operations (o ∷ os) s = run_operations os (run_operation o s)

  module _ (hash : String) where
    with_stored-IsSpent :
        (access token : String) (s : Store) (o : Option Store) (finish : Store → Store)
        → IsSpent hash s
        → ((t : Store) → o ≡ some t → IsSpent hash (finish t))
        → IsSpent hash (with_stored env access token s o finish).0
    with_stored-IsSpent access token s none finish i h = i
    with_stored-IsSpent access token s (some t) finish i h = h t refl

    issue-IsSpent :
        (now : ℕ) (u : User) (access random : String ⊎ String) (s : Store) (finish : Store → Store)
        → ((t : Store) → IsSpent hash t → IsSpent hash (finish t))
        → IsSpent hash s
        → IsSpent hash (issue env now u access random s finish).0
    unfolding store_refresh_token
    issue-IsSpent now u (inl e) random s finish keep i = i
    issue-IsSpent now u (inr access) (inl e) s finish keep i = i
    issue-IsSpent now u (inr access) (inr token) s finish keep i =
        with_stored-IsSpent access token s _ finish i (λ t e. keep t (
          stored-IsSpent hash (find_refresh_token (env.hash_token token) s.refresh_tokens) _ s t e
            i))

    verified-IsSpent :
        (now : ℕ) (u : User) (r : String ⊎ Bool) (random : String ⊎ String) (s : Store)
        → IsSpent hash s
        → IsSpent hash (verified env now u r random s).0
    unfolding increment_failed_login_attempts reset_failed_login_attempts update_last_login
    verified-IsSpent now u (inl e) random s i = i
    verified-IsSpent now u (inr false) random s i = i
    verified-IsSpent now u (inr true) random s i =
        issue-IsSpent now u (env.generate_access_token u.id u.username u.role) random
          (reset_failed_login_attempts u.id s) (λ t. update_last_login now u.id t) (λ t j. j) i

    either-IsSpent :
        (b : Bool) (s : Store) (e : AuthError) (r : Store × (AuthError ⊎ Tokens))
        → IsSpent hash s
        → IsSpent hash r.0
        → IsSpent hash (if b then (s, inl e) else r).0
    either-IsSpent true s e r i j = i
    either-IsSpent false s e r i j = j

    login_found-IsSpent :
        (now : ℕ) (o : Option User) (password : String) (random : String ⊎ String) (s : Store)
        → IsSpent hash s
        → IsSpent hash (login_found env now o password random s).0
    login_found-IsSpent now none password random s i = i
    login_found-IsSpent now (some u) password random s i = by_lock u.locked_until
      where
        by_lock : (l : Option ℕ) → IsSpent hash (unlocked env now u l password random s).0
        by_lock none =
            verified-IsSpent now u (env.verify_password password u.password_hash) random s i
        by_lock (some until) =
            either-IsSpent (ltb now until) s (account_locked until)
              (verified env now u (env.verify_password password u.password_hash) random s) i
              (verified-IsSpent now u (env.verify_password password u.password_hash) random s i)

    refresh_found-IsSpent :
        (now : ℕ) (other : String) (r : AuthError ⊎ Uuid) (random : String ⊎ String) (s : Store)
        → IsSpent hash s
        → IsSpent hash (refresh_found env now other r random s).0
    refresh_found-IsSpent now other (inl e) random s i = i
    refresh_found-IsSpent now other (inr id) random s i = by_user (get_user_by_id id s.users)
      where
        by_user : (o : Option User) → IsSpent hash (refresh_user env now other o random s).0
        by_user none = i
        by_user (some u) =
            issue-IsSpent now u (env.generate_access_token u.id u.username u.role) random
              (revoke_refresh_token other s) (λ t. t) (λ t j. j) (revoke-IsSpent hash other s i)

    run_operation-IsSpent :
        (o : Operation) (s : Store) → IsSpent hash s → IsSpent hash (run_operation o s)
    unfolding run_operation login_user refresh_access_token logout
    run_operation-IsSpent (log_in now name password random) s i =
        login_found-IsSpent now (get_user_by_username name s.users) password random s i
    run_operation-IsSpent (refresh now token random) s i =
        refresh_found-IsSpent now (env.hash_token token)
          (get_refresh_token now (env.hash_token token) s) random s i
    run_operation-IsSpent (log_out token) s i = revoke-IsSpent hash (env.hash_token token) s i

    run_operations-IsSpent :
        (os : List Operation) (s : Store) → IsSpent hash s → IsSpent hash (run_operations os s)
    unfolding run_operations
    run_operations-IsSpent [] s i = i
    run_operations-IsSpent (o ∷ os) s i =
        run_operations-IsSpent os (run_operation o s) (run_operation-IsSpent o s i)

    user_spends :
        (now : ℕ) (o : Option User) (t : RefreshToken) (random : String ⊎ String) (s : Store)
        (tokens : Tokens)
        → find_refresh_token hash s.refresh_tokens ≡ some t
        → (refresh_user env now hash o random s).1 ≡ inr tokens
        → IsSpent hash (refresh_user env now hash o random s).0
    user_spends now none t random s tokens f h = cc
    user_spends now (some u) t random s tokens f h =
        issue-IsSpent now u (env.generate_access_token u.id u.username u.role) random
          (revoke_refresh_token hash s) (λ q. q) (λ q j. j) (revoke-spends hash s t f)

    -- A refresh that was accepted has spent its token.
    found_spends :
        (now : ℕ) (r : AuthError ⊎ Uuid) (t : RefreshToken) (random : String ⊎ String) (s : Store)
        (tokens : Tokens)
        → find_refresh_token hash s.refresh_tokens ≡ some t
        → (refresh_found env now hash r random s).1 ≡ inr tokens
        → IsSpent hash (refresh_found env now hash r random s).0
    found_spends now (inl e) t random s tokens f h = cc
    found_spends now (inr id) t random s tokens f h =
        user_spends now (get_user_by_id id s.users) t random s tokens f h

    accepted_spends :
        (now : ℕ) (o : Option RefreshToken) (random : String ⊎ String) (s : Store) (tokens : Tokens)
        → find_refresh_token hash s.refresh_tokens ≡ o
        → (refresh_found env now hash (usable now o) random s).1 ≡ inr tokens
        → IsSpent hash (refresh_found env now hash (usable now o) random s).0
    accepted_spends now none random s tokens f h = cc
    accepted_spends now (some t) random s tokens f h =
        found_spends now (usable now (some t)) t random s tokens f h

  refresh_spends :
      (now : ℕ) (token : String) (random : String ⊎ String) (s : Store) (tokens : Tokens)
      → (refresh_access_token env now token random s).1 ≡ inr tokens
      → IsSpent (env.hash_token token) (refresh_access_token env now token random s).0
  unfolding refresh_access_token get_refresh_token
  refresh_spends now token random s tokens h =
      accepted_spends (env.hash_token token) now
        (find_refresh_token (env.hash_token token) s.refresh_tokens) random s tokens refl h

  refresh_refused :
      (now : ℕ) (token : String) (random : String ⊎ String) (s : Store)
      → IsSpent (env.hash_token token) s
      → refresh_access_token env now token random s ≡ (s, inl refresh_token_revoked)
  unfolding refresh_access_token get_refresh_token
  refresh_refused now token random s (t, found, spent) =
      ap
        (λ (o : Option RefreshToken).
          refresh_found env now (env.hash_token token) (usable now o) random s)
        found
      ∙ ap
          (λ (b : Bool).
            refresh_found env now (env.hash_token token)
              (if b
                then inl refresh_token_revoked
                else if ltb t.expires_at now
                then inl refresh_token_expired
                else inr t.user_id)
              random s)
          spent

  -- A refresh token that was accepted is refused from then on, whatever logins, refreshes and
  -- logouts come between, one after another, and the refusal changes nothing.
  pub refresh_access_token-run_operations :
      (now later : ℕ) (token : String) (random random' : String ⊎ String) (s : Store)
      (tokens : Tokens) (os : List Operation)
      → (refresh_access_token env now token random s).1 ≡ inr tokens
      → let s' = run_operations os (refresh_access_token env now token random s).0 in
        refresh_access_token env later token random' s' ≡ (s', inl refresh_token_revoked)
  refresh_access_token-run_operations now later token random random' s tokens os h =
      refresh_refused later token random'
        (run_operations os (refresh_access_token env now token random s).0)
        (run_operations-IsSpent (env.hash_token token) os
          (refresh_access_token env now token random s).0
          (refresh_spends now token random s tokens h))
