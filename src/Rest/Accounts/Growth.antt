-- ===== src/Rest/Accounts/Growth.antt =====
-- rest/auth.go: machine tokens over any requests.
use open_machine_core.Prelude.{
  ℕ, ◌≤◌, String, List, [], ◌∷◌, ◌≡◌, refl, sym, subst, ◌∙◌, Bool, true, false, not, ◌&&◌, Option,
  none, some, ◌⊎◌, inl, inr, Uuid, length, length-map, if_rule, if◌then◌else◌, ◌==◌, arith,
}
use open_machine_core.Auth.{
  Permission, User, Store, AuthEnv, AuthError, Tokens, require_permission, get_user_by_id,
  login_user, refresh_access_token,
}
use open_machine_core.Auth.Tokens.{
  MachineToken, Changed, Checked, statement_failed, validate_token_format,
  get_machine_token_by_hash, delete_machine_token, with_metadata, update_machine_token,
  update_machine_token_last_used, update_tokens, with_machine_token, validate_machine_token,
  create_machine_token,
}
use open_machine_core.Auth.Users.{UserError, create_user, update_user_details, delete_user}
use open_machine_core.Auth.Middleware.{
  Claims, UserValue, uuid_value, uuid_pointer, Context, empty_context, Refusal, Passed, aborted,
  passed, token_of, with_checked, permitted, require, with_claims, with_token, auth_middleware,
}
use open_machine_core.Rest.Routes.{Middleware, authenticating, requiring, then_run, run_chain}
use open_machine_core.Rest.Accounts.{
  Accounts, Request, logging_in, refreshing, logging_out, getting_current_user,
  listing_machine_tokens, listing_users, creating_machine_token, deleting_machine_token,
  deleting_user, updating_machine_token, creating_user, updating_user, Outside, Answered, refused,
  required, long_enough, one_of_roles, got_tokens, current_user, got_current_user, get_current_user,
  unless_failed, default_permissions, asserted_pointer, asserted, create_token,
  deleted_machine_token, delete_token, updated_machine_token, update_token, created_user,
  changed_user, hashed, delete_user_request, login, refresh_token, logout_user, create_user_request,
  update_user_request, handle,
}
use open_machine_core.Rest.Accounts.Refusals.{without_bound}

abbrev Keeps : Accounts → Answered → Type 0
Keeps a r = length r.0.tokens ≤ length a.tokens

same : {n : ℕ} → n ≤ n
same = omega arith

got_tokens-Keeps : (a : Accounts) (r : Store × (AuthError ⊎ Tokens)) → Keeps a (got_tokens a r)
got_tokens-Keeps a (s, inl e) = same
got_tokens-Keeps a (s, inr t) = same

created_user-Keeps : (a : Accounts) (r : Store × (UserError ⊎ User)) → Keeps a (created_user a r)
created_user-Keeps a (s, inl e) = same
created_user-Keeps a (s, inr u) = same

changed_user-Keeps :
    (a : Accounts) (done : String) (r : Store × (UserError ⊎ Unit {0}))
    → Keeps a (changed_user a done r)
changed_user-Keeps a done (s, inl e) = same
changed_user-Keeps a done (s, inr u) = same

unless_failed-Keeps :
    (fails : Bool) (code : String) (a : Accounts) (r : Answered)
    → Keeps a r
    → Keeps a (unless_failed fails code a r)
unless_failed-Keeps true code a r k = same
unless_failed-Keeps false code a r k = k

get_current_user-Keeps :
    (fails : Bool) (c : Context) (a : Accounts) → Keeps a (get_current_user fails c a)
unfolding get_current_user
get_current_user-Keeps fails c a = found c.user_id
  where
    found_user : (o : Option User) → Keeps a (got_current_user a c o)
    found_user none = same
    found_user (some u) = same

    found : (o : Option UserValue) → Keeps a (current_user fails a c o)
    found none = same
    found (some (uuid_pointer id)) = same
    found (some (uuid_value id)) =
        found_user (if fails then none else get_user_by_id id a.store.users)

deleted_machine_token-Keeps :
    (a : Accounts) (r : Changed)
    → length r.0 ≤ length a.tokens
    → Keeps a (deleted_machine_token a r)
deleted_machine_token-Keeps a (ts, inl e) k = k
deleted_machine_token-Keeps a (ts, inr u) k = k

length-delete_machine_token :
    (id : Uuid) (ts : List MachineToken) → length (delete_machine_token id ts).0 ≤ length ts
unfolding delete_machine_token
length-delete_machine_token id ts = ground (arith, without_bound id ts)

delete_token-Keeps :
    (fails : Bool) (id : Option Uuid) (a : Accounts) → Keeps a (delete_token fails id a)
unfolding delete_token
delete_token-Keeps fails none a = same
delete_token-Keeps fails (some id) a =
    unless_failed-Keeps fails "TOKEN_500" a
      (deleted_machine_token a (delete_machine_token id a.tokens))
      (deleted_machine_token-Keeps a (delete_machine_token id a.tokens)
        (length-delete_machine_token id a.tokens))

length-update_tokens :
    (id : Uuid) (f : MachineToken → MachineToken) (ts : List MachineToken)
    → length (update_tokens id f ts) ≡ length ts
length-update_tokens id f ts = length-map (λ (t : MachineToken). if t.id == id then f t else t) ts

length-with_metadata :
    (fails : Bool) (id : Uuid) (metadata : Option String) (ts : List MachineToken)
    → length (with_metadata fails id metadata ts).0 ≡ length ts
length-with_metadata fails id none ts = refl
length-with_metadata true id (some metadata) ts = refl
length-with_metadata false id (some metadata) ts =
    length-update_tokens id (λ t. record t { metadata = some metadata }) ts

length-update_machine_token :
    (fails : Bool × Bool) (id : Uuid) (name metadata : Option String) (ts : List MachineToken)
    → length (update_machine_token fails id name metadata ts).0 ≡ length ts
unfolding update_machine_token
length-update_machine_token fails id none metadata ts = length-with_metadata fails.1 id metadata ts
length-update_machine_token fails id (some name) metadata ts =
    let named = update_tokens id (λ t. record t { name = name }) ts in
    if_rule (λ (r : Changed). length r.0 ≡ length ts) fails.0 (ts, inl statement_failed)
      (with_metadata fails.1 id metadata named) (λ _. refl)
      (λ _.
        length-with_metadata fails.1 id metadata named
        ∙ length-update_tokens id (λ t. record t { name = name }) ts)

updated_machine_token-Keeps :
    (a : Accounts) (r : Changed)
    → length r.0 ≡ length a.tokens
    → Keeps a (updated_machine_token a r)
updated_machine_token-Keeps a (ts, inl e) k = omega (arith, k)
updated_machine_token-Keeps a (ts, inr u) k = omega (arith, k)

update_token-Keeps :
    (fails : Bool × Bool) (id : Option Uuid) (body : Option (Option String × Option String))
    (a : Accounts)
    → Keeps a (update_token fails id body a)
unfolding update_token
update_token-Keeps fails none body a = same
update_token-Keeps fails (some id) none a = same
update_token-Keeps fails (some id) (some (name, metadata)) a =
    updated_machine_token-Keeps a (update_machine_token fails id name metadata a.tokens)
      (length-update_machine_token fails id name metadata a.tokens)

delete_user_request-Keeps :
    (fails : Bool) (id : Option Uuid) (a : Accounts) → Keeps a (delete_user_request fails id a)
unfolding delete_user_request
delete_user_request-Keeps fails none a = same
delete_user_request-Keeps fails (some id) a =
    unless_failed-Keeps fails "USER_500" a
      (changed_user a "user deleted" (delete_user id a.tokens a.store))
      (changed_user-Keeps a "user deleted" (delete_user id a.tokens a.store))

-- No middleware puts a pointer into the context, and the table keeps its rows.
abbrev NoPointer : Option UserValue → Type 0
NoPointer none = Unit
NoPointer (some (uuid_value id)) = Unit
NoPointer (some (uuid_pointer id)) = ⊥

abbrev Harmless : List MachineToken → List MachineToken × Passed → Type 0
Harmless tokens (ts, aborted refusal) = length ts ≡ length tokens
Harmless tokens (ts, passed c) = (length ts ≡ length tokens) × NoPointer c.user_id

no_pointer : (u : Option UserValue) → NoPointer u → asserted_pointer u ≡ none
no_pointer none h = refl
no_pointer (some (uuid_value id)) h = refl
no_pointer (some (uuid_pointer id)) h = absurd h

-- A request, with the middleware of its route and its header, and what its handler finds.
pub record Arrival : Type 0 where
  pub chain : List Middleware
  pub header : String
  pub outside : Outside
  pub request : Request

module _ (env : AuthEnv) (hash : String → String ⊎ String)
    (validate_access_token : String → Option Claims) where
  -- The middleware of a route runs from an empty context; what passes goes to the handler.
  abbrev pub reached : Outside → Request → Accounts → List MachineToken × Passed → Accounts
  reached o request a (ts, aborted refusal) = record a { tokens = ts }
  reached o request a (ts, passed c) = (handle env hash o c request (record a { tokens = ts })).0

  abbrev pub arrive : Arrival → Accounts → Accounts
  unfolding run_chain handle
  arrive r a =
      reached r.outside r.request a
        (run_chain env validate_access_token r.outside.now r.header r.chain empty_context a.tokens)

  unfoldable pub arrive_all : List Arrival → Accounts → Accounts
  unfolding run_chain handle
  arrive_all [] a = a
  arrive_all (r ∷ rs) a = arrive_all rs (arrive r a)

  login-Keeps :
      (now : ℕ) (random : String ⊎ String) (body : Option (String × String)) (a : Accounts)
      → Keeps a (login env hash now random body a)
  unfolding login
  login-Keeps now random none a = same
  login-Keeps now random (some (username, password)) a =
      if_rule (Keeps a) _ _ _
        (λ _. got_tokens-Keeps a (login_user env now username password random a.store)) (λ _. same)

  refresh_token-Keeps :
      (now : ℕ) (random : String ⊎ String) (body : Option String) (a : Accounts)
      → Keeps a (refresh_token env hash now random body a)
  unfolding refresh_token
  refresh_token-Keeps now random none a = same
  refresh_token-Keeps now random (some token) a =
      if_rule (Keeps a) (required token) _ _
        (λ _. got_tokens-Keeps a (refresh_access_token env now token random a.store)) (λ _. same)

  logout_user-Keeps :
      (fails : Bool) (body : Option String) (a : Accounts)
      → Keeps a (logout_user env hash fails body a)
  unfolding logout_user
  logout_user-Keeps fails none a = same
  logout_user-Keeps fails (some token) a =
      if_rule (Keeps a) (required token) _ _ (λ _. unless_failed-Keeps fails "AUTH_500" a _ same)
        (λ _. same)

  create_token-Keeps :
      (o : Outside) (c : Context) (body : Option (String × List String × Option String))
      (a : Accounts)
      → NoPointer c.user_id
      → Keeps a (create_token env hash o c body a)
  unfolding create_token create_machine_token
  create_token-Keeps o c none a n = same
  create_token-Keeps o c (some (name, permissions, metadata)) a n =
      if_rule (Keeps a) (required name) _ _
        (λ _.
          subst
            (λ p. Keeps a (asserted env hash o name (default_permissions permissions) metadata p a))
            (sym (no_pointer c.user_id n)) same)
        (λ _. same)

  create_user_request-Keeps :
      (fails : Bool) (id : Uuid) (body : Option (String × String × String)) (a : Accounts)
      → Keeps a (create_user_request env hash fails id body a)
  unfolding create_user_request
  create_user_request-Keeps fails id none a = same
  create_user_request-Keeps fails id (some (username, password, role)) a =
      let answered : Answered =
        created_user a (create_user (hash password) id username role a.store) in
      if_rule (Keeps a)
        (required username
          && (required password && long_enough password)
          && (required role && one_of_roles role))
        (unless_failed fails "USER_500" a answered) (refused 400 "USER_400" a)
        (λ _.
          unless_failed-Keeps fails "USER_500" a answered
            (created_user-Keeps a (create_user (hash password) id username role a.store)))
        (λ _. same)

  update_user_request-Keeps :
      (fails : Bool × Bool) (id : Option Uuid) (body : Option (Option String × Option String))
      (a : Accounts)
      → Keeps a (update_user_request env hash fails id body a)
  unfolding update_user_request
  update_user_request-Keeps fails none body a = same
  update_user_request-Keeps fails (some id) none a = same
  update_user_request-Keeps fails (some id) (some (password, role)) a =
      if_rule (Keeps a) _ _ _
        (λ _.
          changed_user-Keeps a "user updated"
            (update_user_details fails id (hashed hash password) role a.store))
        (λ _. same)

  handle-Keeps :
      (o : Outside) (c : Context) (r : Request) (a : Accounts)
      → NoPointer c.user_id
      → Keeps a (handle env hash o c r a)
  unfolding handle
  handle-Keeps o c (logging_in body) a n = login-Keeps o.now o.random body a
  handle-Keeps o c (refreshing body) a n = refresh_token-Keeps o.now o.random body a
  handle-Keeps o c (logging_out body) a n = logout_user-Keeps o.fails.0 body a
  handle-Keeps o c getting_current_user a n = get_current_user-Keeps o.fails.0 c a
  handle-Keeps o c listing_machine_tokens a n = unless_failed-Keeps o.fails.0 "TOKEN_500" a _ same
  handle-Keeps o c listing_users a n = unless_failed-Keeps o.fails.0 "USER_500" a _ same
  handle-Keeps o c (creating_machine_token body) a n = create_token-Keeps o c body a n
  handle-Keeps o c (deleting_machine_token token_id) a n = delete_token-Keeps o.fails.0 token_id a
  handle-Keeps o c (updating_machine_token token_id body) a n =
      update_token-Keeps o.fails token_id body a
  handle-Keeps o c (creating_user body) a n = create_user_request-Keeps o.fails.0 o.new_id body a
  handle-Keeps o c (updating_user user_id body) a n =
      update_user_request-Keeps o.fails user_id body a
  handle-Keeps o c (deleting_user user_id) a n = delete_user_request-Keeps o.fails.0 user_id a

  with_machine_token-Harmless :
      (now : ℕ) (o : Option MachineToken) (c : Context) (tokens : List MachineToken)
      → NoPointer c.user_id
      → Harmless tokens (with_checked c (with_machine_token now o tokens))
  unfolding update_machine_token_last_used
  with_machine_token-Harmless now none c tokens n = refl
  with_machine_token-Harmless now (some t) c tokens n = (
    length-update_tokens t.id (λ x. record x { logged = true })
          (update_tokens t.id (λ x. record x { last_used_at = some now }) tokens)
        ∙ length-update_tokens t.id (λ x. record x { last_used_at = some now }) tokens,
    n,
  )

  with_claims-Harmless :
      (now : ℕ) (token : String) (o : Option Claims) (c : Context) (tokens : List MachineToken)
      → NoPointer c.user_id
      → Harmless tokens (with_claims env validate_access_token now token o c tokens)
  unfolding validate_machine_token
  with_claims-Harmless now token (some claims) c tokens n = (refl, tt)
  with_claims-Harmless now token none c tokens n =
      if_rule (λ (r : Checked). Harmless tokens (with_checked c r))
        (not (validate_token_format token)) _ _ (λ _. refl)
        (λ _.
          with_machine_token-Harmless now (get_machine_token_by_hash (env.hash_token token) tokens)
            c tokens n)

  with_token-Harmless :
      (now : ℕ) (u : Refusal ⊎ String) (c : Context) (tokens : List MachineToken)
      → NoPointer c.user_id
      → Harmless tokens (with_token env validate_access_token now u c tokens)
  with_token-Harmless now (inl refusal) c tokens n = refl
  with_token-Harmless now (inr token) c tokens n =
      with_claims-Harmless now token (validate_access_token token) c tokens n

  require-Harmless :
      (p : Permission) (o : Option (List Permission)) (c : Context) (tokens : List MachineToken)
      → NoPointer c.user_id
      → Harmless tokens (tokens, permitted p o c)
  require-Harmless p none c tokens n = refl
  require-Harmless p (some permissions) c tokens n =
      if_rule (λ x. Harmless tokens (tokens, x)) (require_permission p permissions) _ _
        (λ _. (refl, n)) (λ _. refl)

  then_run-Harmless :
      (tokens : List MachineToken) (r : List MachineToken × Passed)
      (next : Context → List MachineToken → List MachineToken × Passed)
      → Harmless tokens r
      → ((c : Context) (ts : List MachineToken) → NoPointer c.user_id → Harmless ts (next c ts))
      → Harmless tokens (then_run env validate_access_token r next)
  then_run-Harmless tokens (ts, aborted refusal) next h k = h
  then_run-Harmless tokens (ts, passed c) next h k = onward (next c ts) (k c ts h.1)
    where
      onward : (x : List MachineToken × Passed) → Harmless ts x → Harmless tokens x
      onward (us, aborted refusal) e = e ∙ h.0
      onward (us, passed d) e = (e.0 ∙ h.0, e.1)

  run_chain-Harmless :
      (now : ℕ) (header : String) (chain : List Middleware) (c : Context)
      (tokens : List MachineToken)
      → NoPointer c.user_id
      → Harmless tokens (run_chain env validate_access_token now header chain c tokens)
  unfolding run_chain auth_middleware require
  run_chain-Harmless now header [] c tokens n = (refl, n)
  run_chain-Harmless now header (authenticating ∷ chain) c tokens n =
      then_run-Harmless tokens (auth_middleware env validate_access_token now header c tokens)
        (λ d ts. run_chain env validate_access_token now header chain d ts)
        (with_token-Harmless now (token_of header) c tokens n)
        (λ d ts k. run_chain-Harmless now header chain d ts k)
  run_chain-Harmless now header (requiring p ∷ chain) c tokens n =
      then_run-Harmless tokens (tokens, require p c)
        (λ d ts. run_chain env validate_access_token now header chain d ts)
        (require-Harmless p c.permissions c tokens n)
        (λ d ts k. run_chain-Harmless now header chain d ts k)

  reached-Keeps :
      (o : Outside) (request : Request) (a : Accounts) (r : List MachineToken × Passed)
      → Harmless a.tokens r
      → length (reached o request a r).tokens ≤ length a.tokens
  reached-Keeps o request a (ts, aborted refusal) h = omega (arith, h)
  reached-Keeps o request a (ts, passed c) h =
      omega (arith, h.0, handle-Keeps o c request (record a { tokens = ts }) h.1)

  -- No sequence of requests that pass any middleware, from an empty context, to the handlers of
  -- logins, users and machine tokens makes the number of machine tokens grow: no middleware puts
  -- a pointer into the context, so that the request that is to create a token never does.
  pub length-arrive_all :
      (rs : List Arrival) (a : Accounts) → length (arrive_all rs a).tokens ≤ length a.tokens
  unfolding arrive_all
  length-arrive_all [] a = same
  length-arrive_all (r ∷ rs) a = omega (
    arith,
    reached-Keeps r.outside r.request a _
        (run_chain-Harmless r.outside.now r.header r.chain empty_context a.tokens tt),
    length-arrive_all rs (arrive r a),
  )
