-- ===== src/Rest/Accounts/Refusals.antt =====
-- rest/auth.go: a request that is answered with an error leaves the accounts as they were.
use open_machine_core.Prelude.{
  ℕ, suc, ◌≤◌, String, List, [], ◌∷◌, ◌≡◌, refl, ap, Bool, true, false, ◌&&◌, ◌||◌, Option, none,
  some, ◌⊎◌, inl, inr, Uuid, length, if_rule, if◌then◌else◌, ◌==◌, ==_iff, arith,
}
use open_machine_core.Auth.{User, Store, AuthEnv, get_user_by_username, get_user_by_id}
use open_machine_core.Auth.Tokens.{
  MachineToken, Changed, still_referenced, no_rows, without, token_logged, delete_machine_token,
  with_metadata, update_machine_token, created, stored, creator_found, get_machine_token_by_hash,
  generate_machine_token, with_generated, create_machine_token,
}
use open_machine_core.Auth.Tokens.Creation.{row}
use open_machine_core.Auth.Users.{
  UserError, Updated, role_allowed, new_user, inserted, insert_user, create_user, with_role,
  update_user_role, update_user_details, users_without, user_logged, is_creator, delete_user,
}
use open_machine_core.Auth.Middleware.{UserValue, uuid_value, uuid_pointer, Context}
use open_machine_core.Rest.Accounts.{
  Accounts, Request, logging_in, refreshing, logging_out, getting_current_user,
  listing_machine_tokens, listing_users, creating_machine_token, deleting_machine_token,
  deleting_user, updating_machine_token, creating_user, updating_user, Outside, Answered, refused,
  required, long_enough, one_of_roles, omitempty, current_user, got_current_user, get_current_user,
  unless_failed, default_permissions, asserted_pointer, created_token, asserted, create_token,
  deleted_machine_token, delete_token, updated_machine_token, update_token, created_user,
  changed_user, hashed, delete_user_request, logout_user, create_user_request, update_user_request,
  handle,
}

abbrev HasOne : Option String → Option String → Type 0
HasOne (some a) (some b) = ⊥
HasOne _ _ = Unit

-- The requests that change the accounts by at most one statement: a failed login is counted, a
-- refresh revokes its token first, and an update of two fields has two statements.
abbrev pub ChangesOnce : Request → Type 0
ChangesOnce (logging_in body) = ⊥
ChangesOnce (refreshing body) = ⊥
ChangesOnce (updating_machine_token id (some (name, metadata))) = HasOne name metadata
ChangesOnce (updating_user id (some (password, role))) = HasOne password role
ChangesOnce _ = Unit

abbrev Atomic : Accounts → Answered → Type 0
Atomic a r = 400 ≤ r.1.0 → r.0 ≡ a

not_200 : {A : Type 0} → 400 ≤ 200 → A
not_200 h = absurd (omega arith)

not_201 : 400 ≤ 201 → ⊥
not_201 h = omega arith

pub without_bound : (id : Uuid) (ts : List MachineToken) → length (without id ts) ≤ length ts
without_bound id [] = omega arith
without_bound id (t ∷ ts) =
    if_rule (λ x. length x ≤ suc (length ts)) (t.id == id) (without id ts) (t ∷ without id ts)
      (λ _. omega (arith, without_bound id ts)) (λ _. omega (arith, without_bound id ts))

without_same :
    (id : Uuid) (ts : List MachineToken) → length (without id ts) ≡ length ts → without id ts ≡ ts
without_same id [] = λ h. refl
without_same id (t ∷ ts) =
    if_rule (λ x. length x ≡ suc (length ts) → x ≡ t ∷ ts) (t.id == id) (without id ts)
      (t ∷ without id ts) (λ _ h. absurd (too_long (without_bound id ts) h))
      (λ _ h. ap (λ x. t ∷ x) (without_same id ts (omega (arith, h))))
  where
    too_long : {m n : ℕ} → m ≤ n → m ≡ suc n → ⊥
    too_long a b = omega arith

unless_failed-Atomic :
    (fails : Bool) (code : String) (a : Accounts) (r : Answered)
    → Atomic a r
    → Atomic a (unless_failed fails code a r)
unless_failed-Atomic true code a r k = λ h. refl
unless_failed-Atomic false code a r k = k

delete_token-Atomic :
    (fails : Bool) (id : Option Uuid) (a : Accounts) → Atomic a (delete_token fails id a)
unfolding delete_token delete_machine_token
delete_token-Atomic fails none a = λ h. refl
delete_token-Atomic fails (some id) a =
    unless_failed-Atomic fails "TOKEN_500" a
      (deleted_machine_token a (delete_machine_token id a.tokens))
      (if_rule (λ (r : Changed). Atomic a (deleted_machine_token a r)) (token_logged id a.tokens)
        (a.tokens, inl still_referenced) _ (λ _ h. refl)
        (λ _.
          if_rule (λ (r : Changed). Atomic a (deleted_machine_token a r))
            (length (without id a.tokens) == length a.tokens) (without id a.tokens, inl no_rows)
            (without id a.tokens, inr tt)
            (λ e h.
              ap (λ ts. record a { tokens = ts })
                (without_same id a.tokens
                  ((==_iff (length (without id a.tokens)) (length a.tokens)).0 e)))
            (λ _ h. not_200 h)))

delete_user_request-Atomic :
    (fails : Bool) (id : Option Uuid) (a : Accounts) → Atomic a (delete_user_request fails id a)
unfolding delete_user_request delete_user
delete_user_request-Atomic fails none a = λ h. refl
delete_user_request-Atomic fails (some id) a =
    unless_failed-Atomic fails "USER_500" a
      (changed_user a "user deleted" (delete_user id a.tokens a.store))
      (if_rule (λ (r : Updated). Atomic a (changed_user a "user deleted" r))
        (user_logged id a.store.users || is_creator id a.tokens) _ _ (λ _ h. refl)
        (λ _.
          if_rule (λ (r : Updated). Atomic a (changed_user a "user deleted" r))
            (length (users_without id a.store.users) == length a.store.users) _ _ (λ _ h. refl)
            (λ _ h. not_200 h)))

inserted-Atomic :
    (o : Option User) (u : User) (a : Accounts) → Atomic a (created_user a (inserted o u a.store))
inserted-Atomic (some other) u a = λ h. refl
inserted-Atomic none u a =
    if_rule (λ (r : Store × (UserError ⊎ User)). Atomic a (created_user a r)) (role_allowed u.role)
      _ _ (λ _ h. absurd (not_201 h)) (λ _ h. refl)

create_user-Atomic :
    (hash : String ⊎ String) (id : Uuid) (username role : String) (a : Accounts)
    → Atomic a (created_user a (create_user hash id username role a.store))
unfolding create_user insert_user
create_user-Atomic (inl e) id username role a = λ h. refl
create_user-Atomic (inr hash) id username role a =
    inserted-Atomic (get_user_by_username username a.store.users) (new_user id username hash role) a

with_role-Atomic :
    (fails : Bool) (id : Uuid) (role : Option String) (a : Accounts)
    → omitempty one_of_roles role ≡ true
    → Atomic a (changed_user a "user updated" (with_role fails id role a.store))
unfolding update_user_role
with_role-Atomic fails id none a g = λ h. not_200 h
with_role-Atomic true id (some role) a g = λ h. refl
with_role-Atomic false id (some role) a g =
    if_rule (λ (r : Updated). Atomic a (changed_user a "user updated" r)) (role_allowed role) _ _
      (λ _ h. not_200 h) (λ f h. cc)

update_user-Atomic :
    (fails : Bool × Bool) (id : Uuid) (password role : Option String)
    (hash : String → String ⊎ String) (a : Accounts)
    → HasOne password role
    → omitempty one_of_roles role ≡ true
    → Atomic a (
        changed_user a "user updated"
          (update_user_details fails id (hashed hash password) role a.store))
unfolding update_user_details
update_user-Atomic fails id none role hash a n g = with_role-Atomic fails.1 id role a g
update_user-Atomic fails id (some password) (some role) hash a n g = absurd n
update_user-Atomic fails id (some password) none hash a n g = by_hash (hash password)
  where
    by_hash :
        (r : String ⊎ String)
        → Atomic a
            (changed_user a "user updated" (update_user_details fails id (some r) none a.store))
    by_hash (inl e) = λ h. refl
    by_hash (inr new) =
        if_rule (λ (r : Updated). Atomic a (changed_user a "user updated" r)) fails.0 _ _
          (λ _ h. refl) (λ _ h. not_200 h)

current_user-Atomic :
    (fails : Bool) (c : Context) (a : Accounts) → Atomic a (get_current_user fails c a)
unfolding get_current_user
current_user-Atomic fails c a = found c.user_id
  where
    found_user : (o : Option User) → Atomic a (got_current_user a c o)
    found_user none = λ h. refl
    found_user (some u) = λ h. refl

    found : (o : Option UserValue) → Atomic a (current_user fails a c o)
    found none = λ h. refl
    found (some (uuid_pointer id)) = λ h. refl
    found (some (uuid_value id)) =
        found_user (if fails then none else get_user_by_id id a.store.users)

with_metadata-Atomic :
    (fails : Bool) (id : Uuid) (metadata : Option String) (a : Accounts)
    → Atomic a (updated_machine_token a (with_metadata fails id metadata a.tokens))
with_metadata-Atomic fails id none a = λ h. refl
with_metadata-Atomic true id (some metadata) a = λ h. refl
with_metadata-Atomic false id (some metadata) a = λ h. not_200 h

update_token-Atomic :
    (fails : Bool × Bool) (id : Option Uuid) (body : Option (Option String × Option String))
    (a : Accounts)
    → ChangesOnce (updating_machine_token id body)
    → Atomic a (update_token fails id body a)
unfolding update_token update_machine_token
update_token-Atomic fails none body a n = λ h. refl
update_token-Atomic fails (some id) none a n = λ h. refl
update_token-Atomic fails (some id) (some (none, metadata)) a n =
    with_metadata-Atomic fails.1 id metadata a
update_token-Atomic fails (some id) (some (some name, some metadata)) a n = absurd n
update_token-Atomic fails (some id) (some (some name, none)) a n =
    if_rule (λ (r : Changed). Atomic a (updated_machine_token a r)) fails.0 _ _ (λ _ h. refl)
      (λ _ h. not_200 h)

created_if :
    (creator : Bool) (o : Option MachineToken) (token name : String) (permissions : List String)
    (metadata : Option String) (t : MachineToken) (a : Accounts)
    → Atomic a (
        created_token a name permissions metadata
          (created token t.id a.tokens (stored creator o t a.tokens)))
created_if creator (some other) token name permissions metadata t a = λ h. refl
created_if false none token name permissions metadata t a = λ h. refl
created_if true none token name permissions metadata t a = λ h. absurd (not_201 h)

and_right : (b c : Bool) → b && c ≡ true → c ≡ true
and_right true c h = h
and_right false c h = cc

module _ (env : AuthEnv) (hash : String → String ⊎ String) where
  logout_user-Atomic :
      (fails : Bool) (body : Option String) (a : Accounts)
      → Atomic a (logout_user env hash fails body a)
  unfolding logout_user
  logout_user-Atomic fails none a = λ h. refl
  logout_user-Atomic fails (some token) a =
      if_rule (Atomic a) (required token) _ _
        (λ _. unless_failed-Atomic fails "AUTH_500" a _ (λ h. not_200 h)) (λ _ h. refl)

  create_machine_token-Atomic :
      (generated : Option String) (id : Uuid) (name : String) (permissions : List String)
      (created_by : Option Uuid) (metadata : Option String) (a : Accounts)
      → Atomic a (
          created_token a name permissions metadata (
            with_generated env generated id name permissions created_by metadata a.store.users
              a.tokens))
  create_machine_token-Atomic none id name permissions created_by metadata a = λ h. refl
  create_machine_token-Atomic (some token) id name permissions created_by metadata a =
      created_if (creator_found created_by a.store.users)
        (get_machine_token_by_hash (env.hash_token token) a.tokens) token name permissions metadata
        (row env token id name permissions created_by metadata) a

  create_token-Atomic :
      (o : Outside) (c : Context) (body : Option (String × List String × Option String))
      (a : Accounts)
      → Atomic a (create_token env hash o c body a)
  unfolding create_token create_machine_token
  create_token-Atomic o c none a = λ h. refl
  create_token-Atomic o c (some (name, permissions, metadata)) a =
      if_rule (Atomic a) (required name) _ _ (λ _. by_pointer (asserted_pointer c.user_id))
        (λ _ h. refl)
    where
      by_pointer :
          (p : Option (Option Uuid))
          → Atomic a (asserted env hash o name (default_permissions permissions) metadata p a)
      by_pointer none = λ h. refl
      by_pointer (some created_by) = unless_failed-Atomic o.fails.0 "TOKEN_500" a _ (
          create_machine_token-Atomic (generate_machine_token o.uuid_text o.secret) o.new_id name
            (default_permissions permissions) created_by metadata a)

  create_user_request-Atomic :
      (fails : Bool) (id : Uuid) (body : Option (String × String × String)) (a : Accounts)
      → Atomic a (create_user_request env hash fails id body a)
  unfolding create_user_request
  create_user_request-Atomic fails id none a = λ h. refl
  create_user_request-Atomic fails id (some (username, password, role)) a =
      let answered : Answered =
        created_user a (create_user (hash password) id username role a.store) in
      if_rule (Atomic a)
        (required username
          && (required password && long_enough password)
          && (required role && one_of_roles role))
        (unless_failed fails "USER_500" a answered) (refused 400 "USER_400" a)
        (λ _.
          unless_failed-Atomic fails "USER_500" a answered
            (create_user-Atomic (hash password) id username role a))
        (λ _ h. refl)

  update_user_request-Atomic :
      (fails : Bool × Bool) (id : Option Uuid) (body : Option (Option String × Option String))
      (a : Accounts)
      → ChangesOnce (updating_user id body)
      → Atomic a (update_user_request env hash fails id body a)
  unfolding update_user_request
  update_user_request-Atomic fails none body a n = λ h. refl
  update_user_request-Atomic fails (some id) none a n = λ h. refl
  update_user_request-Atomic fails (some id) (some (password, role)) a n =
      if_rule (Atomic a) (omitempty long_enough password && omitempty one_of_roles role) _ _
        (λ e. update_user-Atomic fails id password role hash a n (and_right _ _ e)) (λ _ h. refl)

  -- A request to the handlers of users and machine tokens that is answered with a status of 400
  -- or more leaves users, refresh tokens and machine tokens as they were, also when the database
  -- fails a statement; other than a login, a refresh or an update of two fields at once, which
  -- has two statements.
  pub handle_refused :
      (o : Outside) (c : Context) (r : Request) (a : Accounts)
      → ChangesOnce r
      → 400 ≤ (handle env hash o c r a).1.0
      → (handle env hash o c r a).0 ≡ a
  unfolding handle
  handle_refused o c (logging_in body) a n = absurd n
  handle_refused o c (refreshing body) a n = absurd n
  handle_refused o c (logging_out body) a n = logout_user-Atomic o.fails.0 body a
  handle_refused o c getting_current_user a n = current_user-Atomic o.fails.0 c a
  handle_refused o c listing_machine_tokens a n =
      unless_failed-Atomic o.fails.0 "TOKEN_500" a _ (λ h. refl)
  handle_refused o c listing_users a n = unless_failed-Atomic o.fails.0 "USER_500" a _ (λ h. refl)
  handle_refused o c (creating_machine_token body) a n = create_token-Atomic o c body a
  handle_refused o c (deleting_machine_token token_id) a n =
      delete_token-Atomic o.fails.0 token_id a
  handle_refused o c (updating_machine_token token_id body) a n =
      update_token-Atomic o.fails token_id body a n
  handle_refused o c (creating_user body) a n = create_user_request-Atomic o.fails.0 o.new_id body a
  handle_refused o c (updating_user user_id body) a n =
      update_user_request-Atomic o.fails user_id body a n
  handle_refused o c (deleting_user user_id) a n = delete_user_request-Atomic o.fails.0 user_id a
