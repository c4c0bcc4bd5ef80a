-- ===== src/Rest/Access.antt =====
-- server.go: what a request has shown when it reaches a handler.
use open_machine_core.Prelude.{
  ℕ, String, List, [], ◌∷◌, ◌≡◌, refl, sym, ap, subst, ◌∙◌, Bool, true, false, ◌&&◌, ◌||◌, Option,
  none, some, ◌⊎◌, inl, inr, if◌then◌else◌, Bool-cases, eq_iff, Memᴰ, Memᴰ-cons, arith,
}
use open_machine_core.Auth.{
  Permission, perm_operator, perm_technician, perm_admin, perm_other, AuthEnv, same_permission,
  role_to_permissions, require_permission,
}
use open_machine_core.Auth.Tokens.{MachineToken, Checked, validate_machine_token}
use open_machine_core.Auth.Middleware.{
  Claims, Context, empty_context, Refusal, Passed, aborted, passed, require, auth_middleware,
  token_of, validate_token, permitted, insufficient_permissions, with_checked, with_claims,
  with_token, by_claims,
}
use open_machine_core.Rest.Routes.{
  Handler, Middleware, authenticating, requiring, Route, routes, run_chain, then_run,
}

-- Who may use a handler, by the comments beside the routes.
pub data Access : Type 0 where
  public any_token : Access
  needing : Permission → Access
  nobody : Access

abbrev pub access_of : Handler → Access
access_of Handler.health_check = public
access_of Handler.login = public
access_of Handler.refresh_token = public
access_of Handler.ws_live_connection = public
access_of Handler.logout = any_token
access_of Handler.get_current_user = any_token
access_of Handler.create_machine_token = needing perm_admin
access_of Handler.list_machine_tokens = needing perm_admin
access_of Handler.update_machine_token = needing perm_admin
access_of Handler.delete_machine_token = needing perm_admin
access_of Handler.create_user = needing perm_admin
access_of Handler.list_users = needing perm_admin
access_of Handler.update_user = needing perm_admin
access_of Handler.delete_user = needing perm_admin
access_of Handler.create_device = needing perm_admin
access_of Handler.delete_device = needing perm_admin
access_of Handler.write_register = needing perm_technician
access_of Handler.create_workflow = needing perm_admin
access_of Handler.update_workflow = needing perm_admin
access_of Handler.delete_workflow = needing perm_admin
access_of Handler.activate_workflow = needing perm_admin
access_of Handler.configure_machine_workflows = needing perm_admin
access_of Handler.ws_status = nobody
access_of _ = needing perm_operator

abbrev only_requiring : List Middleware → Bool
only_requiring [] = true
only_requiring (authenticating ∷ chain) = false
only_requiring (requiring p ∷ chain) = only_requiring chain

abbrev requires : Permission → List Middleware → Bool
requires p [] = false
requires p (authenticating ∷ chain) = requires p chain
requires p (requiring q ∷ chain) = same_permission q p || requires p chain

abbrev guards : Access → List Middleware → Bool
guards public chain = true
guards any_token (authenticating ∷ chain) = only_requiring chain
guards any_token _ = false
guards (needing p) (authenticating ∷ chain) = only_requiring chain && requires p chain
guards (needing p) _ = false
guards nobody (requiring p ∷ chain) = true
guards nobody _ = false

same_permission-eq : (q p : Permission) → same_permission q p ≡ true → q ≡ p
same_permission-eq perm_operator perm_operator h = refl
same_permission-eq perm_technician perm_technician h = refl
same_permission-eq perm_admin perm_admin h = refl
same_permission-eq (perm_other a) (perm_other b) h = ap (λ x. perm_other x) ((eq_iff a b).0 h)
same_permission-eq _ _ h = cc

abbrev all_guarded : List Route → Bool
all_guarded [] = true
all_guarded (r ∷ rs) = guards (access_of r.handler) r.chain && all_guarded rs

all_guarded-Memᴰ :
    (r : Route) (rs : List Route)
    → all_guarded rs ≡ true
    → Memᴰ r rs
    → guards (access_of r.handler) r.chain ≡ true
all_guarded-Memᴰ r [] h m = elim m [ ]
all_guarded-Memᴰ r (x ∷ rs) h m = elim ((Memᴰ-cons r x rs).0 m) [
  | inl e ↦
      subst (λ (y : Route). guards (access_of y.handler) y.chain ≡ true) (sym e) (ground (arith, h))
  | inr later ↦ all_guarded-Memᴰ r rs (ground (arith, h)) later
]

routes_guarded : (r : Route) → Memᴰ r routes → guards (access_of r.handler) r.chain ≡ true
unfolding routes
routes_guarded r m = all_guarded-Memᴰ r routes refl m

module _ (env : AuthEnv) (validate_access_token : String → Option Claims) where
  -- The header of a request carries a token that is valid, with these permissions.
  abbrev pub HasToken : ℕ → String → List MachineToken → List Permission → Type 0
  HasToken now header tokens permissions =
      (token : String) × (token_of header ≡ inr token)
      × ((validate_token env validate_access_token now token tokens).1 ≡ inr permissions)

  abbrev pub Meets : Access → ℕ → String → List MachineToken → Type 0
  Meets public now header tokens = Unit
  Meets any_token now header tokens =
      (permissions : List Permission) × HasToken now header tokens permissions
  Meets (needing p) now header tokens =
      (permissions : List Permission) × HasToken now header tokens permissions
      × (require_permission p permissions ≡ true)
  Meets nobody now header tokens = ⊥

  -- The chain is passed.
  abbrev pub Reaches : ℕ → String → List Middleware → List MachineToken → Type 0
  Reaches now header chain tokens =
      (context : Context) × ((run_chain env validate_access_token now header chain empty_context
          tokens).1
        ≡ passed context)

  -- What the middleware for tokens has checked when it passes.
  abbrev Checks : ℕ → String → List MachineToken → Passed → Type 0
  Checks now header tokens (aborted refusal) = Unit
  Checks now header tokens (passed context) =
      (permissions : List Permission) × HasToken now header tokens permissions
      × (context.permissions ≡ some permissions)

  with_checked-Checks :
      (now : ℕ) (header token : String) (context : Context) (tokens : List MachineToken)
      (c : Checked)
      → token_of header ≡ inr token
      → (validate_token env validate_access_token now token tokens).1 ≡ c.1
      → Checks now header tokens (with_checked context c).1
  with_checked-Checks now header token context tokens (after, inl e) t v = tt
  with_checked-Checks now header token context tokens (after, inr permissions) t v =
      (permissions, (token, t, v), refl)

  with_claims-Checks :
      (now : ℕ) (header token : String) (context : Context) (tokens : List MachineToken)
      (o : Option Claims)
      → token_of header ≡ inr token
      → validate_access_token token ≡ o
      → Checks now header tokens
          (with_claims env validate_access_token now token o context tokens).1
  unfolding validate_token
  with_claims-Checks now header token context tokens none t v =
      with_checked-Checks now header token context tokens
        (validate_machine_token env now token tokens) t
        (ap (λ o. (by_claims env validate_access_token now token o tokens).1) v)
  with_claims-Checks now header token context tokens (some claims) t v = (
    role_to_permissions claims.role,
    (token, t, ap (λ o. (by_claims env validate_access_token now token o tokens).1) v),
    refl,
  )

  with_token-Checks :
      (now : ℕ) (header : String) (context : Context) (tokens : List MachineToken)
      (u : Refusal ⊎ String)
      → token_of header ≡ u
      → Checks now header tokens (with_token env validate_access_token now u context tokens).1
  with_token-Checks now header context tokens (inl refusal) t = tt
  with_token-Checks now header context tokens (inr token) t =
      with_claims-Checks now header token context tokens (validate_access_token token) t refl

  auth_middleware-Checks :
      (now : ℕ) (header : String) (context : Context) (tokens : List MachineToken)
      → Checks now header tokens
          (auth_middleware env validate_access_token now header context tokens).1
  unfolding auth_middleware
  auth_middleware-Checks now header context tokens =
      with_token-Checks now header context tokens (token_of header) refl

  abbrev end_of : ℕ → String → List Middleware → Context → List MachineToken → Passed
  end_of now header chain context tokens =
      (run_chain env validate_access_token now header chain context tokens).1

  -- Tests of permissions that are passed.
  requiring_passed :
      (now : ℕ) (header : String) (chain : List Middleware) (context last : Context)
      (tokens : List MachineToken) (p : Permission) (permissions : List Permission)
      → only_requiring chain ≡ true
      → requires p chain ≡ true
      → context.permissions ≡ some permissions
      → end_of now header chain context tokens ≡ passed last
      → require_permission p permissions ≡ true
  unfolding run_chain require
  requiring_passed now header [] context last tokens p permissions o r e h = cc
  requiring_passed now header (authenticating ∷ chain) context last tokens p permissions o r e h =
      cc
  requiring_passed now header (requiring q ∷ chain) context last tokens p permissions o r e h =
      let next = λ (c : Context) (ts : List MachineToken).
        run_chain env validate_access_token now header chain c ts in
      let by_permissions = λ (x : Option (List Permission)).
        (then_run env validate_access_token (tokens, permitted q x context) next).1 in
      let by_test = λ (b : Bool).
        (then_run env validate_access_token
          (tokens, if b then passed context else aborted insufficient_permissions) next).1 in
      let seen : by_test (require_permission q permissions) ≡ passed last =
        sym (ap by_permissions e) ∙ h in
      elim (Bool-cases (require_permission q permissions)) [
        | inr no_permission ↦ cc (sym (ap by_test no_permission) ∙ seen)
        | inl permission ↦ elim (Bool-cases (same_permission q p)) [
          | inl same ↦
              subst (λ x. require_permission x permissions ≡ true) (same_permission-eq q p same)
                permission
          | inr other ↦
              requiring_passed now header chain context last tokens p permissions o
                (ground (arith, r, other)) e (sym (ap by_test permission) ∙ seen)
        ]
      ]

  -- What is known behind the middleware for tokens.
  abbrev Behind : ℕ → String → List Middleware → List MachineToken → Context → Type 0
  Behind now header chain tokens last =
      (permissions : List Permission) × HasToken now header tokens permissions
      × ((context : Context) × (ts : List MachineToken) × (context.permissions ≡ some permissions)
          × (end_of now header chain context ts ≡ passed last))

  then_run-Behind :
      (now : ℕ) (header : String) (chain : List Middleware) (tokens : List MachineToken)
      (last : Context) (r : List MachineToken × Passed)
      → Checks now header tokens r.1
      → (then_run env validate_access_token r
          (λ c ts. run_chain env validate_access_token now header chain c ts)).1
        ≡ passed last
      → Behind now header chain tokens last
  then_run-Behind now header chain tokens last (ts, aborted refusal) k h = cc
  then_run-Behind now header chain tokens last (ts, passed context) k h =
      (k.0, k.1, (context, ts, k.2, h))

  authenticating-Behind :
      (now : ℕ) (header : String) (chain : List Middleware) (tokens : List MachineToken)
      (last : Context)
      → end_of now header (authenticating ∷ chain) empty_context tokens ≡ passed last
      → Behind now header chain tokens last
  unfolding run_chain
  authenticating-Behind now header chain tokens last h =
      then_run-Behind now header chain tokens last
        (auth_middleware env validate_access_token now header empty_context tokens)
        (auth_middleware-Checks now header empty_context tokens) h

  guards-Meets :
      (access : Access) (chain : List Middleware) (now : ℕ) (header : String)
      (tokens : List MachineToken)
      → guards access chain ≡ true
      → Reaches now header chain tokens
      → Meets access now header tokens
  unfolding run_chain require
  guards-Meets public chain now header tokens g h = tt
  guards-Meets any_token [] now header tokens g h = cc
  guards-Meets any_token (requiring p ∷ chain) now header tokens g h = cc
  guards-Meets any_token (authenticating ∷ chain) now header tokens g (last, h) =
      let (permissions, has, rest) = authenticating-Behind now header chain tokens last h in
      (permissions, has)
  guards-Meets (needing p) [] now header tokens g h = cc
  guards-Meets (needing p) (requiring q ∷ chain) now header tokens g h = cc
  guards-Meets (needing p) (authenticating ∷ chain) now header tokens g (last, h) =
      let (permissions, has, (context, ts, e, seen)) =
        authenticating-Behind now header chain tokens last h in
      (
        permissions,
        has,
        requiring_passed now header chain context last ts p permissions (ground (arith, g))
            (ground (arith, g)) e seen,
      )
  guards-Meets nobody [] now header tokens g h = cc
  guards-Meets nobody (authenticating ∷ chain) now header tokens g h = cc
  guards-Meets nobody (requiring p ∷ chain) now header tokens g (last, h) = cc h

  -- A request that passes the middleware of a route carries a valid token with the permission
  -- that the route's handler needs: the admin's for the administration of tokens, users, devices,
  -- workflows and the machine's configuration, the technician's for writing registers, the
  -- operator's for all else but logging in, refreshing, the health check and the WebSocket, which
  -- need none, and logging out and asking who one is, which need any token. No request reaches
  -- the WebSocket's status.
  pub routes-Meets :
      (r : Route) (now : ℕ) (header : String) (tokens : List MachineToken)
      → Memᴰ r routes
      → Reaches now header r.chain tokens
      → Meets (access_of r.handler) now header tokens
  routes-Meets r now header tokens m h =
      guards-Meets (access_of r.handler) r.chain now header tokens (routes_guarded r m) h
