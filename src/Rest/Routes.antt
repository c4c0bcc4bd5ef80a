-- ===== src/Rest/Routes.antt =====
-- internal/api/rest/server.go: the routes, each with the middleware that its group and it add, in the
-- order in which gin runs them. Logging and the headers of CORS change nothing here.
use open_machine_core.Prelude.{ℕ, String, List, [], ◌∷◌, ◌++◌, Option}
use open_machine_core.Auth.{Permission, perm_operator, perm_technician, perm_admin, AuthEnv}
use open_machine_core.Auth.Tokens.{MachineToken}
use open_machine_core.Auth.Middleware.{
  Claims, Context, Passed, aborted, passed, require, auth_middleware,
}

pub data Method : Type 0 where
  get post put patch delete : Method

pub data Handler : Type 0 where
  health_check : Handler
  login refresh_token logout get_current_user : Handler
  create_machine_token list_machine_tokens update_machine_token delete_machine_token : Handler
  create_user list_users update_user delete_user : Handler
  get_system_status trigger_update shutdown : Handler
  list_devices get_device read_register create_device delete_device write_register : Handler
  list_workflows get_workflow execute_workflow validate_workflow : Handler
  create_workflow update_workflow delete_workflow activate_workflow : Handler
  get_execution_status get_execution_steps cancel_execution : Handler
  list_modules get_vendor_modules get_module : Handler
  get_machine_status execute_machine_command configure_machine_workflows : Handler
  ws_live_connection ws_status : Handler

pub data Middleware : Type 0 where
  authenticating : Middleware
  requiring : Permission → Middleware

pub record Route : Type 0 where
  pub method : Method
  pub path : String
  pub chain : List Middleware
  pub handler : Handler

abbrev pub route : Method → String → List Middleware → Handler → Route
route method path chain handler = record {
  method = method;
  path = path;
  chain = chain;
  handler = handler;
}

abbrev authenticated : List Middleware
authenticated = authenticating ∷ []

abbrev with_permission : Permission → List Middleware
with_permission p = authenticating ∷ requiring p ∷ []

unfoldable pub auth_routes : List Route
auth_routes =
    route post "/api/v1/auth/login" [] login
    ∷ route post "/api/v1/auth/refresh" [] refresh_token
    ∷ route post "/api/v1/auth/logout" authenticated logout
    ∷ route get "/api/v1/auth/me" authenticated get_current_user
    ∷ []

unfoldable pub administration_routes : List Route
administration_routes =
    let admin = with_permission perm_admin in
    route post "/api/v1/machine-tokens" admin create_machine_token
    ∷ route get "/api/v1/machine-tokens" admin list_machine_tokens
    ∷ route patch "/api/v1/machine-tokens/:id" admin update_machine_token
    ∷ route delete "/api/v1/machine-tokens/:id" admin delete_machine_token
    ∷ route post "/api/v1/users" admin create_user
    ∷ route get "/api/v1/users" admin list_users
    ∷ route patch "/api/v1/users/:id" admin update_user
    ∷ route delete "/api/v1/users/:id" admin delete_user
    ∷ []

unfoldable pub system_routes : List Route
system_routes =
    let operator = with_permission perm_operator in
    route get "/api/v1/system/status" operator get_system_status
    ∷ route post "/api/v1/system/update" operator trigger_update
    ∷ route post "/api/v1/system/shutdown" operator shutdown
    ∷ []

unfoldable pub device_routes : List Route
device_routes =
    let operator = with_permission perm_operator in
    let admin = with_permission perm_admin in
    route get "/api/v1/devices" operator list_devices
    ∷ route get "/api/v1/devices/:id" operator get_device
    ∷ route post "/api/v1/devices/:id/read" operator read_register
    ∷ route post "/api/v1/devices" admin create_device
    ∷ route delete "/api/v1/devices/:id" admin delete_device
    ∷ route post "/api/v1/devices/:id/write" (with_permission perm_technician) write_register
    ∷ []

unfoldable pub workflow_routes : List Route
workflow_routes =
    let operator = with_permission perm_operator in
    let admin = with_permission perm_admin in
    route get "/api/v1/workflows" operator list_workflows
    ∷ route get "/api/v1/workflows/:id" operator get_workflow
    ∷ route post "/api/v1/workflows/:id/execute" operator execute_workflow
    ∷ route post "/api/v1/workflows/:id/validate" operator validate_workflow
    ∷ route post "/api/v1/workflows" admin create_workflow
    ∷ route put "/api/v1/workflows/:id" admin update_workflow
    ∷ route delete "/api/v1/workflows/:id" admin delete_workflow
    ∷ route post "/api/v1/workflows/:id/activate" admin activate_workflow
    ∷ route get "/api/v1/executions/:id" operator get_execution_status
    ∷ route get "/api/v1/executions/:id/steps" operator get_execution_steps
    ∷ route post "/api/v1/executions/:id/cancel" operator cancel_execution
    ∷ []

unfoldable pub machine_routes : List Route
machine_routes =
    let operator = with_permission perm_operator in
    route get "/api/v1/modules" operator list_modules
    ∷ route get "/api/v1/modules/:vendor" operator get_vendor_modules
    ∷ route get "/api/v1/modules/:vendor/:model" operator get_module
    ∷ route get "/api/v1/machine/status" operator get_machine_status
    ∷ route post "/api/v1/machine/command" operator execute_machine_command
    ∷ route post "/api/v1/machine/configure" (operator ++ requiring perm_admin ∷ [])
        configure_machine_workflows
    ∷ []

unfoldable pub ws_routes : List Route
ws_routes =
    route get "/api/v1/ws/live" [] ws_live_connection
    ∷ route get "/api/v1/ws/status" (requiring perm_operator ∷ []) ws_status
    ∷ []

unfoldable pub routes : List Route
unfolding auth_routes administration_routes system_routes device_routes workflow_routes
    machine_routes ws_routes
routes =
    route get "/health" [] health_check
    ∷ (auth_routes
        ++ (administration_routes
            ++ (system_routes
                ++ (device_routes ++ (workflow_routes ++ (machine_routes ++ ws_routes))))))

module _ (env : AuthEnv) (validate_access_token : String → Option Claims) where
  abbrev pub then_run :
      List MachineToken × Passed
      → (Context → List MachineToken → List MachineToken × Passed)
      → List MachineToken × Passed
  then_run (tokens, aborted refusal) next = (tokens, aborted refusal)
  then_run (tokens, passed context) next = next context tokens

  -- The middleware of a route, up to its handler.
  unfoldable pub run_chain :
      ℕ → String → List Middleware → Context → List MachineToken → List MachineToken × Passed
  unfolding auth_middleware require
  run_chain now header [] context tokens = (tokens, passed context)
  run_chain now header (authenticating ∷ chain) context tokens =
      then_run (auth_middleware env validate_access_token now header context tokens)
        (λ c ts. run_chain now header chain c ts)
  run_chain now header (requiring p ∷ chain) context tokens =
      then_run (tokens, require p context) (λ c ts. run_chain now header chain c ts)
