-- ===== src/Lib.antt =====
-- OpenMachineCore controls a machine: it reads and writes devices over Modbus TCP, executes workflows
-- of steps on them, and drives the machine's states by workflows. These files model that core as
-- functions and prove what it promises.
--
-- The parts, and the files that model them:
--   * Prelude and its children: numbers, lists, bytes as Go's slices and encoding/binary treat them,
--     `Outcome` for a function that returns a value and an error and may panic, maps keyed by strings
--     and uuids, and Prelude.Channels, Go's buffered channels that a select sends to.
--   * Types: internal/types/device.go and composition.go, the profiles and modules. float64 is the
--     record `Float64` of the operations used, a parameter of all that computes with it.
--   * Modbus.Frame (internal/modbus/frame.go: Encode, DecodeFrame, the requests,
--     ParseRegisterResponse), Modbus.Client (client.go), Modbus.Device (device.go) and Modbus.Poller
--     (poller.go). What answers on a connection is a function from the bytes written to what is
--     received, any function where nothing else is said; `serve` of Modbus.Client.Server is a slave
--     that follows the Modbus specification.
--   * Devices.Composer: internal/devices/composer.go. Reading a module file is a parameter.
--   * Devices.Manager: internal/devices/loader.go and manager.go, and the loop of loadDevicesFromDB of
--     internal/system/lifecycle.go. The files, the JSON schema and decoder are the record `Files`; a
--     new uuid and the socket that a dial gives are arguments.
--   * Machine: internal/machine/controller.go and states.go. A command runs up to its call of the
--     engine (`begin`), a goroutine from one wait to the next (`run_thread`); Machine.Schedule
--     interleaves them by a list of events, each one critical section, so that a theorem about all
--     lists is one about all schedules.
--   * Workflow.Definition (internal/workflow/definition/types.go), Workflow.Validator
--     (internal/workflow/validator.go), Workflow.Operations and
--     Workflow.Executor (executor/executor.go), Workflow.Engine
--     (engine/engine.go: the tracker, runExecution, executeStep; in Workflow.Engine.Running all
--     executions with ExecuteWorkflow and CancelExecution) and Workflow.Streaming
--     (streaming/streamer.go). The storage, the JSON decoder and the uuid library are the record
--     `Env`, functions of their arguments: the stored definitions do not change while a workflow is
--     validated, and, where a theorem speaks of both, between validation and execution.
--   * Auth: internal/auth/service.go (LoginUser, RefreshAccessToken, RevokeRefreshToken,
--     roleToPermissions) and the statements on users and refresh tokens of internal/storage/auth.go;
--     Auth.Tokens (internal/auth/machine_token.go and the machine tokens of service.go and storage),
--     Auth.Users (creating, listing, updating and deleting users) and Auth.Middleware
--     (internal/auth/middleware.go). argon2, JWT and sha256 are the record `AuthEnv`. Auth.Races takes
--     two calls apart into their statements.
--   * System: internal/system/state.go and lifecycle.go. A method is the list of its critical sections
--     and of the calls that may fail; System.Schedule interleaves them by a list of events, and
--     System.Calls runs calls one after the other.
--   * Websocket: internal/api/websocket/hub.go, client.go and messages.go. A step is a turn of the hub,
--     of a client's readPump or of its writePump.
--   * Rest.Routes: the routes and middleware of internal/api/rest/server.go; Rest.Accounts: the
--     handlers of internal/api/rest/auth.go, from a decoded body to the status of the answer;
--     Rest.Workflows: those of stored workflows in internal/api/rest/workflows.go, with the
--     statements of internal/storage/workflow.go.
--   * Examples: concrete inputs.
--
-- How they interact: the poller and the executor call the device, the device the client, the client
-- the frames. The engine executes a workflow's steps through the executor, which runs subworkflows
-- by itself. The machine controller starts executions and polls their status; the validator looks at
-- the stored workflows before any of this. The lifecycle loads the stored compositions into the
-- manager, starts its pollers, and stops all at an update and at shutdown; its status goes to the
-- listeners' channels, the machine's and the workflows' events to the hub and the streamer. The
-- routes pass the authentication's middleware before their handlers.
--
-- Fuel: the validator's walk and the executor recurse on workflows that refer to each other. `walk`
-- and `execute` take fuel for the nesting and return `none` without it. For the walk more fuel than
-- there are stored workflows is enough (Workflow.Validator.Walk.Total); for the executor as much as
-- there are workflows in the order that a valid report gives (Workflow.Executor.Ends). System.Calls
-- runs a method's actions with `most_actions` turns, which is enough for every call. All other loops
-- are over lists.
--
-- Widths: uint8 and uint16 are written with their remainders; int is unbounded where its values are
-- list positions or end in a uint16.
--
-- The database: the constraints of its schema are part of the statements, foreign keys included. A
-- write of an execution fails when its context is done, a statement of a handler of accounts where an
-- argument says so; the other statements answer, those that log an authentication event included.
--
-- Not modelled: time (deadlines and tickers; an expired deadline is one of the things that a peer or
-- a wait can do), logging, SQL, HTTP and gRPC, JSON, password hashing, the handlers of the other
-- routes and the gRPC services.
pub mod Prelude
pub mod Modbus
pub mod Types
pub mod Machine
pub mod System
pub mod Workflow
pub mod Devices
pub mod Auth
pub mod Websocket
pub mod Rest
pub mod Examples
