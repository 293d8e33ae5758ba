-- ===== src/Lib.antt =====
-- nakama-agones: a fleet manager for Nakama that keeps game servers running on Agones, admits
-- pairs of players to rooms on them, and survives the loss of controllers, of answers and of
-- servers. This library models its control plane, pkg/fleetmanager with internal/state and
-- internal/provider, its Kubernetes client, internal/agones, and the parts of its console,
-- internal/console, that decide.
--
-- The program's parts. One durable state (internal/state/state.go) holds the game servers
-- (workers), the rooms (allocations) and the commands for the servers' agents. Everything that
-- changes it is a function handed to Store.Update: the requests of the game
-- (pkg/fleetmanager/manager.go, policy.go), the control loop and the records of the provider's
-- answers (lifecycle.go), and the HTTP handlers of the agents (http.go). Controllers share the
-- state and exclude each other by a lease in it.
--
-- State: the records of internal/state, with the program's string constants as enumerations
-- (State.Phases) and the reported metrics with their validation (State.Telemetry: timing.go,
-- validMetrics). Provider: internal/provider/provider.go.
--
-- Manager: the configuration, and Tx, the copy of the state that a transaction works on. Users,
-- Allocations, Policy, Instances, Admission, Requests, Create and Startup follow manager.go and
-- policy.go: validUsers, allocation, cancel, reserve, UpdatePolicy, newWorker, beginDrain,
-- eligible, Allocate, Cancel, Join, Update, Delete, Drain, Create and the transaction of New.
-- Tickets models token.go and Assignment, Listing models Get, List and the count that Policy
-- reports.
--
-- Lifecycle: Tick's transaction is tick_update, whose loops are in Sweep, Collect, Place and
-- Scale; Lease, Instances (start), Reconcile, Poll, Stop and Notify hold the transactions around
-- the provider's calls, each given the answer as an argument; Callbacks is deliverCallbacks.
-- Agent: bootstrapHTTP and heartbeatHTTP, in Reports, Results and Rooms.
--
-- Fleet: every transaction of the program as one data type, Memory.Update (commit or roll back),
-- and a fleet's history as the list of its transactions in the order of their commits. Safety: the
-- effect of each transaction on the rooms of a worker and of a user, from which Fleet.History
-- draws the invariants. The theorems about one component stand beside it (Manager.Idempotence,
-- Manager.Bounds, Manager.Passes, Manager.Signing, Manager.Ownership, Lifecycle.Exclusion with
-- Lifecycle.Holding, Lifecycle.Progress, Lifecycle.Schedule, Agent.Replay, Agent.Repeat with
-- Agent.Heard, Agent.Backoff). Tests holds a concrete fleet and the theorems at its states.
--
-- Agones: internal/agones/client.go, the provider that Nakama's fleet manager calls. Requests has
-- the errors of HTTP answers and the retried requests, Quantities the comparison of Kubernetes
-- quantities, Objects what desired asks for, Identifiers the names, Matching the tests of
-- ownership and of sameness, Calls and Secrets the requests with what they check of the answers,
-- and Listing, Stopping and Starting are List, Stop and Start. The API server is a type of states
-- with a function for each request, from a state to an answer and the next state; the theorems
-- hold of every such server, whatever it answers. Variables has what startRequest of
-- pkg/fleetmanager/lifecycle.go and validateServerEnvironment of config.go let into a game
-- server's environment. The proofs are in Pages, Resolving, Deleting, Creating and Reserved.
--
-- Console: internal/console. Names has the patterns of names, Values the decoded JSON values
-- (mutually recursive with their lists) with number, mapObject, textField and objects, Errors the
-- codes. Alerts follows alerts.go: Samples is alertSamples, Conditions and Evaluate are evaluate
-- with the transaction after the answer of the chat service, Update is update and view; save of
-- operations_file.go is an outcome: nothing was written, all was written, or it was published and
-- then an error was returned. Histories and Reached speak of the sightings of a condition in any
-- order of evaluations, deliveries and changes. Auth follows auth.go and api_token.go, in
-- Passwords, Sessions and Logins. Retirement.Check is CheckNodeRetirement and validRetirementIPs
-- of retirement.go, and Safe what a node found eligible is known to satisfy.
--
-- How the code is read. A function handed to Store.Update is a function from Tx to a result or an
-- error; its panics on nil pointers are the error `panic`, and errors made by fmt.Errorf are
-- `invalid`. A Go map is an association list, and a loop over a map visits the keys in the list's
-- order: since the theorems hold of every list, they hold of every order; where a function is
-- called twice, the second call is given the table in another order, as Go visits it in a new
-- order each time. A write through a pointer into a map is a write to the table; where two names
-- share an entry the later read is from the table. Times are Unix seconds in natural numbers, and
-- a subtraction of times is moved to the other side of its comparison. Counters (int64, uint64)
-- are natural numbers without an upper bound; they grow by one at a time. Doubles are exact
-- multiples of 2^-1074 with infinities and NaN, and are only compared.
--
-- Parameters (Manager.Runtime): the identifiers that id() draws from crypto/rand, in order, with
-- their distinctness as a hypothesis where it matters; strconv.ParseFloat, time.Parse,
-- multiplication and Ceil; HMAC-SHA256 and base64. For the console: the arithmetic of doubles,
-- random bytes, SHA-256, PBKDF2 and base64, the parsing of addresses, and what the cluster
-- answers. For the client: the API server and the encoding of JSON texts. The fingerprint that New
-- computes and the answers of the provider are arguments. Loops are structural recursions over
-- lists; `digits` has the number itself plus one as fuel, which is more than its decimal digits.
-- List asks for at most 100 pages, a bound of the code itself.
--
-- Not modelled: HTTP, JSON and SQL; the composition of Tick with its network calls; the HTTP
-- transport and the configuration of the client (internal/agones/config.go); of the console, the
-- routing, the projections of cluster objects (source.go, api_v1.go), enrollment, the control
-- socket, the opening of the operations file and the handler that posts a retirement; the commands
-- (cmd).
mod Prelude
pub mod State
pub mod Provider
pub mod Manager
pub mod Lifecycle
pub mod Agent
pub mod Safety
pub mod Fleet
pub mod Console
pub mod Agones
mod Tests
