-- ===== src/Lib.antt =====
-- A verification library for nexus-workflow, a BPMN workflow engine in TypeScript.
--
-- The repository is a monorepo. Its core is the package nexus-workflow-core: process definitions and
-- the state of a running instance (src/model), the four gateways (src/gateways) and the execution
-- engine (src/engine/ExecutionEngine.ts), a function `execute` from a definition, a command and a
-- state to a new state and events. The service nexus-workflow-app stores states and events, fires
-- timers and offers the commands over HTTP; nexus-erp and nexus-workflow-console are its clients.
-- This library models the core with its in-memory adapters, and of the service the throttle of failed
-- sign-ins.
--
-- Files, and the code each is about (paths from nexus-workflow-core/src):
--   Common              the array, map, set and string operations of TypeScript that the code uses.
--                       A `Map` is the list of its entries in the order of insertion (Common/Dict).
--   Model/Types         model/types.ts, variables, scopes, tokens, instances, join states
--   Model/Elements      model/types.ts, the elements of a definition
--   Model/Events        interfaces/EventBus.ts, `ExecutionEvent`
--   Model/Errors        model/errors.ts: `EngineError` has a constructor for each `throw`; `Outcome` is
--                       a result, an error, or a loop that has run out of fuel
--   Gateways            gateways/*.ts, one module for each gateway
--   Engine/State        `EngineState`, `EngineResult`, `ExecuteOptions`, the fields and the constructor
--                       of the class `ExecutionContext`
--   Engine/Monad        `Exec`: code that works on a context and may throw
--   Engine/Context, Scopes, Records
--                       the methods of `ExecutionContext`
--   Engine/Definition   the searches: findElementInTree, findFlowsBySource, findInclusiveJoinIncoming, ...
--   Engine/Moves, Boundaries, SubProcess, Compensation, MultiInstance, GatewayHandlers, Handlers
--                       moveTokenToFlow, advanceToken, suspendToken and the handlers of the elements;
--                       `processToken` is Handlers.process_token
--   Engine/Loop         runLoop
--   Engine/InstanceCommands, TaskCommands, EventCommands, Commands
--                       the handlers of the commands, and `execute`
--   Engine/Changes      the effects of the context's methods as a step relation, and for every function
--                       of the engine its sequences of such steps
--   Engine/Weights      bounds on the tokens that each function of the engine puts into the queue
--   Engine/Safety, Engine/Administration, and the modules below Gateways and the engine's parts
--                       the theorems
--   Store               adapters/InMemoryStateStore.ts, and the types of model/types.ts that only the store
--                       holds: State (types and fields), Operations, Transactions (executeTransaction),
--                       Queries (the reads by a filter)
--   History             engine/deriveHistory.ts, with the size of a JSON text as a parameter
--   Adapters            adapters/InMemoryScheduler.ts and adapters/InMemoryEventBus.ts, all methods, and
--                       below each what holds of its runs
--   App/LoginThrottle   nexus-workflow-app/src/auth/LoginThrottle.ts (a path from the root): the table of
--                       entries, its operations, and below it the theorems
--   Tests               definitions, runs of `execute`, and the theorems at concrete inputs
--
-- Names are the source's, in lower case with underscores. A function of several parts is several
-- definitions, named for what each part does. A field that may be `undefined` is an `Option`; a truth
-- test of an optional text is `truthy`, which is false for the empty text as in the source. An element
-- has the fields of its own kind only; where the source reads a field through a cast, the helper gives
-- `false` or `none` for the kinds that do not have it.
--
-- Numbers are natural numbers: times are milliseconds, which the source compares and subtracts. The
-- duration of an instance is an integer (ℤ), since the clock may go back.
--
-- Fuel: `execute` (the loop over the queue of tokens) takes fuel, since a definition may have a cycle
-- of gateways, and so do the three walks to the outermost scope, `resolve` of the engine, `chain_from`
-- of the history and `get_scope_chain` of the store, since the scopes of a stored state may have a
-- cycle of parents. A walk takes as much fuel as there are scopes, that of the history one more. A run
-- that is out of fuel is `loops`, which is neither a result nor an error.
--
-- Parameters: `generateId` and `now` answer their n-th call by a function of n, and `evaluate`, the
-- expression evaluator (a sandbox of node:vm), is any function that may throw. Nothing is assumed of
-- them. A throw ends the command, and the context with it, as in the source.
--
-- The throttle's operations take the answers of the clock that they read as arguments, and an attempt in
-- flight is known by its key and its time, as in the source's closure. `Infinity` is `none`.
--
-- The store's methods are asynchronous but never wait, so each is one step. An operation that throws
-- has changed the store before it in place, so a transaction returns the store also when it throws.
-- What a read returns is not shared with the store.
--
-- A function that is handed to the scheduler or the event bus is known by a number, a wrapper that the
-- bus makes is a new one each time, and what a method calls is part of its result; such a function
-- does not call back. The scheduler's state has the pending calls of `setTimeout`.
--
-- Not modelled: the PostgreSQL store, the BPMN parser (over a third-party XML parser), the evaluator,
-- the rest of the service, the clients and the scripts.
pub mod Common
pub mod Model
pub mod Gateways
pub mod Engine
pub mod Store
pub mod History
pub mod Adapters
pub mod App
pub mod Tests
