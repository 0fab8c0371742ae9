-- ===== src/Lib.antt =====
-- The Python services of ForgeAI: the workflow engine and its worker, the capabilities and the
-- model router that its stages run on, the API's services and guards around it, analytics,
-- integrations, prompts, and the memory of decisions and events.
--
-- The program's parts and how they interact
-- -----------------------------------------
-- A definition of a workflow (stages with dependencies) is checked when it is loaded and kept in
-- a catalog. The executor creates an execution of it, a row for each stage, and drives it: a
-- worker claims an entry of the queue, starts the execution, and calls `advance`, which reaps
-- timed-out stages, runs those that are ready through a stage runner, retries, asks for approval,
-- and ends the workflow, with a rollback if it fails. Every status changes through the state
-- manager alone, which checks the state machine's tables, writes the columns, an event row and,
-- at the end, a metric row, and publishes the event to the bus.
--
-- The stage runner for real work is the one of the capability registry (the worker's main and the
-- API still hand over the one that fails every stage): it reads a stage's reference `id@version`,
-- and the capability executor checks permissions and the input, calls the implementation, and
-- checks its output. A prompt-driven implementation renders a template and asks the model router,
-- which tries models in order, with retries, and records what a success costs. The API puts guards
-- before the executor: the bearer token, the role in the project's organization, and whether an
-- execution is the project's; its services commit what the executor did, and turn some of its
-- exceptions into errors of the API. Analytics reads the tables that the executor and the router
-- write.
--
-- Which file models which part
-- ----------------------------
-- services/workflow_engine/src/forgeai_workflow_engine/ is Engine:
--   exceptions.py        Engine/Errors.antt      the exceptions, `Result`
--   state_machine.py     Engine/StateMachine.antt, with the two classes in StateMachine/Workflow
--                        and StateMachine/Stage
--   definition.py        Engine/Definition.antt, and parse_version in Engine/Version.antt
--   loader.py            `load_from_dict` and `load_from_json` of Engine/Definition.antt
--   registry.py          Engine/Registry.antt
--   registration.py      Engine/Registration.antt
--   dependency_graph.py  Engine/Graph.antt
--   retry_engine.py, timeout_engine.py, approval_engine.py   Engine/Decisions.antt
--   event_bus.py         Engine/EventBus.antt
--   queue.py             Engine/Queue.antt
--   state_manager.py     Engine/StateManager.antt
--   executor.py          Engine/Executor/Plan (what is read first), Control (create, submit, start,
--                        pause, resume, cancel, skip), Stages (run, complete, fail, roll back),
--                        Reap (timeouts), Advance (one tick), Approval (resolve_approval)
--   runner.py            the records of Engine/Session/Actions.antt; the reference runners are
--                        Engine/Runner.antt
-- services/core/src/forgeai_core/: workflow_enums.py is Core/Enums.antt, policies.py is
-- Core/Policies.antt, the tables of models/workflow*.py are Engine/Session/Rows.antt.
-- apps/worker/src/forgeai_worker/loop.py is Worker.antt.
-- services/memory_engine/src/forgeai_memory_engine: decisions.py is Memory.antt, events.py is
-- Memory/Events.antt.
-- services/capability_registry/src/forgeai_capability_registry/ is Capability, a file for each:
-- Errors, Permissions, Definition (with loader.py), Registry, Executor (with sdk.py), StageRunner (the
-- references in StageRunner/Reference), and Prompted for ai_capability.py.
-- services/model_router/src/forgeai_model_router/ is Models: Profile (profile.py, types.py,
-- exceptions.py), Registry, Mock (provider.py), Router (with recorder.py), Persistence.
-- services/prompts/src/forgeai_prompts/ is Prompts; services/integrations/src/forgeai_integrations/ is
-- Integrations; services/analytics/src/forgeai_analytics/ is Analytics, with the calculators in
-- Analytics/Calculators.antt and the registry that lists them in Analytics/Defaults.antt.
-- apps/api/src/forgeai_api/ is Api: modules/workflows in Workflows (reads and checks) and
-- Workflows/Requests (the methods of WorkflowService), dependencies/rbac.py in Access,
-- core/security.py, dependencies/auth.py and modules/auth in Accounts, modules/organizations in
-- Accounts/Organizations, and the routers of both modules in Routes.
-- A function keeps its name, with the name of its class added where two packages have the same
-- one; `self._x` loses the underscore. The other files hold proofs: Engine/Evolution says how the
-- tables may change, one rule for each way to build a call (Rules), for the writes of a
-- transition (Moves), the state manager (Transitions), the executor (Operations, Ticks,
-- Approvals), and any sequence of calls (Script). Engine/Queue/Turns has workers that take turns
-- at the queue. Common has the helpers, Tests the examples.
--
-- How the state is modelled
-- -------------------------
-- A call of the other packages is an `Outcome`, returned or raised. A registry is a dict, a table
-- a list of rows, and a method takes and gives back what it changes. A `Session` of the API is
-- the engine's tables as the request sees them and as they were last committed.
--
-- The database session is the record `Store`, one list for each table, in insertion order; an
-- `Action` takes it to a result and a new one. What was written before an exception stays written:
-- a rollback of the transaction is the caller's. Ids are numbers, given out upwards. A row object
-- that the code keeps at hand is the row of its id, read where the code reads the attribute. JSON
-- values are texts. A datetime or a time span is a number of microseconds.
--
-- The record `World` holds what lies outside: the clock, whose readings may be any numbers, the
-- stage runner, which may return or raise anything at each call, the event handlers, which may
-- raise, float arithmetic, and Python's table of digits beyond ASCII. Theorems hold for every
-- world, unless they name what they assume of it. A float is its bit pattern, and no law of
-- floats is assumed but the one that `backoff_capped` names. `has_timed_out` compares exact
-- microseconds, where the code compares a float of seconds: below 2 ** 33 seconds the two agree,
-- since a float there is less than a microsecond from the next. `SKIP LOCKED` is the argument
-- `locked`, the ids of the rows that other transactions hold; of queue entries that tie, the
-- first is taken.
--
-- Bounds and fuel
-- ---------------
-- Two loops are on fuel. The one of `topological_levels` has the number of stages: each round
-- removes one at least. The one of the router over the attempts at a model has one more than the
-- policy has retries, where its counter ends it. Running out is an error of its own, and it is
-- proved that it does not happen. All other loops go through a list. Python's numbers are
-- unbounded, so there is no overflow but that of floats and dates, which is an error of the
-- parameter. `int` refuses more than 4300 digits.
--
-- What is not modelled
-- --------------------
-- Pydantic's conversion of raw data; writes of other sessions between two statements, but for the
-- locks of the queue; relationships of tables; the cause of an exception; the loop around
-- `run_iteration`; settings, logging, the formatting of errors as JSON and FastAPI's own
-- conversions; the migrations and the web application. JSON Schema validation, model providers,
-- NUMERIC columns, argon2, PyJWT, the HTTP client, `string.Formatter` and JSON parsers are
-- parameters.
pub mod Common
pub mod Core
pub mod Engine
pub mod Worker
pub mod Memory
pub mod Capability
pub mod Models
pub mod Api
pub mod Integrations
pub mod Analytics
pub mod Prompts
pub mod Tests
