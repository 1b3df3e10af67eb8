-- ===== src/Lib.antt =====
-- The verification library of Codex Gate, a local gateway that routes tasks to Codex models and
-- guards their execution.
--
-- Router models app/router.py. Types has the tables of the policy and the catalog's models, Effort
-- the effort literals and their stages, Catalog the reading of entries and recommendations (_catalog,
-- _family_for, _normalized_task_class, _recommendation), Ladder _ladder, Policy _candidate,
-- _scale_hold_reason and _downgrade_policy, Draft the early holds of route_preview, Choice its
-- choice of a model (the Ultra branch, the rounds over AVAILABLE and LIMITED candidates, the
-- recommended model itself), Preview _result and route_preview. An early return of route_preview is
-- a Draft, which `result` completes. The account's state, which a request states, is classified by
-- Account: account_state_details_from_snapshot of app/storage.py.
--
-- Canary models the one-shot execution capabilities of app/storage.py. Rows has the rows of the
-- tables codex_process_canary_windows, codex_canary_execution_permits and
-- codex_canary_execution_claims, Tx the connection with its commit and rollback, Binding the sealed
-- binding and its checks, Windows, Permits, Claims and Executor the calls under their names in the
-- source, Reads the calls that only read. Ops lists the calls that write, and `run` makes any sequence
-- of them. Steps has the writes as step relations; Calls and Histories carry a property that every
-- write keeps over to every call and every sequence. Outcome says what is known at either end of a
-- block. Spent, Replay and Once are about a claim, Lives and Reserve about what follows it, Single
-- about the ARMED rows, Rollback about the calls that raise after a write because a binding has changed.
--
-- Egress models the sealed egress path: Contract the checks of app/egress_contract.py, Broker the
-- in-memory broker and relay of app/egress_broker.py and app/egress_relay.py; their theorems are in
-- Headers, Relayed and Single. Arms models the one-time arms of the egress harness (Table) and the
-- execution windows that issue and consume arms too (Windows, with its branches in Windows.Branches),
-- and Plans the uses of a route plan and the usage thresholds, all of app/storage.py. Ledger models
-- app/token_ledger.py: Records the token counts and measures, Compare compare_records, Report the
-- comparisons and the summary of build_report; a rate is a fraction, which the source rounds.
--
-- Json has JSON values, is_permission_subset of app/protocol.py (Values, Paths) and
-- find_forbidden_root_reference of app/policy.py (Forbidden; Occurrence is about its search in one
-- text, Texts about its search in a payload). Gateway models the life of a run in app/gateway.py. Run has
-- the records Run and Approval, Action the state and exceptions of a handler with its calls to the app
-- server and the store (save_task, record_ledger_run, write_artifact, the use of a plan), each of which
-- may fail; Budget has _handle_item, _handle_changes and _enforce,
-- Approvals the requests, the answers, the expiry and the disconnect (disconnect_run for one run,
-- handle_disconnect for the loop over all), Events handle_event. Steps has the
-- event loop: resolve_approval awaits the app server in the middle, so its two halves are two
-- steps, between which any other may come; the other handlers are one step each, although an interrupt
-- awaits the app server too. Action.Keeps and Events.Frames carry a predicate through the handlers;
-- Budget.Within and Events.Budgeted are about the limits, Steps.Settled, Once, Answered, Resolve and
-- Closed about approvals. Start has _validate_route_plan. validate_project_file, which resolves paths on the file system, and the
-- protocol's lists of decisions are parameters (Env), and so are the configured roots.
--
-- Entries of a model list are typed as Store.router_models builds them, which is what both callers of
-- route_preview pass. casefold and upper act on ASCII letters. Messages are constructors with the
-- values that they show. Counts and percentages are natural numbers. Times are numbers of
-- microseconds. What the source draws at random, and the time, are arguments. SHA-256 and the check
-- of a UUID are parameters (Hashes), and so are the rows of other tables (Surroundings). The payload
-- of a claim is taken to be in step with its columns. Every loop is a recursion on a list, so there
-- is no fuel.
--
-- Not modelled: the processes that are started, WSL, HTTP and the file system, which are
-- outside the pure logic; and, as yet, the gateway's plans, subscribers and snapshots, the text fields and the
-- totals of the token ledger, the construction of the egress contract, and the tables that only record results.
pub mod Prelude
pub mod Account
pub mod Router
pub mod Canary
pub mod Egress
pub mod Plans
pub mod Json
pub mod Gateway
pub mod Ledger
pub mod Arms
