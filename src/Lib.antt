-- ===== src/Lib.antt =====
-- The release control plane of a model service: promotions of a model version arrive, are resolved
-- to a runtime image, approved, and released behind a weighted router, with the whole release
-- state in one object that is written by compare and swap.
--
-- Parts, and the files that model them:
--
-- Backend: the object of the Kubernetes API (a parameter; `IsCas` says what is relied on), the
-- history of its versions, and properties of every step of a history. Backend/Memory is a backend
-- without other writers.
-- Release/Types, Release/Pairs, Release/Events, Release/State and Release/Store:
-- control_plane/state_v2.py. `ServingPair.__post_init__` is `serving_pair`, `parse_event` and
-- `ingest` keep their names, `Store.validate`, `Store.read` and `Store.update` are `validate`,
-- `read` and `update`. A function that mutates a snapshot returns the new snapshot.
-- Release/Authorization and Release/Authorize: control_plane/authorization_v2.py.
-- Release/Stages (the closures that change a snapshot), Release/Controller (lease, guard, claim)
-- and Release/Tick (phases and handlers): control_plane/controller_v2.py. Release/Moves is the
-- step relation of its writes.
-- Release/Processor: control_plane/processor_v2.py. Release/Inbox: control_plane/consumer_v2.py
-- and reconciliation_v2.py. Release/Operator: control_plane/operator_v2.py.
-- Runtime: control_plane/runtime_resolver.py and build_contract.py.
-- Samples: control_plane/policy.py and `assess` of control_plane/controller.py.
-- Traffic: `choose_track` of canary/router.py and `Routing` of control_plane/router.py.
-- Legacy: the first control plane, which releases image digests. control_plane/state.py is
-- Legacy/Candidates, Queue and Store, control_plane/controller.py is Legacy/Effects, Stages (its
-- closures), Controller and Tick, and control_plane/watcher.py is Legacy/Watcher. Legacy/Steps is the
-- step relation of its writes.
-- Serving: control_plane/autoscaling_v2.py (Scaling), kserve_effects.py (Objects, Matching,
-- Effects) and runtime_catalog.py (Rows, Catalog).
-- Service: the model service, src/model_service. model/adapter.py is Service/Artifact, Validation
-- and Adapter, services/inference.py and api/routes are Service/Requests.
-- Canary: canary/evaluator.py, its queries and assessment (Evaluator) and its loop (Run), with a
-- number of turns for the `while`.
-- Prelude: results, actions that may raise, lists, texts and equality. Tests: concrete runs.
--
-- Consumer, reconciler, processor, operator, approver and controller meet only in the store: each
-- hands `update` a mutation. `update` tries 8 times, as the code does, and raises Busy after that, so
-- its recursion needs no other fuel. The evaluator's loop is given a number of turns; one more than
-- the pauses that fit into its duration is enough. All other loops are over lists.
--
-- Times are microseconds, ratios millionths. Numbers from JSON that are not whole and at least 0,
-- and values that Python's typing would have to refuse in the middle of a record, have no place in
-- the typed state: a state read from the store has the shape that the program writes. The clock is a
-- call of the world; where the code reads it behind a short-circuit, the model reads it always.
-- Hashes, JSON and date parsing are parameters (Release/Host), and so are the effects of the
-- controller, the artifact metadata and the catalog that the processor asks.
--
-- Objects of the cluster and of the registry are records of the keys that the code reads, with an
-- option where a key may be missing; joblib, sklearn and the APIs of AWS and Kubernetes are
-- parameters.
--
-- Not modelled: log output and metrics, the HTTP servers and clients, S3 and SQS calls, command
-- lines and the endless loops of the processes, the settings and start-up of the model service,
-- the security reports, and the build and rendering scripts.
pub mod Prelude
pub mod Backend
pub mod Release
pub mod Runtime
pub mod Samples
pub mod Traffic
pub mod Tests
pub mod Service
pub mod Legacy
pub mod Serving
pub mod Canary
