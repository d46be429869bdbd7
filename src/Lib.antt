-- ===== src/Lib.antt =====
-- The control core of the NDT agents: what a run may spend, what is cached for whom, in which order
-- children run, who approves what, and when governed data may be deleted.
--
-- The parts and how they interact. A run of agents is bound to a budget policy and to one
-- `BudgetGuard`: the main graph reports each step, model call, tool call, review round and cache
-- lookup to it, and it counts, reserves, journals and denies. The scheduler takes professional
-- slots from the same guard. The cache answers in place of a model, tool, parser or retrieval; its
-- hits and misses are reported to the guard. Approvals stand between a run and what it may not do on
-- its own: a candidate waits for the decisions that a policy demands, and is resumed once. The records
-- of such decisions are what deletion, legal holds and erasure of governed data ask for.
--
-- Files, with paths from the repository's root:
--   Base, Base/Tests, Base/Lists, Base/Texts: names of the libraries, Boolean tests, lists over native
--   numbers, and tests on texts.
--   Result, Exec, Exec/Triple: functions that may raise, methods that mutate and may raise, and
--   pre- and postconditions of such methods.
--   Dict: Python dictionaries as pairs in insertion order.
--   Budget/Policy and its modules: `Limit` and `BudgetPolicy` of src/ndt_agents/contracts/v1.py,
--   `default_budget_policy` and `elevate_budget_policy` of src/ndt_agents/orchestration/budget.py.
--   Budget/Data, Stage, Journal, Checks, Calls, Tools, Restore: the class `BudgetGuard` of the same
--   file, one definition for each method under the method's name (`_record` is `record_event`,
--   `_raise` is `raise_exceeded`, `professional_slot` is `acquire_slot`, `release_slot` and
--   `with_professional_slot`).
--   Budget/View, View/Checks, View/Calls: the part of a guard that its checks read, and what each
--   check does to it. Budget/Sound and its modules: the invariant and that each method keeps it.
--   Budget/Limits, Denials, Restored, Settlement, Slots: what follows for the guard's users.
--   Cache/Models: src/ndt_agents/cache/models.py. Cache/Backend and Cache/Service: the two classes
--   of src/ndt_agents/cache/service.py. Cache/Runs: sequences of its operations. Cache/Distinct: its
--   keys. Cache/Lookups, Served, Isolation, Counted, Admission, Entry, Invalidation: its theorems.
--   Scheduler/Data: the types of src/ndt_agents/orchestration/scheduler.py, and what it reads of
--   src/ndt_agents/orchestration/child_models.py. Scheduler/Waves, Validation, Outcome, Execution,
--   Intake, Queue: the methods of `TaskScheduler`. Scheduler/Order, Complete, Prerequisites,
--   Terminal, Cancelled, Status: theorems.
--   Approval/Data: the contracts of src/ndt_agents/approval/service.py, and what they use of
--   contracts/v1.py and observability/audit.py. Approval/Journal: `InMemoryApprovalRepository`.
--   Approval/State, Checks, Requests, Service, Flow: the methods of `ApprovalService` (`_state` is
--   `state_of`, `_terminal_system_decision` is `end_by`). Approval/Log and Chain: a log, which the
--   repository is compared with. Approval/View, Writes, Decided, Closed, Opening, Flowing,
--   Entrusted, Granted: what each method writes, and on which conditions. Approval/Moves and Calls:
--   the state machine of its events, and runs of calls. Approval/Reading, Fair, Sound, Unreadable,
--   Runs, Settled, Eyes, Complete: the invariant of its chains, and who stands behind an approved
--   one. Approval/Promises: what follows for those who approve.
--   Lifecycle/Data: the contracts of src/ndt_agents/lifecycle/service.py, and what they use of other
--   contracts. Lifecycle/Guards, Objects, Service, Erasure: the methods of `DataLifecycleService`.
--   Lifecycle/Good, Keeping, Guarded: well-formed objects, and what each method keeps.
--   Lifecycle/Runs, Promises: runs of calls. Lifecycle/Deletion, Erased: single calls.
--   Budget/Tests, Cache/Tests, Scheduler/Tests, Approval/Tests, Lifecycle/Tests: concrete runs.
--
-- How the code is represented. Exceptions are constructors of an error type; an exception leaves
-- the state as far as it was written before the raise. The clock is the sequence of the
-- milliseconds that its calls return, and each call of it is a step. UUIDs that `uuid4` makes are
-- arguments, and a history of calls assumes a fresh one. The SHA-256 of tool arguments is an
-- argument, none where `json.dumps` raises; that of cache values is the function `digest`, of which
-- nothing is assumed. The usage ratios of the degradation stage are fractions: the comparisons of
-- the code's floats agree with them for limits below 10^14. A similarity is counted in units of
-- 2^-53. The approvals' `canonical_sha256` is the function `digest` of what it is applied to, of which
-- nothing is assumed. A preview is the text of its canonical JSON: one for the preview that is given,
-- which is digested, and one for the preview that `model_dump` makes of it, which is stored and is
-- validated whenever it is read; the texts are independent arguments. The clock of the approvals is
-- a sequence of microseconds; the lock of their repository makes each of its methods one step, and
-- a call of the service is taken to run alone.
-- In the lifecycle, SHA-256 and `uuid5` are the functions `digest` and `identify`, and `revokes`
-- says whether a key's revocation returns. Events, codes and stages are constructors in place of
-- strings. There is no loop of unknown length in the budget guard, the cache, the approvals or the
-- lifecycle, so their definitions are by structural recursion.
-- The loop that makes the scheduler's waves takes one unit of fuel a turn, as many as there are
-- contexts, which is enough, since each turn settles one context at least. A child's run, with the
-- professional slot before it, is a function of its context, and so is the digest of its manifest.
--
-- Not modelled: the texts of messages, and of the next actions outside the scheduler's assignments;
-- `asyncio` interleavings inside one method of the guard, which has no suspension point between its
-- check and its write; naive datetimes, where the contracts' validators exclude them; the other
-- packages of src/ndt_agents, which are input and output, provider calls or storage, or are not
-- done yet.
pub mod Base
pub mod Result
pub mod Exec
pub mod Dict
pub mod Budget
pub mod Cache
pub mod Scheduler
pub mod Approval
pub mod Lifecycle
