-- ===== src/Lib.antt =====
-- Nyra: the state that its services keep and the rules by which they change it.
--
-- The program is a set of services that talk over HTTP and WebSockets. The router takes a request,
-- finds out who speaks (speaker-id), asks the language model for a plan, and has the skills service
-- carry it out, with what the memory service holds in mind; Home Assistant is one of the capabilities.
-- The modules here model the stores and the decisions of those services:
--
--   Base        Boolean tests, the result of code that returns or raises, lists, texts and mappings.
--   Json        the JSON values that payloads and pending states hold.
--   Correlation shared/protocol/ids.py: the check of the identifiers that join a call to its request.
--   Table       a SQLite table with a text key as the list of its rows, and the statements run on it.
--   Capability  the request to a capability and its reply: shared/protocol/capabilities.py,
--               shared/protocol/execution_common.py, shared/protocol/common.py.
--   Jobs        skills/job_store.py (`JobStore`), and with Jobs/Scheduler skills/jobs.py
--               (`JobScheduler`): delayed actions, which are claimed, executed and recovered.
--   Enrollment  router/enrollment.py: the phrase plan (Phrases), `EnrollmentSessionStore` (Sessions)
--               and `EnrollmentService` (Service).
--   Identity    router/speaker_identity.py: the realtime answers of speaker-id (Answers) and the
--               identity that a request gets from them (Resolution).
--   Speakers    speaker-id/identification.py: the scores of the profiles and their classification.
--   Audio       shared/audio_streaming.py: the START message (Metadata) and `AudioStreamRegistry`
--               (Registry).
--   Memory      memory/operational.py over the tables of memory/storage.py: the commands with their
--               idempotency keys (Operational), the resolution of lookups (Resolution), the listing.
--   Semantic    memory/semantic.py (`SemanticMemoryService`): `create_idempotent` (Commands), `confirm`,
--               `supersede` and `delete_idempotent` (Changes), `search` and `list_memories` (Search).
--   WakeWord    router/wake_word_capture.py (`WakeWordCaptureSessionStore`, `WakeWordCaptureService`).
--   Plans       router/plan_execution.py (`RouterPlanExecutor`), router/llm_action_gate.py and the
--               types of shared/protocol/execution.py.
--   Execution   skills/execution.py (`ExecutionPlanExecutor`), and `_validate_graph` of
--               shared/protocol/execution.py: the search for cycles, and the rounds of a plan (Run).
--   HomeAssistant  router/ha_capability.py: `HomeAssistantCapabilityPort.execute`, and `resolve`
--               (Resolve).
--   Lifecycle   router/lifecycle/service.py (`RequestLifecycleService`), router/lifecycle/store.py
--               (`RequestStateStore`), router/lifecycle/models.py and shared/protocol/requests.py: a
--               request's row (Store), the speaker (Identify), the decision (Decide), all of `execute`
--               (Execute).
--
-- State is passed explicitly. A method that runs in one transaction is a function from the tables to its
-- result and the tables that it leaves; what raises is a value of `Result`, and a transaction that
-- raises changes nothing. Where other tasks may run between two statements (the scheduler around a call
-- of a capability, the registry around a call of its sink), the model has steps, or takes what the
-- others did as an argument, and the theorems are about any order of them. The clock, fresh identifiers,
-- SHA-256, Unicode normalisation and case folding, the ports, embeddings
-- and their scores, the capabilities, the HTTP client of Home Assistant, the sink of a stream and the
-- generator of phrases are arguments. Times are microseconds, counts are natural numbers of any size, like
-- Python's.
-- Every loop is over a list or a text, structurally, but two. The search for cycles runs on fuel of one
-- more than the number of steps, which is more than a path without a repeated step can be long; the rounds
-- of a plan run on fuel of the number of steps, of which each round ends one or more. Python's limit of
-- recursion is left out.
--
-- Not modelled: HTTP and WebSocket handlers, asyncio's tasks, locks and timers, SQLite itself, logging,
-- the language model and the audio models, and the configuration.
pub mod Base
pub mod Json
pub mod Table
pub mod Capability
pub mod Correlation
pub mod Jobs
pub mod Enrollment
pub mod Identity
pub mod Audio
pub mod Memory
pub mod WakeWord
pub mod Plans
pub mod Lifecycle
pub mod Execution
pub mod Semantic
pub mod Speakers
pub mod HomeAssistant
