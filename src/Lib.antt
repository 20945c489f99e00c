-- ===== src/Lib.antt =====
-- Verification of the ACP proxy's direct mode: the part of the proxy that lets a trusted client own
-- sessions of a coding agent, with operations that run at most once and evidence that is bounded.
--
-- The parts, and the files that model them:
--
-- Base, Dict, Json: the shared names, Python's dict with text keys, and JSON values.
-- State, Ledger: src/acp_proxy/direct_state.py. Operation and session records, `set_terminal`, and the
--   ledger (`admit`, `get`, `update`). `done`, an asyncio.Event, is a flag. Ledger/AtMostOnce and
--   Ledger/Capacity hold the proofs.
-- Protocol: src/acp_proxy/direct_protocol.py. Limits, requests, `validate_layers` and digests, with
--   `_render_blocks` of the service. What pydantic, json and hashlib compute is the record `Wire`.
-- Evidence: `_collect_prompt` (Evidence) and `_normalize_result` (Evidence/Result) of
--   src/acp_proxy/direct_service.py. The agent's updates are a list.
-- Service: DirectService of src/acp_proxy/direct_service.py. Generations stand in a store under
--   references, since tasks keep the generation that they were given; sessions and records are shared
--   objects of their generation, found by their keys. Pin, Create, Prompt, Cancel and Retire are the
--   admissions, each with its checks and the body under the state lock; Creation, Execute and Settlement
--   have the tasks, cut at their awaits, with what the agent may answer as data; Loss is
--   mark_generation_lost and _quarantine_uncertain. Step is the relation of all of these as stretches of
--   code between two awaits, in any order that their guards allow; Invariant and its children prove what
--   every step keeps, Frozen and its children that no step changes a terminal record, and Bounds, Continuity,
--   Admitted, Lifetime, Cancelled and Retired what follows.
-- Server: src/acp_proxy/direct_server.py. Authentication, the mapping of errors, the handlers before and
--   after their wait, and (Server/Body) the limit on request bodies.
-- Transport: AcpTransport of src/acp_proxy/transport.py, from the message that has been read to the
--   pending request or handler that it reaches; Transport/Envelope validates it. The pipes and the
--   process are outside.
-- Client: AcpClient of src/acp_proxy/client.py, its coroutines cut at their awaits. Integrity and Updates
--   have the notifications, Stream the queue and the epoch of a prompt, Creation the sessions of
--   `session/new`, Binding the negotiation and the binding of a model, Callbacks the requests of the
--   agent, Messages the text that a prompt sends. Receive runs them over the dispatch of Transport, in
--   any order. Bounds and Receive/Invariant prove the limits; Selection is the choice of a model outside
--   the direct mode; Channel is the abstract view of a prompt's queue that the Follows modules and
--   Receive/Epochs refine.
-- Legacy: the OpenAI-compatible server of src/acp_proxy/server.py. A completion as one response and as a
--   stream (Legacy, Legacy/Agreement), and the sessions of conversations (Legacy/Sessions).
-- Launch: what src/acp_proxy/__main__.py, config.py and copilot_auth.py decide before the agent starts:
--   the run mode, the environment, the system prompt and the prior credential.
-- Discovery: src/acp_proxy/discovery.py. The admission of a binary by its version, and the choice; Probe is
--   the bounded read of its output and the parse of a version; Processes has the candidates that run.
-- Examples: concrete inputs, a run of the service, tests, and an instance of each result.
--
-- How the parts meet: the server calls the service's admissions and reads records; the service checks a
-- request against Protocol, admits it to the Ledger of its generation, and schedules a task; the task's
-- outcome comes from Evidence and is written to the ledger and the session. The transport hands a message to
-- the client, which revokes continuity or fills the queue of a prompt; the service sees what the client yields.
--
-- The read of a probe's output runs on fuel, 258 rounds, which Probe/Loop proves to be enough; `digits` has a
-- digit of fuel for each unit of its number. The other loops are over the list that is read. Timeouts are
-- counted in microseconds; counters are natural numbers, and where the source would go below zero the model
-- raises. Texts are UTF-8 and measured in bytes, but in characters where the source takes `len` of a str. The
-- text of an exception is left out where nothing reads it.
--
-- Not modelled: the processes, pipes, files and signals of the client, the configuration, the command line and
-- the discovery; the handshake of the client; FastAPI's routing and pydantic's field checks; experiments.
pub mod Base
pub mod Dict
pub mod Json
pub mod State
pub mod Ledger
pub mod Protocol
pub mod Evidence
pub mod Service
pub mod Server
pub mod Discovery
pub mod Transport
pub mod Client
pub mod Legacy
pub mod Launch
pub mod Examples
