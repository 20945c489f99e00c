-- ===== src/Examples.antt =====
-- Concrete inputs: a service with one session, its requests, and what its library calls give.
pub mod Records
pub mod Messages
pub mod Clients
pub mod Legacy
pub mod Runs
pub mod Reached
pub mod Parts
use acp_test.Base.{ℕ, String, true, false, none, some, List, [], ◌∷◌}
use acp_test.Dict
use acp_test.Json.{Value, null, str, obj, fields, Fields}
use acp_test.State.{
  OperationRecord, OperationState, OperationKind, accepted, create, prompt, DirectSession,
  SessionState, creating, ready,
}
use acp_test.Ledger.{Ledger, Candidate, new_record}
use acp_test.Protocol.{
  DirectLimits, default_limits, CreateSessionRequest, PromptRequest, CancelRequest,
  RetireSessionRequest, initial, invocation, correction, PromptPhase, Wire, Request, creates,
  prompts, cancels, retires,
}
use acp_test.Service.{Generation, Service, AcpClient, Host, new_generation}
use acp_test.Service.Settlement.{Dump}

abbrev pub host : Host
host = record { realpath = λ p. p; uuid = λ n. "second" }

abbrev pub operation_of : Request → String
operation_of (creates r) = r.operation_id
operation_of (prompts r) = r.operation_id
operation_of (cancels r) = r.operation_id
operation_of (retires r) = r.operation_id

-- A digest that is the text itself.
abbrev pub wire : Wire
wire = record {
  dump_request = λ r. str (operation_of r);
  dumps = λ v. "digest";
  sha256_hex = λ s. s;
}

abbrev pub dump : Dump
dump = record { dump_result = λ r. null; overflow_evidence = λ o. null; show = λ v. "value" }

abbrev pub client : AcpClient
client = record { models = "model" ∷ []; is_alive = true }

abbrev pub create_request : CreateSessionRequest
create_request = record {
  protocol_major = 1;
  continuity_generation_id = "first";
  operation_id = "create";
  logical_session_id = "session";
  expected_canonical_workspace = "/work";
  actor_ref = "actor";
  title = "title";
  model_id = "model";
  stable_instruction_digest = "stable";
}

abbrev pub first_prompt : PromptRequest
first_prompt = record {
  protocol_major = 1;
  continuity_generation_id = "first";
  operation_id = "prompt";
  invocation_id = "invocation";
  phase = initial;
  stable_instruction_digest = "stable";
  output_contract_digest = "contract";
  execution_timeout = 1000;
  stable_instructions = some "stable";
  prompt = some "body";
  output_contract = some "contract";
  delta = none;
}

abbrev pub correction_prompt : PromptRequest
correction_prompt = record first_prompt {
  operation_id = "correction";
  phase = correction;
  stable_instructions = none;
  prompt = none;
  output_contract = none;
  delta = some "again";
}

abbrev pub retire_request : RetireSessionRequest
retire_request = record {
  protocol_major = 1;
  continuity_generation_id = "first";
  operation_id = "retire";
  logical_session_id = "session";
}

abbrev pub session_in : SessionState → DirectSession
session_in state = record {
  logical_session_id = "session";
  actor_ref = "actor";
  title = "title";
  backend_session_id = none;
  model_id = "model";
  stable_instruction_digest = "stable";
  state = state;
  active_operation_id = none;
  stable_submitted = false;
  active_invocation_id = none;
  invocation_contract_digests = Dict.empty;
  backend_close = "unsupported";
}

abbrev pub prompt_of : OperationState → OperationRecord
prompt_of state = record {
  operation_id = "prompt";
  digest = "digest";
  kind = prompt;
  logical_session_id = some "session";
  invocation_id = some "invocation";
  target_operation_id = none;
  state = state;
  result = none;
  error = none;
  done = false;
}

abbrev pub candidate : Candidate
candidate = record {
  digest = "digest";
  kind = prompt;
  logical_session_id = some "session";
  invocation_id = some "invocation";
  target_operation_id = none;
}

abbrev pub empty_ledger : Ledger
empty_ledger = record { max_operations = 2; records = Dict.empty }

-- A generation with one session, and the same with an accepted prompt.
abbrev pub with_session : SessionState → Generation
with_session state = record (new_generation "first" 8) {
  sessions = Dict.put Dict.empty "session" (session_in state);
}

abbrev pub with_prompt : Generation
with_prompt = record (with_session SessionState.busy) {
  ledger = record {
    max_operations = 8;
    records = Dict.put Dict.empty "prompt" (prompt_of accepted);
  };
  prompt_reservations = 1;
}

abbrev pub service_of : Generation → Service
service_of g = record {
  canonical_workspace = "/work";
  limits = default_limits;
  available = true;
  current = 0;
  store = λ q. g;
  next_ref = 1;
}
