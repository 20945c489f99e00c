-- ===== src/Protocol.antt =====
-- src/acp_proxy/direct_protocol.py: the limits and the requests of the direct protocol. Timeouts, which
-- are floats there, are counted in microseconds. What pydantic and `hashlib` compute is the record
-- `Wire`, an argument of the definitions that use it.
pub mod Layers
use acp_test.Base.{
  ℕ, String, Bool, true, false, ◌&&◌, ◌||◌, not, Option, none, some, List, [], ◌∷◌, ◌is◌,
  if◌then◌else◌,
}
use Prim.Native.String.{◌++◌ as ◌+++◌}
use acp_test.Dict.{is_some}
use acp_test.Json.{Value}
use acp_test.State.{Result, ok, err, fault, or_raise, ◌>>=◌}

abbrev pub direct_protocol_major : ℕ
direct_protocol_major = 1

pub record DirectLimits : Type 0 where
  pub max_request_bytes : ℕ
  pub max_prompt_bytes : ℕ
  pub max_response_bytes : ℕ
  pub max_event_bytes : ℕ
  pub max_event_count : ℕ
  pub max_sessions : ℕ
  pub max_operations : ℕ
  pub max_queued_prompts : ℕ
  pub max_execution_timeout : ℕ
  pub session_creation_timeout : ℕ
  pub cancellation_grace : ℕ

abbrev pub default_limits : DirectLimits
default_limits = record {
  max_request_bytes = 1000000;
  max_prompt_bytes = 500000;
  max_response_bytes = 2000000;
  max_event_bytes = 4000000;
  max_event_count = 4096;
  max_sessions = 64;
  max_operations = 4096;
  max_queued_prompts = 64;
  max_execution_timeout = 600000000;
  session_creation_timeout = 30000000;
  cancellation_grace = 10000000;
}

pub record CreateSessionRequest : Type 0 where
  pub protocol_major : ℕ
  pub continuity_generation_id : String
  pub operation_id : String
  pub logical_session_id : String
  pub expected_canonical_workspace : String
  pub actor_ref : String
  pub title : String
  pub model_id : String
  pub stable_instruction_digest : String

pub data PromptPhase : Type 0 where
  initial invocation correction continuation : PromptPhase

abbrev pub is_initial : PromptPhase → Bool
is_initial initial = true
is_initial _ = false

pub record PromptRequest : Type 0 where
  pub protocol_major : ℕ
  pub continuity_generation_id : String
  pub operation_id : String
  pub invocation_id : String
  pub phase : PromptPhase
  pub stable_instruction_digest : String
  pub output_contract_digest : String
  pub execution_timeout : ℕ
  pub stable_instructions : Option String
  pub prompt : Option String
  pub output_contract : Option String
  pub delta : Option String

pub record CancelRequest : Type 0 where
  pub protocol_major : ℕ
  pub continuity_generation_id : String
  pub operation_id : String
  pub target_operation_id : String

pub record RetireSessionRequest : Type 0 where
  pub protocol_major : ℕ
  pub continuity_generation_id : String
  pub operation_id : String
  pub logical_session_id : String

pub data Request : Type 0 where
  creates : CreateSessionRequest → Request
  prompts : PromptRequest → Request
  cancels : CancelRequest → Request
  retires : RetireSessionRequest → Request

-- pydantic's `model_dump(mode="json")` of a request, `json.dumps` with sorted keys and compact
-- separators, and the hexadecimal SHA-256 of a text's UTF-8 bytes.
pub record Wire : Type 0 where
  pub dump_request : Request → Value
  pub dumps : Value → String
  pub sha256_hex : String → String

unfoldable pub sha256_text : Wire → String → String
sha256_text w value = w.sha256_hex value

unfoldable pub canonical_request_digest : Wire → Request → String
canonical_request_digest w r = w.sha256_hex (w.dumps (w.dump_request r))

-- not value: None and "" are false
abbrev pub is_falsy : Option String → Bool
is_falsy none = true
is_falsy (some s) = s is ""

-- The ValueErrors of validate_layers.
pub data LayerError : Type 0 where
  needs_stable needs_prompt_and_contract forbids_delta : LayerError
  forbids_stable_and_delta needs_delta forbids_layers : LayerError

-- The model validator, clause by clause of the phase; `none` accepts the request.
validate_phase : PromptPhase → PromptRequest → Option LayerError
validate_phase initial r =
    if not (is_some r.stable_instructions)
    then some needs_stable
    else if is_falsy r.prompt || is_falsy r.output_contract
    then some needs_prompt_and_contract
    else if is_some r.delta
    then some forbids_delta
    else none
validate_phase invocation r =
    if is_falsy r.prompt || is_falsy r.output_contract
    then some needs_prompt_and_contract
    else if is_some r.stable_instructions || is_some r.delta
    then some forbids_stable_and_delta
    else none
validate_phase _ r =
    if is_falsy r.delta
    then some needs_delta
    else if is_some r.stable_instructions || is_some r.prompt || is_some r.output_contract
    then some forbids_layers
    else none

unfoldable pub validate_layers : PromptRequest → Option LayerError
unfolding validate_phase
validate_layers r = validate_phase r.phase r

-- DirectService._render_blocks of src/acp_proxy/direct_service.py: the text of its one block. A missing
-- layer fails the assertion.
render_phase : PromptPhase → PromptRequest → Result String
render_phase initial r = do
  stable ← or_raise r.stable_instructions fault
  body ← or_raise r.prompt fault
  contract ← or_raise r.output_contract fault
  ok (stable +++ "\n\n" +++ body +++ "\n\n" +++ contract)
render_phase invocation r = do
  body ← or_raise r.prompt fault
  contract ← or_raise r.output_contract fault
  ok (body +++ "\n\n" +++ contract)
render_phase _ r = or_raise r.delta fault

unfoldable pub render_blocks : PromptRequest → Result String
unfolding render_phase
render_blocks r = render_phase r.phase r
