-- ===== src/Server.antt =====
-- src/acp_proxy/direct_server.py: the HTTP surface of the direct mode. A handler is its part before the
-- wait for the record's signal and its answer after it. FastAPI's routing and the validation of bodies
-- are outside the model, and so is `hmac.compare_digest`, which is an argument: `none` is its TypeError.
pub mod Body
pub mod Routes
use acp_test.Base.{
  ℕ, String, Bool, true, false, not, ◌||◌, Option, none, some, List, [], ◌∷◌, ◌is◌, if◌then◌else◌,
}
use Prim.Native.String.{len, slice}
use text.Mathlib.Text.{starts_with}
use acp_test.Json.{Value, str, int, obj, fields, opt_str, null, is_str}
use acp_test.State.{
  DirectError, conflict, not_found, limit_exceeded, generation_mismatch, workspace_mismatch, busy,
  fault, Result, ok, err, raise_if, ◌>>=◌, ◌>>◌, OperationKind, create, prompt, cancel, retire,
  OperationRecord,
}
use acp_test.Ledger
use acp_test.Protocol.{
  Wire, CreateSessionRequest, PromptRequest, CancelRequest, RetireSessionRequest,
}
use acp_test.Service.{Service, AcpClient, Host}
use acp_test.Service.Pin.{check_pin}
use acp_test.Service.Create.{admit_create}
use acp_test.Service.Prompt.{admit_prompt}
use acp_test.Service.Cancel.{admit_cancel, state_value}
use acp_test.Service.Retire.{admit_retire}

pub record Response : Type 0 where
  pub status_code : ℕ
  pub content : Value

-- _error
unfoldable pub error : ℕ → String → String → Response
error status code message = record {
  status_code = status;
  content =
      obj (
        fields (("error", obj (fields (("code", str code) ∷ ("message", str message) ∷ []))) ∷ []));
}

-- authenticate: `false` is DirectAuthenticationError
abbrev pub supplied : Option String → String
supplied none = ""
supplied (some authorization) =
    if starts_with authorization "Bearer " then slice authorization 7 (len authorization) else ""

unfoldable pub authenticate : (String → String → Option Bool) → String → Option String → Option Bool
authenticate compare_digest launch_secret authorization =
    if supplied authorization is ""
    then some false
    else compare_digest (supplied authorization) launch_secret

-- state_error, for an exception with its text; `none` is an exception that no handler takes. A
-- DirectWorkspaceMismatch is a DirectConflict.
unfoldable pub state_error : DirectError → String → Option Response
unfolding error
state_error not_found message = some (error 404 "not_found" message)
state_error limit_exceeded message = some (error 429 "resource_limit" message)
state_error busy message = some (error 409 "session_busy" message)
state_error generation_mismatch message = some (error 409 "generation_or_protocol_mismatch" message)
state_error conflict message = some (error 409 "conflict" message)
state_error workspace_mismatch message = some (error 409 "conflict" message)
state_error fault message = none

-- kind.value
abbrev pub kind_value : OperationKind → String
kind_value create = "create_session"
kind_value prompt = "prompt"
kind_value cancel = "cancel_request"
kind_value retire = "retire_session"

-- OperationView of src/acp_proxy/direct_protocol.py
pub record OperationView : Type 0 where
  pub operation_id : String
  pub kind : String
  pub state : String
  pub logical_session_id : Option String
  pub invocation_id : Option String
  pub target_operation_id : Option String
  pub result : Option Value
  pub error : Option Value

-- DirectService.operation and operation_view of src/acp_proxy/direct_service.py
unfoldable pub operation : Service → AcpClient → String → ℕ → String → Result OperationRecord
operation s client op major id = do
  g ← check_pin s client major id
  Ledger.get (s.store g).ledger op

unfoldable pub operation_view : OperationRecord → OperationView
operation_view r = record {
  operation_id = r.operation_id;
  kind = kind_value r.kind;
  state = state_value r.state;
  logical_session_id = r.logical_session_id;
  invocation_id = r.invocation_id;
  target_operation_id = r.target_operation_id;
  result = r.result;
  error = r.error;
}

-- The rest of wait_for_operation once the record's event is set; before, it waits.
unfoldable pub waited : OperationRecord → Option OperationView
unfolding operation_view
waited r = if r.done then some (operation_view r) else none

abbrev pub opt_value : Option Value → Value
opt_value none = null
opt_value (some v) = v

-- view.model_dump(mode="json")
abbrev pub dump_view : OperationView → Value
dump_view v = obj (
    fields (
      ("operation_id", str v.operation_id)
      ∷ ("kind", str v.kind)
      ∷ ("state", str v.state)
      ∷ ("logical_session_id", opt_str v.logical_session_id)
      ∷ ("invocation_id", opt_str v.invocation_id)
      ∷ ("target_operation_id", opt_str v.target_operation_id)
      ∷ ("result", opt_value v.result)
      ∷ ("error", opt_value v.error)
      ∷ []))

-- The handlers up to their wait: create_session, submit_prompt, cancel_operation, retire_session.
unfoldable pub create_session :
    Host
    → Wire
    → Service
    → AcpClient
    → CreateSessionRequest
    → Result (OperationRecord × Bool × Service)
create_session host w s client r = admit_create host w s client r

unfoldable pub submit_prompt :
    Wire → Service → AcpClient → String → PromptRequest → Result (OperationRecord × Bool × Service)
submit_prompt w s client k r = admit_prompt w s client k r

unfoldable pub cancel_operation :
    Wire → Service → AcpClient → String → CancelRequest → Result (OperationRecord × Bool × Service)
cancel_operation w s client target r = do
  raise_if (not (r.target_operation_id is target)) conflict
  admit_cancel w s client r

unfoldable pub retire_session :
    Wire
    → Service
    → AcpClient
    → String
    → RetireSessionRequest
    → Result (OperationRecord × Bool × Service)
retire_session w s client k r = do
  raise_if (not (r.logical_session_id is k)) conflict
  admit_retire w s client r

-- operation_status, and the answers of the other handlers after their wait.
unfoldable pub operation_status : Service → AcpClient → ℕ → String → String → Result Response
unfolding operation_view operation
operation_status s client major op id = do
  r ← operation s client op major id
  ok (record { status_code = 200; content = dump_view (operation_view r) })

unfoldable pub answer : OperationView → Response
answer v = record { status_code = 200; content = dump_view v }

unfoldable pub retire_answer : OperationView → Response
retire_answer v = record {
  status_code = if v.state is "completed" then 200 else 409;
  content = dump_view v;
}
