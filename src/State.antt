-- ===== src/State.antt =====
-- src/acp_proxy/direct_state.py: the states, the operation record and the session record of direct
-- mode. `done`, an `asyncio.Event`, is the flag that `wait()` waits for. `Result` is the outcome of a
-- method that may raise; `DirectError` names the exception classes, of this file and of
-- src/acp_proxy/direct_service.py, without their message texts.
use acp_test.Base.{String, ◌≡◌, refl, Bool, true, false, Option, none, some}
use acp_test.Dict.{Dict}
use acp_test.Json.{Value}

-- `fault` is an exception outside the protocol's own: KeyError, AssertionError, RuntimeError.
pub data DirectError : Type 0 where
  conflict : DirectError
  not_found : DirectError
  limit_exceeded : DirectError
  generation_mismatch : DirectError
  workspace_mismatch : DirectError
  busy : DirectError
  fault : DirectError

pub data Result {ℓ} (A : Type ℓ) : Type ℓ where
  err : DirectError → Result A
  ok : A → Result A

-- if test: raise e
abbrev pub raise_if : Bool → DirectError → Result (Unit {0})
raise_if true e = err e
raise_if false e = ok tt

infixl 5 ◌>>◌ ◌>>=◌
abbrev pub ◌>>=◌ {ℓ κ} : {A : Type ℓ} {B : Type κ} → Result A → (A → Result B) → Result B
err e >>= next = err e
ok a >>= next = next a

-- d[key], where KeyError is turned into `e`
abbrev pub or_raise {ℓ} : {A : Type ℓ} → Option A → DirectError → Result A
or_raise none e = err e
or_raise (some a) e = ok a

-- A check before the rest.
abbrev pub ◌>>◌ {ℓ} : {A : Type ℓ} → Result (Unit {0}) → Result A → Result A
check >> rest = check >>= λ _. rest

pub data OperationKind : Type 0 where
  create prompt cancel retire : OperationKind

pub data OperationState : Type 0 where
  accepted queued running cancelling completed failed cancelled timed_out in_doubt : OperationState

abbrev pub terminal : OperationState → Bool
terminal completed = true
terminal failed = true
terminal cancelled = true
terminal timed_out = true
terminal in_doubt = true
terminal _ = false

pub data SessionState : Type 0 where
  creating ready busy non_reusable lost retired : SessionState

abbrev pub is_ready : SessionState → Bool
is_ready ready = true
is_ready _ = false

abbrev pub is_busy : SessionState → Bool
is_busy SessionState.busy = true
is_busy _ = false

abbrev pub is_retired : SessionState → Bool
is_retired retired = true
is_retired _ = false

abbrev pub is_prompt : OperationKind → Bool
is_prompt prompt = true
is_prompt _ = false

abbrev pub same_kind : OperationKind → OperationKind → Bool
same_kind create create = true
same_kind prompt prompt = true
same_kind cancel cancel = true
same_kind retire retire = true
same_kind _ _ = false

pub record OperationRecord : Type 0 where
  pub operation_id : String
  pub digest : String
  pub kind : OperationKind
  pub logical_session_id : Option String
  pub invocation_id : Option String
  pub target_operation_id : Option String
  pub state : OperationState
  pub result : Option Value
  pub error : Option Value
  pub done : Bool

-- The write that set_terminal makes once its two tests have passed.
abbrev pub settle : OperationState → Option Value → Option Value → OperationRecord → OperationRecord
settle state result error r = record r {
  state = state;
  result = result;
  error = error;
  done = true;
}

-- A state that is not terminal raises ValueError, and then nothing is written.
unfoldable pub set_terminal :
    OperationRecord → OperationState → Option Value → Option Value → Result OperationRecord
set_terminal r state result error = elim (terminal state) [
  | false ↦ err fault
  | true ↦ elim (terminal r.state) [ true ↦ ok r | false ↦ ok (settle state result error r) ]
]

pub record DirectSession : Type 0 where
  pub logical_session_id : String
  pub actor_ref : String
  pub title : String
  pub backend_session_id : Option String
  pub model_id : String
  pub stable_instruction_digest : String
  pub state : SessionState
  pub active_operation_id : Option String
  pub stable_submitted : Bool
  pub active_invocation_id : Option String
  pub invocation_contract_digests : Dict String
  pub backend_close : String

-- A chain that succeeds has a first step that succeeds.
pub >>=-eq-ok {ℓ κ} :
    {A : Type ℓ} {B : Type κ} (first : Result A) (next : A → Result B) {y : B}
    → (first >>= next) ≡ ok y
    → (x : A) × (first ≡ ok x) × (next x ≡ ok y)
>>=-eq-ok (err e) next h = cc
>>=-eq-ok (ok x) next h = (x, refl, h)
