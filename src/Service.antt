-- ===== src/Service.antt =====
-- src/acp_proxy/direct_service.py: the state of DirectService. Generations are objects with identity:
-- the service holds them in a store, `current` is the reference `self._generation`, and tasks keep
-- the reference that they were given. Sessions and records are shared objects of their generation.
-- The modules below hold the methods, a module for each kind of operation, and the proofs.
pub mod Pin
pub mod Create
pub mod Creation
pub mod Prompt
pub mod Loss
pub mod Retire
pub mod Cancel
pub mod Execute
pub mod Settlement
pub mod Step
pub mod Invariant
pub mod Bounds
pub mod Continuity
pub mod Admitted
pub mod Lifetime
pub mod Frozen
pub mod Cancelled
pub mod Retired
use acp_test.Base.{
  ℕ, suc, ◌+◌, String, Bool, true, false, Option, none, some, List, [], ◌∷◌, ◌==◌, ◌is◌,
  if◌then◌else◌,
}
use acp_test.Dict
use acp_test.Dict.{Dict}
use acp_test.Json.{Value, str, obj, fields}
use acp_test.State.{
  Result, ok, err, OperationRecord, OperationState, set_terminal, DirectSession, SessionState,
}
use acp_test.Ledger.{Ledger}
use acp_test.Ledger
use acp_test.Protocol.{DirectLimits, PromptRequest}

-- A scheduled coroutine, with its record and session by their keys.
pub data Task : Type 0 where
  execute_create : String → String → Task
  execute_prompt : String → String → PromptRequest → Task
  execute_cancel : String → String → Task

-- `prompt_lock` is the operation that holds the lock.
pub record Generation : Type 0 where
  pub generation_id : String
  pub ledger : Ledger
  pub sessions : Dict DirectSession
  pub prompt_lock : Option String
  pub prompt_reservations : ℕ
  pub released_reservations : List String
  pub collector_tasks : List String
  pub execution_tasks : List Task
  pub quarantined : Bool

pub record Service : Type 0 where
  pub canonical_workspace : String
  pub limits : DirectLimits
  pub available : Bool
  pub current : ℕ
  pub store : ℕ → Generation
  pub next_ref : ℕ

-- What the service reads of the ACP client, at the moment of a call.
pub record AcpClient : Type 0 where
  pub models : List String
  pub is_alive : Bool

-- os.path.realpath and the text of a fresh uuid4, by the reference that it is for.
pub record Host : Type 0 where
  pub realpath : String → String
  pub uuid : ℕ → String

abbrev pub new_generation : String → ℕ → Generation
new_generation id max_operations = record {
  generation_id = id;
  ledger = record { max_operations = max_operations; records = Dict.empty };
  sessions = Dict.empty;
  prompt_lock = none;
  prompt_reservations = 0;
  released_reservations = [];
  collector_tasks = [];
  execution_tasks = [];
  quarantined = false;
}

-- A write to the generation that `g` refers to.
abbrev pub on_generation : Service → ℕ → (Generation → Generation) → Service
on_generation s g f = record s { store = λ q. if q == g then f (s.store g) else s.store q }

-- {"code": code, "message": message}
abbrev pub error_info : String → String → Option Value
error_info code message = some (obj (fields (("code", str code) ∷ ("message", str message) ∷ [])))

-- record.state = state
unfoldable pub set_state : OperationState → String → Generation → Generation
set_state state op g = record g {
  ledger = Ledger.update g.ledger op (λ r. record r { state = state });
}

abbrev pub or_same : OperationRecord → Result OperationRecord → OperationRecord
or_same r (ok q) = q
or_same r (err e) = r

-- record.set_terminal(state, result, error), for a state that is terminal
unfoldable pub settle_record :
    OperationState → Option Value → Option Value → String → Generation → Generation
settle_record state result error op g = record g {
  ledger = Ledger.update g.ledger op (λ r. or_same r (set_terminal r state result error));
}

-- A write to the session object.
unfoldable pub on_session : String → (DirectSession → DirectSession) → Generation → Generation
on_session k f g = record g { sessions = Dict.modify g.sessions k f }

abbrev pub set_session_state : SessionState → String → Generation → Generation
unfolding on_session
set_session_state state k = on_session k (λ x. record x { state = state })

unfoldable pub schedule : Task → Generation → Generation
schedule t g = record g { execution_tasks = t ∷ g.execution_tasks }

-- generation.collector_tasks.pop(op, None)
unfoldable pub without : String → List String → List String
without op [] = []
without op (x ∷ xs) = let rest = without op xs in if x is op then rest else x ∷ rest

unfoldable pub pop_collector : String → Generation → Generation
unfolding without
pop_collector op g = record g { collector_tasks = without op g.collector_tasks }
