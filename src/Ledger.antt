-- ===== src/Ledger.antt =====
-- src/acp_proxy/direct_state.py, DirectLedger: the operation ledger of one generation. The proofs are
-- in the modules below.
pub mod AtMostOnce
pub mod Capacity
use acp_test.Base.{
  ℕ, String, Bool, true, false, ◌&&◌, not, Option, none, some, List, leb, ltb, ◌is◌, if◌then◌else◌,
}
use acp_test.Dict
use acp_test.Dict.{Dict}
use acp_test.State.{
  DirectError, conflict, not_found, limit_exceeded, fault, Result, ok, err, or_raise, OperationKind,
  same_kind, accepted, OperationRecord,
}

pub record Ledger : Type 0 where
  pub max_operations : ℕ
  pub records : Dict OperationRecord

-- DirectLedger(max_operations)
unfoldable pub new_ledger : ℕ → Result Ledger
new_ledger max_operations =
    if ltb max_operations 1
    then err fault
    else ok (record { max_operations = max_operations; records = Dict.empty })

abbrev pub same_option : Option String → Option String → Bool
same_option none none = true
same_option (some a) (some b) = a is b
same_option _ _ = false

-- The arguments of admit: what a caller asks to be recorded under an operation ID.
pub record Candidate : Type 0 where
  pub digest : String
  pub kind : OperationKind
  pub logical_session_id : Option String
  pub invocation_id : Option String
  pub target_operation_id : Option String

-- identity == candidate, as tuples
unfoldable pub same_identity : OperationRecord → Candidate → Bool
same_identity r c =
    (r.digest is c.digest)
    && same_kind r.kind c.kind
    && same_option r.logical_session_id c.logical_session_id
    && same_option r.invocation_id c.invocation_id
    && same_option r.target_operation_id c.target_operation_id

abbrev pub new_record : String → Candidate → OperationRecord
new_record operation_id c = record {
  operation_id = operation_id;
  digest = c.digest;
  kind = c.kind;
  logical_session_id = c.logical_session_id;
  invocation_id = c.invocation_id;
  target_operation_id = c.target_operation_id;
  state = accepted;
  result = none;
  error = none;
  done = false;
}

-- The branch for an ID that the ledger does not hold.
unfoldable pub admit_new : Ledger → String → Candidate → Result (OperationRecord × Bool × Ledger)
admit_new l operation_id c =
    if leb l.max_operations (Dict.size l.records)
    then err limit_exceeded
    else ok (
      new_record operation_id c,
      true,
      record l { records = Dict.put l.records operation_id (new_record operation_id c) },
    )

unfoldable pub admit : Ledger → String → Candidate → Result (OperationRecord × Bool × Ledger)
unfolding admit_new
admit l operation_id c = elim (Dict.get l.records operation_id) [
  | some existing ↦ if same_identity existing c then ok (existing, false, l) else err conflict
  | none ↦ admit_new l operation_id c
]

unfoldable pub get : Ledger → String → Result OperationRecord
get l operation_id = or_raise (Dict.get l.records operation_id) not_found

-- A write to the record that the ledger and the tasks share.
unfoldable pub update : Ledger → String → (OperationRecord → OperationRecord) → Ledger
update l operation_id f = record l { records = Dict.modify l.records operation_id f }

unfoldable pub values : Ledger → List OperationRecord
values l = Dict.values l.records
