-- ===== src/Service/Loss.antt =====
-- src/acp_proxy/direct_service.py: mark_generation_lost and _quarantine_uncertain. The tasks that the
-- source cancels run their `finally` blocks later, which are steps of their own. What `abort` of the
-- ACP client does is outside the service: the settlements follow it whether or not it raises.
use acp_test.Base.{
  ℕ, suc, String, Bool, true, false, ◌&&◌, not, Option, none, List, [], ◌∷◌, any, ◌is◌, ◌==◌,
  if◌then◌else◌,
}
use acp_test.Dict
use acp_test.Json.{Value}
use acp_test.State.{
  OperationState, terminal, in_doubt, lost, is_retired, OperationRecord, settle, DirectSession,
}
use acp_test.Service.{
  Generation, Service, Host, new_generation, on_generation, error_info, settle_record,
}

-- _DeferredSettlement: the record by its operation ID.
pub record DeferredSettlement : Type 0 where
  pub operation_id : String
  pub state : OperationState
  pub result : Option Value
  pub error : Option Value

abbrev pub deferred_ids : List DeferredSettlement → List String
deferred_ids [] = []
deferred_ids (d ∷ ds) = d.operation_id ∷ deferred_ids ds

abbrev pub contains : List String → String → Bool
contains l op = any (λ x. x is op) l

abbrev pub lose_session : DirectSession → DirectSession
lose_session x = if is_retired x.state then x else record x { state = lost }

abbrev pub lose_record : List String → String → OperationRecord → OperationRecord
lose_record defer op r =
    if not (contains defer op) && not (terminal r.state)
    then settle in_doubt none (error_info "continuity_lost" "ACP continuity generation was lost") r
    else r

-- What the loss writes to the old generation.
unfoldable pub quarantine : List String → Generation → Generation
quarantine defer g = record g {
  quarantined = true;
  sessions = Dict.modify_all g.sessions (λ k. lose_session);
  ledger = record g.ledger { records = Dict.modify_all g.ledger.records (lose_record defer) };
  collector_tasks = [];
}

-- The store after the loss: the old generation written to, and a new one at a fresh reference.
abbrev pub replaced : Host → Service → List String → ℕ → Generation
replaced host s defer q =
    if q == s.next_ref
    then new_generation (host.uuid s.next_ref) s.limits.max_operations
    else if q == s.current
    then quarantine defer (s.store s.current)
    else s.store q

unfoldable pub mark_generation_lost : Host → List String → Service → Service
mark_generation_lost host defer s = if not s.available then s else record s {
  store = replaced host s defer;
  current = s.next_ref;
  next_ref = suc s.next_ref;
  available = false;
}

unfoldable pub settle_all : List DeferredSettlement → Generation → Generation
settle_all [] g = g
settle_all (d ∷ ds) g = settle_all ds (settle_record d.state d.result d.error d.operation_id g)

-- The settlements' records belong to the generation `g`.
unfoldable pub quarantine_uncertain : Host → ℕ → List DeferredSettlement → Service → Service
unfolding mark_generation_lost settle_all
quarantine_uncertain host g ds s =
    on_generation (mark_generation_lost host (deferred_ids ds) s) g (settle_all ds)
