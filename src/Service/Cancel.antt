-- ===== src/Service/Cancel.antt =====
-- src/acp_proxy/direct_service.py: admit_cancel, _release_prompt_reservation, and _execute_cancel with
-- the outcomes that the ACP client can give it.
use acp_test.Base.{
  ℕ, ◌-◌, String, Bool, true, false, not, Option, none, some, [], ◌∷◌, ◌==◌, if◌then◌else◌,
}
use acp_test.Dict
use acp_test.Json.{Value, str, bool, obj, fields}
use acp_test.State.{
  conflict, fault, Result, ok, raise_if, or_raise, ◌>>=◌, ◌>>◌, cancel, is_prompt, OperationState,
  accepted, queued, running, cancelling, completed, failed, cancelled, timed_out, in_doubt,
  terminal, ready, non_reusable, OperationRecord,
}
use acp_test.Ledger
use acp_test.Ledger.{Ledger, Candidate}
use acp_test.Protocol.{CancelRequest, Wire, cancels, canonical_request_digest}
use acp_test.Service.{
  execute_cancel, Generation, Service, AcpClient, Host, on_generation, on_session, schedule,
  set_state, set_session_state, settle_record, pop_collector, error_info,
}
use acp_test.Service.Pin.{check_pin, require_current_generation}
use acp_test.Service.Loss.{DeferredSettlement, contains, quarantine_uncertain}

-- _release_prompt_reservation. The counter is an integer in the source, and below zero it raises; here
-- the release of a reservation that is not there raises too.
unfoldable pub release_prompt_reservation : String → Generation → Result Generation
release_prompt_reservation op g = if contains g.released_reservations op then ok g else do
  raise_if (g.prompt_reservations == 0) fault
  ok (record g {
    released_reservations = op ∷ g.released_reservations;
    prompt_reservations = g.prompt_reservations - 1;
  })

abbrev pub cancel_candidate : String → CancelRequest → OperationRecord → Candidate
cancel_candidate digest r target = record {
  digest = digest;
  kind = cancel;
  logical_session_id = target.logical_session_id;
  invocation_id = none;
  target_operation_id = some target.operation_id;
}

-- target.logical_session_id or ""
abbrev pub or_empty : Option String → String
or_empty none = ""
or_empty (some k) = k

-- state.value
abbrev pub state_value : OperationState → String
state_value accepted = "accepted"
state_value queued = "queued"
state_value running = "running"
state_value cancelling = "cancelling"
state_value completed = "completed"
state_value failed = "failed"
state_value cancelled = "cancelled"
state_value timed_out = "timed_out"
state_value in_doubt = "in_doubt"

abbrev pub cancel_result : String → Bool → Option Value
cancel_result state sent =
    some (obj (fields (("target_state", str state) ∷ ("cancel_sent", bool sent) ∷ [])))

abbrev pub cancelled_pre_dispatch : Option Value
cancelled_pre_dispatch = some (obj (fields (("cancelled_pre_dispatch", bool true) ∷ [])))

abbrev pub is_waiting : OperationState → Bool
is_waiting accepted = true
is_waiting queued = true
is_waiting _ = false

-- The target has not been dispatched: it is settled here, its session freed, its reservation released.
-- A session that is missing is a KeyError.
unfoldable pub cancel_waiting : String → OperationRecord → Generation → Result Generation
unfolding settle_record on_session
cancel_waiting op target g = do
  x ← or_raise (Dict.get g.sessions (or_empty target.logical_session_id)) fault
  let settled = settle_record cancelled cancelled_pre_dispatch none target.operation_id g
  let freed =
      on_session (or_empty target.logical_session_id)
        (λ y. record y { active_operation_id = none; state = ready }) settled
  released ← release_prompt_reservation target.operation_id freed
  ok (settle_record completed (cancel_result "cancelled" false) none op released)

-- What a cancellation does once its own record is new.
unfoldable pub cancel_target : String → OperationRecord → Generation → Result Generation
unfolding cancel_waiting set_state schedule
cancel_target op target g =
    if is_waiting target.state
    then cancel_waiting op target g
    else if terminal target.state
    then ok (settle_record completed (cancel_result (state_value target.state) false) none op g)
    else ok (
        schedule (execute_cancel op target.operation_id)
          (set_state cancelling target.operation_id g))

unfoldable pub cancel_in :
    Generation → String → CancelRequest → Result (OperationRecord × Bool × Generation)
cancel_in g digest r = do
  target ← Ledger.get g.ledger r.target_operation_id
  raise_if (not (is_prompt target.kind)) conflict
  (rec, created, l) ← Ledger.admit g.ledger r.operation_id (cancel_candidate digest r target)
  after ← if created then cancel_target r.operation_id target (record g { ledger = l }) else ok g
  now ← Ledger.get after.ledger r.operation_id
  ok (now, created, after)

unfoldable pub admit_cancel :
    Wire → Service → AcpClient → CancelRequest → Result (OperationRecord × Bool × Service)
admit_cancel w s client r = do
  g ← check_pin s client r.protocol_major r.continuity_generation_id
  require_current_generation s g
  (rec, created, gen) ← cancel_in (s.store g) (canonical_request_digest w (cancels r)) r
  ok (rec, created, on_generation s g (λ _. gen))

-- What _execute_cancel meets: the target settles within the grace, it does not, or the client raises.
pub data CancelOutcome : Type 0 where
  target_settled unsettled raised : CancelOutcome

abbrev pub deferred : String → OperationState → Option Value → Option Value → DeferredSettlement
deferred op state result error = record {
  operation_id = op;
  state = state;
  result = result;
  error = error;
}

-- The state that the final settlement reads of the target.
abbrev pub target_value : Option OperationRecord → String
target_value none = ""
target_value (some r) = state_value r.state

unfoldable pub finish_cancel : ℕ → String → String → Service → Service
unfolding settle_record
finish_cancel g op target s = on_generation s g (λ x.
    settle_record completed (cancel_result (target_value (Dict.get x.ledger.records target)) true)
      none op x)

-- The session is the target's, by its key.
unfoldable pub settle_cancel :
    Host → ℕ → String → String → String → CancelOutcome → Service → Service
unfolding finish_cancel on_session pop_collector
settle_cancel host g op target k target_settled s = finish_cancel g op target s
settle_cancel host g op target k unsettled s = finish_cancel g op target (
    quarantine_uncertain host g
      (deferred target in_doubt none (
          error_info "cancellation_settlement_unknown"
            "ACP prompt did not settle after cancellation grace")
        ∷ deferred op completed (cancel_result "in_doubt" true) none
        ∷ [])
      (on_generation s g (λ x. set_session_state non_reusable k (pop_collector target x))))
settle_cancel host g op target k raised s =
    quarantine_uncertain host g
      (deferred target in_doubt none
          (error_info "cancel_transport_failed" "ACP cancellation transport failed")
        ∷ deferred op failed none (error_info "cancel_failed" "ACP cancellation failed")
        ∷ [])
      (on_generation s g (set_session_state non_reusable k))

-- _execute_cancel: its first write, then what follows its awaits.
unfoldable pub begin_cancel : ℕ → String → Service → Service
unfolding set_state
begin_cancel g op s = on_generation s g (set_state running op)
