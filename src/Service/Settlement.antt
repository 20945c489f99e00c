-- ===== src/Service/Settlement.antt =====
-- src/acp_proxy/direct_service.py: what follows the collector of a prompt's task, with _settle_deadline:
-- the settlement of the answer, of an excess of evidence, of a deadline and of an exception.
use acp_test.Base.{ℕ, String, Bool, true, false, none, some, List, [], ◌∷◌, ◌is◌, if◌then◌else◌}
use acp_test.Dict
use acp_test.Json.{Value, Fields}
use acp_test.State.{
  Result, ok, err, OperationState, cancelling, completed, failed, cancelled, timed_out, in_doubt,
  ready, non_reusable, OperationRecord, DirectSession,
}
use acp_test.Protocol.{PromptRequest, Wire, sha256_text, is_initial}
use acp_test.Evidence.{Overflow}
use acp_test.Evidence.Result.{PromptResult, normalize_result}
use acp_test.Service.{
  Generation, Service, AcpClient, Host, on_generation, on_session, set_state, set_session_state,
  settle_record, error_info, pop_collector,
}
use acp_test.Service.Loss.{mark_generation_lost, quarantine_uncertain}
use acp_test.Service.Cancel.{deferred}
use acp_test.Service.Execute.{unlock}

-- What the collector does after the deadline and its cancellation: a stop reason, nothing within the
-- grace, an excess of evidence, or an exception. `cancel_raised` is an exception of the cancellation, which
-- leaves _settle_deadline before its `try`, and says whether the collector is done by then.
pub data DeadlineOutcome : Type 0 where
  stopped : String → DeadlineOutcome
  no_settlement : DeadlineOutcome
  late_overflow : Overflow → DeadlineOutcome
  deadline_raised : DeadlineOutcome
  cancel_raised : Bool → DeadlineOutcome

pub data PromptOutcome : Type 0 where
  answered : List Fields → String → PromptOutcome
  exceeded : Overflow → PromptOutcome
  deadline : DeadlineOutcome → PromptOutcome
  prompt_raised : PromptOutcome

-- The session after a completed prompt.
unfoldable pub advance_session : Wire → PromptRequest → DirectSession → DirectSession
advance_session w r x = record x {
  stable_submitted = if is_initial r.phase then true else x.stable_submitted;
  invocation_contract_digests = elim r.output_contract [
    | none ↦ x.invocation_contract_digests
    | some contract ↦
        Dict.put x.invocation_contract_digests r.invocation_id (sha256_text w contract)
  ];
  active_invocation_id = some r.invocation_id;
  state = ready;
}

abbrev pub is_cancelling : OperationState → Bool
is_cancelling cancelling = true
is_cancelling _ = false

-- The settlement under the lock, for the state that the record has there.
unfoldable pub settle_answer :
    Wire
    → String
    → String
    → PromptRequest
    → OperationState
    → String
    → Value
    → Generation
    → Generation
unfolding settle_record on_session advance_session
settle_answer w op k r state stop_reason result g =
    if is_cancelling state
    then set_session_state non_reusable k (
        if stop_reason is "cancelled"
        then settle_record cancelled (some result) none op g
        else settle_record in_doubt none
            (error_info "cancellation_stop_mismatch" "ACP cancellation did not settle as cancelled")
            op g)
    else if stop_reason is "cancelled"
    then set_session_state non_reusable k (settle_record cancelled (some result) none op g)
    else on_session k (advance_session w r) (settle_record completed (some result) none op g)

-- The handler of EvidenceLimitExceeded; `evidence` is what _overflow_evidence gives.
unfoldable pub settle_overflow :
    Host → (Overflow → Value) → ℕ → String → String → Overflow → Service → Service
unfolding settle_record on_session
settle_overflow host evidence g op k o s =
    if o.settled_cancelled
    then on_generation s g (λ x. set_session_state non_reusable k (
        settle_record failed (some (evidence o))
          (error_info "evidence_limit" "ACP evidence exceeded a negotiated limit") op x))
    else quarantine_uncertain host g
        (deferred op in_doubt (some (evidence o))
            (error_info "evidence_limit_in_doubt" "ACP evidence limit cancellation did not settle")
          ∷ [])
        (on_generation s g (set_session_state non_reusable k))

-- The handler of any other exception.
unfoldable pub settle_uncertain : Host → AcpClient → ℕ → String → String → Service → Service
unfolding on_session
settle_uncertain host client g op k s =
    if client.is_alive
    then quarantine_uncertain host g
        (deferred op in_doubt none (error_info "prompt_in_doubt" "ACP prompt outcome is uncertain")
          ∷ [])
        (on_generation s g (set_session_state non_reusable k))
    else mark_generation_lost host [] s

unfoldable pub deadline_in_doubt : Host → ℕ → String → String → String → Service → Service
deadline_in_doubt host g op code message s =
    quarantine_uncertain host g (deferred op in_doubt none (error_info code message) ∷ []) s

-- The last `finally` block of _settle_deadline; the prompt lock is released next.
abbrev pub end_deadline : ℕ → String → String → Service → Service
unfolding on_session pop_collector
end_deadline g op k s =
    on_generation s g (λ x. unlock (set_session_state non_reusable k (pop_collector op x)))

unfoldable pub settle_stop : Host → ℕ → String → String → Service → Service
unfolding settle_record deadline_in_doubt
settle_stop host g op stop_reason s =
    if stop_reason is "cancelled"
    then on_generation s g
        (settle_record timed_out none (error_info "execution_deadline" "prompt timed out") op)
    else deadline_in_doubt host g op "deadline_stop_mismatch"
        "deadline cancellation did not settle as cancelled" s

-- _settle_deadline
unfoldable pub settle_deadline :
    Host
    → AcpClient
    → (Overflow → Value)
    → ℕ
    → String
    → String
    → DeadlineOutcome
    → Service
    → Service
unfolding settle_stop deadline_in_doubt settle_overflow settle_uncertain end_deadline set_state
    pop_collector
settle_deadline host client evidence g op k (stopped reason) s =
    end_deadline g op k (settle_stop host g op reason (on_generation s g (set_state cancelling op)))
settle_deadline host client evidence g op k no_settlement s = end_deadline g op k (
    deadline_in_doubt host g op "deadline_settlement_unknown"
      "ACP prompt did not settle after cancellation grace"
      (on_generation s g (set_state cancelling op)))
settle_deadline host client evidence g op k (late_overflow o) s =
    settle_overflow host evidence g op k o
      (end_deadline g op k (on_generation s g (set_state cancelling op)))
settle_deadline host client evidence g op k deadline_raised s =
    settle_uncertain host client g op k
      (end_deadline g op k (on_generation s g (set_state cancelling op)))
settle_deadline host client evidence g op k (cancel_raised done) s =
    settle_uncertain host client g op k (
      on_generation (on_generation s g (set_state cancelling op)) g
        (λ x. unlock (if done then pop_collector op x else x)))

-- What the evidence models of pydantic give as JSON, and `str` of a value that is no text.
pub record Dump : Type 0 where
  pub dump_result : PromptResult → Value
  pub overflow_evidence : Overflow → Value
  pub show : Value → String

-- The answer is normalized before the lock is taken; a result that cannot be built is an exception.
unfoldable pub settle_normalized :
    Host
    → AcpClient
    → Wire
    → Dump
    → ℕ
    → String
    → String
    → PromptRequest
    → OperationState
    → String
    → Result PromptResult
    → Service
    → Service
unfolding settle_answer
settle_normalized host client w d g op k r state reason (ok result) s =
    on_generation s g (λ x. unlock (settle_answer w op k r state reason (d.dump_result result) x))
settle_normalized host client w d g op k r state reason (err e) s =
    settle_uncertain host client g op k (on_generation s g unlock)

-- What follows the collector, for the record and the session that the task was given.
unfoldable pub settle_prompt :
    Host
    → AcpClient
    → Wire
    → Dump
    → ℕ
    → String
    → String
    → PromptRequest
    → OperationRecord
    → DirectSession
    → PromptOutcome
    → Service
    → Service
unfolding settle_normalized settle_overflow settle_uncertain settle_deadline pop_collector
settle_prompt host client w d g op k r rec x (answered updates reason) s =
    settle_normalized host client w d g op k r rec.state reason
      (normalize_result d.show (s.store g).generation_id rec x r updates reason)
      (on_generation s g (pop_collector op))
settle_prompt host client w d g op k r rec x (exceeded o) s =
    settle_overflow host d.overflow_evidence g op k o
      (on_generation s g (λ y. unlock (pop_collector op y)))
settle_prompt host client w d g op k r rec x (deadline o) s =
    settle_deadline host client d.overflow_evidence g op k o s
settle_prompt host client w d g op k r rec x prompt_raised s =
    settle_uncertain host client g op k (on_generation s g (λ y. unlock (pop_collector op y)))
