-- ===== src/Service/Frozen/Deadlines.antt =====
-- src/acp_proxy/direct_service.py: the settlement of a prompt and of its cancellation leave every terminal
-- record of every generation as it is.
use acp_test.Base.{ℕ, String, ◌≡◌, refl, true, false, none, some, ◌is◌, if◌then◌else◌, if_both}
use acp_test.Dict
use acp_test.Json.{Value}
use acp_test.Evidence.{Overflow}
use acp_test.Evidence.Result.{PromptResult}
use acp_test.State.{
  OperationRecord, terminal, DirectSession, Result, ok, err, completed, timed_out, cancelling,
  non_reusable,
}
use acp_test.Protocol.{PromptRequest, Wire}
use acp_test.Service.{
  Generation, Service, AcpClient, Host, on_generation, settle_record, on_session, set_session_state,
  set_state, pop_collector, error_info,
}
use acp_test.Service.Loss.{quarantine_uncertain}
use acp_test.Service.Cancel.{
  CancelOutcome, target_settled, unsettled, raised, settle_cancel, finish_cancel, cancel_result,
  target_value,
}
use acp_test.Service.Execute.{unlock}
use acp_test.Service.Settlement.{
  Dump, PromptOutcome, answered, exceeded, deadline, prompt_raised, DeadlineOutcome, stopped,
  no_settlement, late_overflow, deadline_raised, cancel_raised, settle_prompt, settle_deadline,
  settle_stop, end_deadline, deadline_in_doubt, settle_normalized, settle_answer,
}
use acp_test.Service.Frozen.{same-Frozen, Frozen-trans, settle_record-Frozen, set_state-Frozen}
use acp_test.Service.Frozen.Tasks.{
  Keeps, Keeps-trans, on_generation-Keeps, quiet-Keeps, quarantine_uncertain-Keeps, doubt-Keeps,
  settle_overflow-Keeps, settle_uncertain-Keeps, settle_answer-Frozen,
}

module _ (host : Host) (client : AcpClient) (g : ℕ) (op k : String) where
  end_deadline-Keeps : (s : Service) → Keeps s (end_deadline g op k s)
  unfolding on_session pop_collector
  end_deadline-Keeps s =
      quiet-Keeps s g (λ x. unlock (set_session_state non_reusable k (pop_collector op x)))
        (λ x. refl)

  settle_stop-Keeps : (reason : String) (s : Service) → Keeps s (settle_stop host g op reason s)
  unfolding settle_stop deadline_in_doubt
  settle_stop-Keeps reason s =
      let limit = error_info "execution_deadline" "prompt timed out" in
      if_both (Keeps s) (reason is "cancelled")
        (on_generation-Keeps s g (settle_record timed_out none limit op)
          (settle_record-Frozen timed_out none limit op (s.store g)))
        (quarantine_uncertain-Keeps host g _ s)

  -- The record of a deadline is not terminal yet.
  settle_deadline-Keeps :
      (evidence : Overflow → Value) (outcome : DeadlineOutcome) (s : Service)
      → ((r : OperationRecord)
          → Dict.get (s.store g).ledger.records op ≡ some r
          → terminal r.state ≡ false)
      → Keeps s (settle_deadline host client evidence g op k outcome s)
  unfolding settle_deadline deadline_in_doubt pop_collector
  settle_deadline-Keeps evidence outcome s live = ways outcome
    where
      asked : Service
      asked = on_generation s g (set_state cancelling op)

      first : Keeps s asked
      first =
          on_generation-Keeps s g (set_state cancelling op)
            (set_state-Frozen cancelling op (s.store g) live)

      then_end : (t : Service) → Keeps s t → Keeps s (end_deadline g op k t)
      then_end t h = Keeps-trans s t (end_deadline g op k t) h (end_deadline-Keeps t)

      ways : (o : DeadlineOutcome) → Keeps s (settle_deadline host client evidence g op k o s)
      ways (stopped reason) =
          then_end (settle_stop host g op reason asked)
            (Keeps-trans s asked _ first (settle_stop-Keeps reason asked))
      ways no_settlement =
          then_end _ (Keeps-trans s asked _ first (quarantine_uncertain-Keeps host g _ asked))
      ways (late_overflow o) =
          Keeps-trans s (end_deadline g op k asked) _ (then_end asked first)
            (settle_overflow-Keeps host evidence g op k o _)
      ways deadline_raised =
          Keeps-trans s (end_deadline g op k asked) _ (then_end asked first)
            (settle_uncertain-Keeps host client g op k _)
      ways (cancel_raised done) = Keeps-trans s asked _ first (
          Keeps-trans asked
            (on_generation asked g (λ x. unlock (if done then pop_collector op x else x))) _
            (quiet-Keeps asked g (λ x. unlock (if done then pop_collector op x else x))
              (λ x. if_both (λ (y : Generation). y.ledger ≡ x.ledger) done refl refl))
            (settle_uncertain-Keeps host client g op k _))

  normalized-Keeps :
      (w : Wire) (d : Dump) (r : PromptRequest) (rec : OperationRecord) (reason : String)
      (result : Result PromptResult) (s : Service)
      → Keeps s (settle_normalized host client w d g op k r rec.state reason result s)
  unfolding settle_normalized
  normalized-Keeps w d r rec reason (ok result) s =
      on_generation-Keeps s g
        (λ x. unlock (settle_answer w op k r rec.state reason (d.dump_result result) x))
        (Frozen-trans (s.store g)
          (settle_answer w op k r rec.state reason (d.dump_result result) (s.store g)) _
          (settle_answer-Frozen w op k r rec.state reason (d.dump_result result) (s.store g))
          (same-Frozen _ _ refl))
  normalized-Keeps w d r rec reason (err e) s =
      Keeps-trans s (on_generation s g unlock) _ (quiet-Keeps s g unlock (λ x. refl))
        (settle_uncertain-Keeps host client g op k _)

  pub settle_prompt-Keeps :
      (w : Wire) (d : Dump) (r : PromptRequest) (rec : OperationRecord) (x : DirectSession)
      (outcome : PromptOutcome) (s : Service)
      → ((q : OperationRecord)
          → Dict.get (s.store g).ledger.records op ≡ some q
          → terminal q.state ≡ false)
      → Keeps s (settle_prompt host client w d g op k r rec x outcome s)
  unfolding settle_prompt pop_collector
  settle_prompt-Keeps w d r rec x (answered updates reason) s live =
      Keeps-trans s (on_generation s g (pop_collector op)) _
        (quiet-Keeps s g (pop_collector op) (λ y. refl)) (normalized-Keeps w d r rec reason _ _)
  settle_prompt-Keeps w d r rec x (exceeded o) s live =
      Keeps-trans s (on_generation s g (λ y. unlock (pop_collector op y))) _
        (quiet-Keeps s g (λ y. unlock (pop_collector op y)) (λ y. refl))
        (settle_overflow-Keeps host d.overflow_evidence g op k o _)
  settle_prompt-Keeps w d r rec x (deadline o) s live =
      settle_deadline-Keeps d.overflow_evidence o s live
  settle_prompt-Keeps w d r rec x prompt_raised s live =
      Keeps-trans s (on_generation s g (λ y. unlock (pop_collector op y))) _
        (quiet-Keeps s g (λ y. unlock (pop_collector op y)) (λ y. refl))
        (settle_uncertain-Keeps host client g op k _)

finish_cancel-Keeps :
    (g : ℕ) (op target : String) (s : Service) → Keeps s (finish_cancel g op target s)
unfolding finish_cancel
finish_cancel-Keeps g op target s =
    on_generation-Keeps s g
      (λ x.
        settle_record completed
          (cancel_result (target_value (Dict.get x.ledger.records target)) true) none op x)
      (settle_record-Frozen completed
        (cancel_result (target_value (Dict.get (s.store g).ledger.records target)) true) none op
        (s.store g))

pub settle_cancel-Keeps :
    (host : Host) (g : ℕ) (op target k : String) (outcome : CancelOutcome) (s : Service)
    → Keeps s (settle_cancel host g op target k outcome s)
unfolding settle_cancel on_session pop_collector
settle_cancel-Keeps host g op target k target_settled s = finish_cancel-Keeps g op target s
settle_cancel-Keeps host g op target k unsettled s =
    let spoilt =
      on_generation s g (λ x. set_session_state non_reusable k (pop_collector target x)) in
    Keeps-trans s spoilt _
      (quiet-Keeps s g (λ x. set_session_state non_reusable k (pop_collector target x)) (λ x. refl))
      (Keeps-trans spoilt (quarantine_uncertain host g _ spoilt) _
        (quarantine_uncertain-Keeps host g _ spoilt) (finish_cancel-Keeps g op target _))
settle_cancel-Keeps host g op target k raised s = doubt-Keeps host g _ k s
