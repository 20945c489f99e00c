-- ===== src/Service/Invariant/Deadlines.antt =====
-- src/acp_proxy/direct_service.py: _settle_deadline, the outcome of a prompt and the outcome of a
-- cancellation keep the invariant of the service, on every branch.
use acp_test.Base.{
  ℕ, String, ◌≡◌, refl, sym, subst, ap, ◌∙◌, Bool, true, false, none, some, arith, ◌is◌,
  if◌then◌else◌,
}
use acp_test.Dict
use acp_test.State.{
  terminal, ok, err, Result, OperationRecord, DirectSession, cancelling, timed_out, completed,
  non_reusable, cancel,
}
use acp_test.Json.{Value}
use acp_test.Protocol.{Wire, PromptRequest}
use acp_test.Evidence.{Overflow}
use acp_test.Evidence.Result.{PromptResult}
use acp_test.Service.{
  Generation, Service, AcpClient, Host, on_generation, set_state, settle_record, set_session_state,
  pop_collector, error_info, on_session,
}
use acp_test.Service.Loss.{contains}
use acp_test.Service.Step.{record_at}
use acp_test.Service.Cancel.{
  CancelOutcome, target_settled, unsettled, raised, settle_cancel, finish_cancel, cancel_result,
  target_value,
}
use acp_test.Service.Execute.{unlock}
use acp_test.Service.Settlement.{
  Dump, PromptOutcome, answered, exceeded, deadline, prompt_raised, DeadlineOutcome, stopped,
  no_settlement, late_overflow, deadline_raised, cancel_raised, settle_prompt, settle_deadline,
  deadline_in_doubt, end_deadline, settle_normalized, settle_answer,
}
use acp_test.Service.Invariant.{IsSound, collected_at}
use acp_test.Service.Invariant.Records.{
  settle_record-IsSound, set_state-IsSound, pop_collector-IsSound, contains-without,
}
use acp_test.Service.Invariant.Tasks.{
  plain_uncollected, mark_session-IsSound, settle_answer-IsSound, lock-IsSound,
}
use acp_test.Service.Invariant.Reservation.{clash}
use acp_test.Service.Invariant.Store.{
  IsSafe, on_generation-IsSafe, quarantine_uncertain-IsSafe, on_generation-fuse,
  store-on_generation, uncertain_quarantined,
}
use acp_test.Service.Invariant.Settlements.{
  settle_overflow-IsSafe, settle_uncertain-IsSafe, doubt-IsSafe,
}

-- The collector of `op` is gone, so its record may be settled.
popped :
    (op : String) (g : Generation)
    → (pop_collector op g).quarantined ≡ false
    → contains (pop_collector op g).collector_tasks op ≡ false
unfolding pop_collector
popped op g live = contains-without op g.collector_tasks

popped_in :
    (op : String) (s : Service) (g : ℕ) (f : Generation → Generation)
    → ((x : Generation) → (f x).collector_tasks ≡ (pop_collector op x).collector_tasks)
    → ((on_generation s g f).store g).quarantined ≡ false
    → contains ((on_generation s g f).store g).collector_tasks op ≡ false
unfolding pop_collector
popped_in op s g f same live =
    subst (λ (x : Generation). contains x.collector_tasks op ≡ false)
      (sym (store-on_generation s g f))
      (subst (λ l. contains l op ≡ false) (sym (same (s.store g)))
        (contains-without op (s.store g).collector_tasks))

end-IsSafe : (op k : String) (s : Service) (g : ℕ) → IsSafe s → IsSafe (end_deadline g op k s)
unfolding on_session pop_collector
end-IsSafe op k s g v =
    on_generation-IsSafe s g (λ x. unlock (set_session_state non_reusable k (pop_collector op x))) v
      (λ u. lock-IsSound s.limits _ none (
        mark_session-IsSound s.limits _ non_reusable k
          (pop_collector-IsSound s.limits (s.store g) op u)))

module _ (host : Host) (client : AcpClient) (op k : String) (s : Service) (a : s.available ≡ true)
    (v : IsSafe s) (runs : collected_at (record_at s op) ≡ true) where
  live_record : (r : OperationRecord) → record_at s op ≡ some r → terminal r.state ≡ false
  live_record r h = ground (arith, runs)

  cancelling-IsSound : IsSound s.limits (set_state cancelling op (s.store s.current))
  cancelling-IsSound =
      set_state-IsSound s.limits (s.store s.current) op (v.sound s.current) cancelling refl
        live_record (λ l c. refl)

  asked-IsSafe : IsSafe (on_generation s s.current (set_state cancelling op))
  asked-IsSafe =
      on_generation-IsSafe s s.current (set_state cancelling op) v (λ u. cancelling-IsSound)

  abbrev timed : Generation → Generation
  timed = settle_record timed_out none (error_info "execution_deadline" "prompt timed out") op

  -- The three writes of a deadline that ACP acknowledges.
  timed-IsSafe : IsSafe (
      end_deadline s.current op k
        (on_generation (on_generation s s.current (set_state cancelling op)) s.current timed))
  unfolding on_session pop_collector
  timed-IsSafe =
      subst IsSafe
        (sym (
          ap (end_deadline s.current op k)
            (on_generation-fuse s s.current (set_state cancelling op) timed)
          ∙ on_generation-fuse s s.current (λ x. timed (set_state cancelling op x))
              (λ x. unlock (set_session_state non_reusable k (pop_collector op x)))))
        (on_generation-IsSafe s s.current
          (λ x. unlock (
            set_session_state non_reusable k
              (pop_collector op (timed (set_state cancelling op x)))))
          v
          (λ u.
            unfold settle_record set_state in
            lock-IsSound s.limits _ none (
              settle_record-IsSound s.limits
                (set_session_state non_reusable k
                  (pop_collector op (set_state cancelling op (s.store s.current))))
                op
                (mark_session-IsSound s.limits _ non_reusable k
                  (pop_collector-IsSound s.limits _ op cancelling-IsSound))
                timed_out none (error_info "execution_deadline" "prompt timed out")
                (popped op (s.store s.current)))))

  settle_deadline-IsSafe :
      (evidence : Overflow → Value) (o : DeadlineOutcome)
      → IsSafe (settle_deadline host client evidence s.current op k o s)
  unfolding settle_deadline
  settle_deadline-IsSafe evidence (stopped reason) =
      ended (reason is "cancelled")
        (on_generation (on_generation s s.current (set_state cancelling op)) s.current timed)
        (deadline_in_doubt host s.current op "deadline_stop_mismatch"
          "deadline cancellation did not settle as cancelled"
          (on_generation s s.current (set_state cancelling op)))
        timed-IsSafe
        (end-IsSafe op k _ s.current (quarantine_uncertain-IsSafe host _ _ a asked-IsSafe))
    where
      ended :
          (b : Bool) (t u : Service)
          → IsSafe (end_deadline s.current op k t)
          → IsSafe (end_deadline s.current op k u)
          → IsSafe (end_deadline s.current op k (if b then t else u))
      ended true t u v w = v
      ended false t u v w = w
  settle_deadline-IsSafe evidence no_settlement =
      end-IsSafe op k _ s.current (quarantine_uncertain-IsSafe host _ _ a asked-IsSafe)
  settle_deadline-IsSafe evidence (late_overflow o) =
      settle_overflow-IsSafe host evidence op k o _ a (end-IsSafe op k _ s.current asked-IsSafe) (
        popped_in op (on_generation s s.current (set_state cancelling op)) s.current
          (λ x. unlock (set_session_state non_reusable k (pop_collector op x)))
          (λ x. unfold on_session in refl))
  settle_deadline-IsSafe evidence deadline_raised =
      settle_uncertain-IsSafe host client op k _ a (end-IsSafe op k _ s.current asked-IsSafe)
  settle_deadline-IsSafe evidence (cancel_raised true) =
      settle_uncertain-IsSafe host client op k _ a (
        on_generation-IsSafe (on_generation s s.current (set_state cancelling op)) s.current
          (λ x. unlock (pop_collector op x)) asked-IsSafe
          (λ u. lock-IsSound s.limits _ none (pop_collector-IsSound s.limits _ op u)))
  settle_deadline-IsSafe evidence (cancel_raised false) =
      settle_uncertain-IsSafe host client op k _ a (
        on_generation-IsSafe (on_generation s s.current (set_state cancelling op)) s.current unlock
          asked-IsSafe (λ u. lock-IsSound s.limits _ none u))

  unlocked-IsSafe : IsSafe (on_generation s s.current (λ y. unlock (pop_collector op y)))
  unlocked-IsSafe =
      on_generation-IsSafe s s.current (λ y. unlock (pop_collector op y)) v
        (λ u.
          lock-IsSound s.limits _ none (pop_collector-IsSound s.limits (s.store s.current) op u))

  popped-IsSafe : IsSafe (on_generation s s.current (pop_collector op))
  popped-IsSafe =
      on_generation-IsSafe s s.current (pop_collector op) v
        (λ u. pop_collector-IsSound s.limits (s.store s.current) op u)

  module _ (w : Wire) (d : Dump) (r : PromptRequest) (rec : OperationRecord)
      (x : DirectSession) where
    normalized-IsSafe :
        (reason : String) (result : Result PromptResult)
        → IsSafe (
            settle_normalized host client w d s.current op k r rec.state reason result
              (on_generation s s.current (pop_collector op)))
    unfolding settle_normalized settle_answer
    normalized-IsSafe reason (ok result) =
        on_generation-IsSafe _ s.current
          (λ y. unlock (settle_answer w op k r rec.state reason (d.dump_result result) y))
          popped-IsSafe
          (λ u. lock-IsSound s.limits _ none (
            settle_answer-IsSound s.limits _ op k u w r rec.state reason (d.dump_result result)
              (popped_in op s s.current (pop_collector op) (λ y. refl))))
    normalized-IsSafe reason (err e) = settle_uncertain-IsSafe host client op k _ a (
        on_generation-IsSafe _ s.current unlock popped-IsSafe (λ u. lock-IsSound s.limits _ none u))

    pub settle_prompt-IsSafe :
        (outcome : PromptOutcome)
        → IsSafe (settle_prompt host client w d s.current op k r rec x outcome s)
    unfolding settle_prompt
    settle_prompt-IsSafe (answered updates reason) = normalized-IsSafe reason _
    settle_prompt-IsSafe (exceeded o) =
        settle_overflow-IsSafe host d.overflow_evidence op k o _ a unlocked-IsSafe
          (popped_in op s s.current (λ y. unlock (pop_collector op y)) (λ y. refl))
    settle_prompt-IsSafe (deadline o) = settle_deadline-IsSafe d.overflow_evidence o
    settle_prompt-IsSafe prompt_raised =
        settle_uncertain-IsSafe host client op k _ a unlocked-IsSafe

-- The settlement of a cancellation, a record that is never collected.
finish-IsSafe :
    (g : ℕ) (op target : String) (s : Service)
    → IsSafe s
    → ((s.store g).quarantined ≡ false → contains (s.store g).collector_tasks op ≡ false)
    → IsSafe (finish_cancel g op target s)
unfolding finish_cancel
finish-IsSafe g op target s v idle =
    on_generation-IsSafe s g
      (λ x.
        settle_record completed
          (cancel_result (target_value (Dict.get x.ledger.records target)) true) none op x)
      v
      (λ u.
        settle_record-IsSound s.limits (s.store g) op u completed
          (cancel_result (target_value (Dict.get (s.store g).ledger.records target)) true) none
          idle)

pub settle_cancel-IsSafe :
    (host : Host) (op target k : String) (rec : OperationRecord) (outcome : CancelOutcome)
    (s : Service)
    → s.available ≡ true
    → record_at s op ≡ some rec
    → rec.kind ≡ cancel
    → IsSafe s
    → IsSafe (settle_cancel host s.current op target k outcome s)
unfolding settle_cancel on_session
settle_cancel-IsSafe host op target k rec target_settled s a found kind v =
    finish-IsSafe s.current op target s v
      (plain_uncollected s.limits (s.store s.current) op (v.sound s.current) found (ground arith))
settle_cancel-IsSafe host op target k rec unsettled s a found kind v =
    finish-IsSafe s.current op target _
      (quarantine_uncertain-IsSafe host _ (spoilt s) a (
        on_generation-IsSafe s s.current
          (λ x. set_session_state non_reusable k (pop_collector target x)) v
          (λ u.
            mark_session-IsSound s.limits _ non_reusable k
              (pop_collector-IsSound s.limits (s.store s.current) target u))))
      (λ live. absurd (clash live (uncertain_quarantined host _ (spoilt s) v.distinct a)))
  where
    spoilt : Service → Service
    spoilt t =
        on_generation t t.current (λ x. set_session_state non_reusable k (pop_collector target x))
settle_cancel-IsSafe host op target k rec raised s a found kind v = doubt-IsSafe host _ k s a v
