-- ===== src/Service/Invariant/Tasks.antt =====
-- src/acp_proxy/direct_service.py: what the tasks write to their generation keeps the invariant.
use acp_test.Base.{
  String, ◌≡◌, refl, subst, inl, inr, Bool, true, false, not, Option, none, some, ◌∷◌, arith,
  eq_iff, is_cases, is_refl, ◌is◌, Bool-cases,
}
use mathlib.Core.Option
use acp_test.Dict
use acp_test.Dict.{get-empty, size-empty, get-modify, get-modify_all_inv, size-modify_all, Dict}
use acp_test.Json.{Value}
use acp_test.State.{
  terminal, ok, is_prompt, OperationRecord, OperationState, DirectSession, completed, failed,
  cancelled, in_doubt, non_reusable, lost, SessionState,
}
use acp_test.Ledger
use acp_test.Protocol.{DirectLimits, PromptRequest, Wire}
use acp_test.Service.{Generation, set_session_state, on_session, settle_record, error_info}
use acp_test.Service.Loss.{contains}
use acp_test.Service.Execute.{
  dispatch, begin_prompt, is_dispatched, run_unless_cancelling, finalize_prompt, free_session,
  record_spoils, leave_session,
}
use acp_test.Service.Creation.{complete_create, reject_create, create_result}
use acp_test.Service.Settlement.{settle_answer, is_cancelling, advance_session}
use acp_test.Service.Invariant.{
  IsSound, Tame, active, collected_at, is_collected, on_session-IsSound, mark-IsSound,
  update-IsSound,
}
use acp_test.Service.Invariant.Records.{settle_record-IsSound}
use acp_test.Service.Invariant.Cancellation.{release-IsSound}
use acp_test.Service.Invariant.Reservation.{clash}

-- A known operation that is no prompt is not being collected.
pub plain_uncollected :
    (limits : DirectLimits) (g : Generation) (op : String) {r : OperationRecord}
    → IsSound limits g
    → Dict.get g.ledger.records op ≡ some r
    → is_prompt r.kind ≡ false
    → g.quarantined ≡ false
    → contains g.collector_tasks op ≡ false
plain_uncollected limits g op v found plain live =
    elim (Bool-cases (contains g.collector_tasks op)) [
      | inl c ↦ ground (arith, v.collecting live op c)
      | inr c ↦ c
    ]

pub mark_session-IsSound :
    (limits : DirectLimits) (g : Generation) (state : SessionState) (k : String)
    → IsSound limits g
    → IsSound limits (set_session_state state k g)
unfolding on_session
mark_session-IsSound limits g state k v =
    mark-IsSound limits g k (λ x. record x { state = state }) v (λ x. refl)

pub lock-IsSound :
    (limits : DirectLimits) (g : Generation) (lock : Option String)
    → IsSound limits g
    → IsSound limits (record g { prompt_lock = lock })
lock-IsSound limits g lock v = record {
  exclusive = v.exclusive;
  signalled = v.signalled;
  named = v.named;
  collecting = v.collecting;
  queue_bounded = v.queue_bounded;
  ledger_bounded = v.ledger_bounded;
  sessions_bounded = v.sessions_bounded;
}

-- A collector, for a prompt that is running.
collect-IsSound :
    (limits : DirectLimits) (g : Generation) (op : String)
    → IsSound limits g
    → collected_at (Dict.get g.ledger.records op) ≡ true
    → IsSound limits (record g { collector_tasks = op ∷ g.collector_tasks })
collect-IsSound limits g op v runs = record {
  exclusive = v.exclusive;
  signalled = v.signalled;
  named = v.named;
  collecting = λ live j c. elim (is_cases op j) [
    | inl e ↦ subst (λ i. collected_at (Dict.get g.ledger.records i) ≡ true) e runs
    | inr e ↦ v.collecting live j (rw e at c)
  ];
  queue_bounded = v.queue_bounded;
  ledger_bounded = v.ledger_bounded;
  sessions_bounded = v.sessions_bounded;
}

leave_session-IsSound :
    (limits : DirectLimits) (gone spoilt : Bool) (k : String) (g : Generation)
    → IsSound limits g
    → IsSound limits (leave_session gone spoilt k g)
unfolding leave_session
leave_session-IsSound limits true spoilt k g v = mark_session-IsSound limits g lost k v
leave_session-IsSound limits false true k g v = mark_session-IsSound limits g non_reusable k v
leave_session-IsSound limits false false k g v = v

run-Tame : (r : OperationRecord) → not (terminal r.state) ≡ true → Tame r (run_unless_cancelling r)
run-Tame r live = record {
  same_kind = refl;
  same_session = refl;
  same_name = refl;
  not_revived = ground arith;
  still_signalled = ground arith;
}

run_collected : (r : OperationRecord) → is_collected (run_unless_cancelling r).state ≡ true
run_collected r = ground arith

module _ (limits : DirectLimits) (g : Generation) (op k : String) (v : IsSound limits g) where
  pub complete_create-IsSound :
      (x : DirectSession) (backend model : String)
      → (g.quarantined ≡ false → contains g.collector_tasks op ≡ false)
      → IsSound limits (complete_create x op k backend model g)
  unfolding complete_create
  complete_create-IsSound x backend model idle =
      settle_record-IsSound limits _ op (mark-IsSound limits g k _ v (λ y. refl)) completed
        (create_result x backend model g.generation_id) none idle

  pub reject_create-IsSound :
      (g.quarantined ≡ false → contains g.collector_tasks op ≡ false)
      → IsSound limits (reject_create op k g)
  unfolding reject_create
  reject_create-IsSound idle =
      settle_record-IsSound limits _ op (mark-IsSound limits g k _ v (λ y. refl)) failed none
        (error_info "session_configuration_failed"
          "ACP did not settle the requested session configuration")
        idle

  pub settle_answer-IsSound :
      (w : Wire) (r : PromptRequest) (state : OperationState) (reason : String) (result : Value)
      → (g.quarantined ≡ false → contains g.collector_tasks op ≡ false)
      → IsSound limits (settle_answer w op k r state reason result g)
  unfolding settle_answer
  settle_answer-IsSound w r state reason result idle = elim (Bool-cases (is_cancelling state)) [
    | inl asked ↦ elim (Bool-cases (reason is "cancelled")) [
      | inl stopped ↦ rw (asked, stopped) (spoiled cancelled (some result) none)
      | inr other ↦
          rw (asked, other)
            (spoiled in_doubt none (
              error_info "cancellation_stop_mismatch"
                "ACP cancellation did not settle as cancelled"))
    ]
    | inr unasked ↦ elim (Bool-cases (reason is "cancelled")) [
      | inl stopped ↦ rw (unasked, stopped) (spoiled cancelled (some result) none)
      | inr other ↦
          rw (unasked, other)
            (mark-IsSound limits _ k (advance_session w r)
              (settle_record-IsSound limits g op v completed (some result) none idle)
              (λ x. unfold advance_session in refl))
    ]
  ]
    where
      spoiled :
          (end : OperationState) (answer error : Option Value)
          → IsSound limits (set_session_state non_reusable k (settle_record end answer error op g))
      spoiled end answer error =
          mark_session-IsSound limits _ non_reusable k
            (settle_record-IsSound limits g op v end answer error idle)

  dispatch-IsSound :
      (r : OperationRecord)
      → Dict.get g.ledger.records op ≡ some r
      → is_prompt r.kind ≡ true
      → not (terminal r.state) ≡ true
      → IsSound limits (dispatch op (record g { prompt_lock = some op }))
  unfolding dispatch Ledger.update
  dispatch-IsSound r found is_one live =
      collect-IsSound limits _ op
        (update-IsSound limits (record g { prompt_lock = some op }) op run_unless_cancelling
          (lock-IsSound limits g (some op) v) (λ q h. run-Tame q (ground arith))
          (λ q h l c. run_collected q))
        (ground (
          arith,
          get-modify g.ledger.records op op run_unless_cancelling,
          is_refl op,
          run_collected r,
        ))

  -- The prompt that takes the lock, if its record is live.
  pub begin_prompt-IsSound :
      (r : OperationRecord)
      → Dict.get g.ledger.records op ≡ some r
      → is_prompt r.kind ≡ true
      → IsSound limits (begin_prompt op g)
  unfolding begin_prompt
  begin_prompt-IsSound r found is_one =
      elim (Bool-cases (is_dispatched (Dict.get g.ledger.records op))) [
        | inl live ↦ rw live (dispatch-IsSound r found is_one (rw found at live))
        | inr over ↦ rw over (lock-IsSound limits g none v)
      ]

  -- The session of a prompt that is over is freed of it.
  freed-IsSound :
      (g.quarantined ≡ false → is_dispatched (Dict.get g.ledger.records op) ≡ false)
      → IsSound limits (on_session k (free_session op) g)
  freed-IsSound over = on_session-IsSound limits g k (free_session op) v (λ live j q h p alive a.
      still (Dict.get g.sessions k) j a (λ e.
        clash alive (ended (subst (λ i. Dict.get g.ledger.records i ≡ some q) e h) (over live))))
    where
      ended :
          {q : OperationRecord}
          → Dict.get g.ledger.records op ≡ some q
          → is_dispatched (Dict.get g.ledger.records op) ≡ false
          → terminal q.state ≡ true
      ended h o = ground arith

      still :
          (o : Option DirectSession) (j : String)
          → active o ≡ some j
          → (j ≡ op → ⊥)
          → active (Option.map (free_session op) o) ≡ some j
      still none j a other = cc
      still (some x) j a other = ground (arith, eq_iff j op)

  pub finalize_prompt-IsSound :
      {h : Generation}
      → (g.quarantined ≡ false → is_dispatched (Dict.get g.ledger.records op) ≡ false)
      → finalize_prompt op k g ≡ ok h
      → IsSound limits h
  unfolding finalize_prompt
  finalize_prompt-IsSound over e =
      release-IsSound limits _ op
        (leave_session-IsSound limits g.quarantined (record_spoils (Dict.get g.ledger.records op)) k
          _ (freed-IsSound over))
        e
