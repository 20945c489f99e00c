-- ===== src/Service/Invariant/Cancellation.antt =====
-- src/acp_proxy/direct_service.py: admit_cancel and the release of a prompt's reservation keep the
-- invariant of a generation.
use acp_test.Base.{
  ◌-◌, ◌<◌, String, ◌≡◌, refl, sym, subst, ap, ◌∙◌, ◌⊎◌, inl, inr, Bool, true, false, Option, none,
  some, ◌∷◌, arith, eq_iff, is_refl, Bool-cases,
}
use acp_test.Dict
use acp_test.Dict.{get-put, get-modify, get-modify_inv}
use acp_test.Json.{Value}
use acp_test.State.{
  terminal, ok, is_prompt, OperationRecord, cancelled, completed, cancelling, ready, set_terminal,
}
use acp_test.Ledger
use acp_test.Ledger.{Ledger, Candidate, new_record}
use acp_test.Protocol.{DirectLimits, CancelRequest}
use acp_test.Service.{Generation, set_state, on_session, settle_record, schedule, execute_cancel}
use acp_test.Service.Loss.{contains}
use acp_test.Service.Cancel.{
  or_empty, release_prompt_reservation, cancel_waiting, cancel_target, cancel_in, cancel_candidate,
  is_waiting, cancelled_pre_dispatch, cancel_result, state_value,
}
use acp_test.Service.Invariant.{IsSound, on_session-IsSound}
use acp_test.Service.Invariant.Records.{settle_record-IsSound, set_state-IsSound}
use acp_test.Service.Invariant.Admission.{plain-IsSound, schedule-IsSound, uncollected}
use acp_test.Service.Invariant.Reservation.{clash}

abbrev Released : String → Generation → Generation → Type 0
Released op g h =
    (h ≡ g)
    ⊎ (h ≡ record g {
      released_reservations = op ∷ g.released_reservations;
      prompt_reservations = g.prompt_reservations - 1;
    })

release_cases :
    (op : String) (g : Generation) {h : Generation}
    → release_prompt_reservation op g ≡ ok h
    → Released op g h
unfolding release_prompt_reservation
release_cases op g e = ground arith

release_keeps :
    (op : String) (g : Generation) {h : Generation}
    → release_prompt_reservation op g ≡ ok h
    → (h.collector_tasks ≡ g.collector_tasks) × (h.quarantined ≡ g.quarantined)
release_keeps op g e = ground (arith, release_cases op g e)

pub release-IsSound :
    (limits : DirectLimits) (g : Generation) (op : String) {h : Generation}
    → IsSound limits g
    → release_prompt_reservation op g ≡ ok h
    → IsSound limits h
release-IsSound limits g op v e = elim (release_cases op g e) [
  | inl same ↦ subst (IsSound limits) (sym same) v
  | inr less ↦ subst (IsSound limits) (sym less) (record {
    exclusive = v.exclusive;
    signalled = v.signalled;
    named = v.named;
    collecting = v.collecting;
    queue_bounded = omega (arith, v.queue_bounded);
    ledger_bounded = v.ledger_bounded;
    sessions_bounded = v.sessions_bounded;
  })
]

-- A settled record is terminal.
settled :
    (g : Generation) (op : String) (result error : Option Value) {q : OperationRecord}
    → Dict.get (settle_record cancelled result error op g).ledger.records op ≡ some q
    → terminal q.state ≡ true
unfolding settle_record Ledger.update set_terminal
settled g op result error h =
    let (r, hr, c) = get-modify_inv g.ledger.records op op _ h in
    elim c [ inl (e, w) ↦ ground arith | inr (e, w) ↦ ground (arith, is_refl op) ]

module _ (limits : DirectLimits) (g : Generation) (op : String) (t : OperationRecord)
    (v : IsSound limits g) (found : Dict.get g.ledger.records t.operation_id ≡ some t)
    (is_one : is_prompt t.kind ≡ true)
    (new : g.quarantined ≡ false → contains g.collector_tasks op ≡ false) where
  -- A target that waits is not being collected.
  waiting_uncollected :
      is_waiting t.state ≡ true
      → g.quarantined ≡ false
      → contains g.collector_tasks t.operation_id ≡ false
  waiting_uncollected waits live = elim (Bool-cases (contains g.collector_tasks t.operation_id)) [
    | inl c ↦ ground (arith, v.collecting live t.operation_id c)
    | inr c ↦ c
  ]

  abbrev freed : Generation
  unfolding settle_record on_session
  freed =
      on_session (or_empty t.logical_session_id)
        (λ y. record y { active_operation_id = none; state = ready })
        (settle_record cancelled cancelled_pre_dispatch none t.operation_id g)

  freed-IsSound : is_waiting t.state ≡ true → IsSound limits freed
  unfolding freed settle_record on_session
  freed-IsSound waits =
      on_session-IsSound limits _ (or_empty t.logical_session_id)
        (λ y. record y { active_operation_id = none; state = ready })
        (settle_record-IsSound limits g t.operation_id v cancelled cancelled_pre_dispatch none
          (waiting_uncollected waits))
        (λ live j q h p alive a.
          let same : j ≡ t.operation_id =
            ground (arith, v.exclusive live t.operation_id t found is_one) in
          absurd (
            clash alive (
              settled g t.operation_id cancelled_pre_dispatch none (
                subst
                  (λ i.
                    Dict.get
                      (settle_record cancelled cancelled_pre_dispatch none t.operation_id
                        g).ledger.records
                      i
                    ≡ some q)
                  same h))))

  cancel_waiting-IsSound :
      {h : Generation} → is_waiting t.state ≡ true → cancel_waiting op t g ≡ ok h → IsSound limits h
  unfolding freed
  cancel_waiting-IsSound {h} waits e =
      let (m, em, eh) = parts e in
      subst (IsSound limits) (sym eh) (
        settle_record-IsSound limits m op
          (release-IsSound limits freed t.operation_id (freed-IsSound waits) em) completed
          (cancel_result "cancelled" false) none
          (λ live. let (c, q) = release_keeps t.operation_id freed em in rw c (new (sym q ∙ live))))
    where
      parts :
          cancel_waiting op t g ≡ ok h
          → (m : Generation) × (release_prompt_reservation t.operation_id freed ≡ ok m)
            × (h ≡ settle_record completed (cancel_result "cancelled" false) none op m)
      parts e = unfold cancel_waiting in ground arith

  pub cancel_target-IsSound : {h : Generation} → cancel_target op t g ≡ ok h → IsSound limits h
  unfolding cancel_target
  cancel_target-IsSound {h} e = elim (Bool-cases (is_waiting t.state)) [
    | inl waits ↦ cancel_waiting-IsSound waits (rw waits at e)
    | inr busy ↦ elim (Bool-cases (terminal t.state)) [
      | inl over ↦
          let same : h
              ≡ settle_record completed (cancel_result (state_value t.state) false) none op g =
            ground arith in
          subst (IsSound limits) (sym same) (
            settle_record-IsSound limits g op v completed
              (cancel_result (state_value t.state) false) none new)
      | inr live ↦
          let same : h
              ≡ schedule (execute_cancel op t.operation_id)
                  (set_state cancelling t.operation_id g) =
            ground arith in
          subst (IsSound limits) (sym same) (
            schedule-IsSound limits _ (execute_cancel op t.operation_id) (
              set_state-IsSound limits g t.operation_id v cancelling refl
                (λ r h. ground (arith, found)) (λ l c. refl)))
    ]
  ]

-- The target's record is still there once the cancellation's own has been put.
pub still_found :
    (g : Generation) (op target : String) (c : Candidate) (t : OperationRecord)
    → Dict.get g.ledger.records target ≡ some t
    → Dict.get g.ledger.records op ≡ none
    → Dict.get (Dict.put g.ledger.records op (new_record op c)) target ≡ some t
still_found g op target c t found fresh =
    ground (arith, get-put g.ledger.records op target (new_record op c), eq_iff op target)

abbrev Cancelled : String → CancelRequest → Generation → Generation → Type 0
Cancelled digest r g h =
    (h ≡ g)
    ⊎ ((t : OperationRecord) × (Dict.get g.ledger.records r.target_operation_id ≡ some t)
        × (is_prompt t.kind ≡ true)
        × (Dict.get g.ledger.records r.operation_id ≡ none)
        × (Dict.size g.ledger.records < g.ledger.max_operations)
        × (cancel_target r.operation_id t (record g {
          ledger = record g.ledger {
            records =
                Dict.put g.ledger.records r.operation_id
                  (new_record r.operation_id (cancel_candidate digest r t));
          };
        })
            ≡ ok h))

pub cancel_in_cases :
    (g : Generation) (digest : String) (r : CancelRequest) {rec : OperationRecord} {b : Bool}
    {h : Generation}
    → cancel_in g digest r ≡ ok (rec, b, h)
    → Cancelled digest r g h
unfolding cancel_in Ledger.admit Ledger.get
cancel_in_cases g digest r e = ground arith

pub cancel_in-IsSound :
    (limits : DirectLimits) (g : Generation) (digest : String) (r : CancelRequest)
    {rec : OperationRecord} {b : Bool} {h : Generation}
    → IsSound limits g
    → cancel_in g digest r ≡ ok (rec, b, h)
    → IsSound limits h
cancel_in-IsSound limits g digest r v e = elim (cancel_in_cases g digest r e) [
  | inl same ↦ subst (IsSound limits) (sym same) v
  | inr c ↦
      let name : c.0.operation_id ≡ r.target_operation_id = v.named r.target_operation_id c.0 c.1 in
      cancel_target-IsSound limits _ r.operation_id c.0
        (plain-IsSound limits g r.operation_id (cancel_candidate digest r c.0) v refl c.3 c.4)
        (still_found g r.operation_id c.0.operation_id (cancel_candidate digest r c.0) c.0
          (ap (Dict.get g.ledger.records) name ∙ c.1) c.3)
        c.2 (uncollected limits g r.operation_id v c.3) c.5
]
