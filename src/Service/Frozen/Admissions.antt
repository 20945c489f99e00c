-- ===== src/Service/Frozen/Admissions.antt =====
-- src/acp_proxy/direct_service.py: the admissions leave every terminal record as it is.
use acp_test.Base.{
  ℕ, ◌+◌, ltb, ◌≡◌, refl, sym, subst, ap, ◌∙◌, inl, inr, Bool, false, none, some, String, arith,
  Bool-cases, if_both,
}
use acp_test.Dict
use acp_test.Dict.{get-put_own}
use acp_test.State.{
  OperationRecord, terminal, ok, queued, cancelled, completed, cancelling, retired,
}
use acp_test.Ledger.{Ledger, Candidate, new_record}
use acp_test.Protocol.{
  CreateSessionRequest, PromptRequest, CancelRequest, RetireSessionRequest, Wire,
}
use acp_test.Service.{
  Generation, settle_record, set_state, schedule, on_session, set_session_state, execute_cancel,
}
use acp_test.Service.Create.{create_in, install_session, create_candidate}
use acp_test.Service.Prompt.{prompt_in, reserve, prompt_candidate}
use acp_test.Service.Retire.{retire_in, retired_in, retire_candidate, retire_result}
use acp_test.Service.Cancel.{
  cancel_in, cancel_target, cancel_waiting, cancel_candidate, release_prompt_reservation,
  cancelled_pre_dispatch, cancel_result, is_waiting, state_value,
}
use acp_test.Service.Invariant.Admission.{create_in_cases, retire_in_cases}
use acp_test.Service.Invariant.Reservation.{prompt_in_cases}
use acp_test.Service.Invariant.Cancellation.{cancel_in_cases, still_found}
use acp_test.Service.Frozen.{
  Frozen, same-Frozen, Frozen-trans, put-Frozen, settle_record-Frozen, set_state-Frozen,
}

-- A generation with a new record.
abbrev pub with_new : Generation → String → Candidate → Generation
with_new g op c = record g {
  ledger = record g.ledger { records = Dict.put g.ledger.records op (new_record op c) };
}

with_new-Frozen :
    (g : Generation) (op : String) (c : Candidate)
    → Dict.get g.ledger.records op ≡ none
    → Frozen g (with_new g op c)
with_new-Frozen g op c fresh = put-Frozen g (with_new g op c) op c fresh refl

pub create_in-Frozen :
    (g : Generation) (n : ℕ) (digest : String) (r : CreateSessionRequest) {rec : OperationRecord}
    {b : Bool} {h : Generation}
    → create_in g n digest r ≡ ok (rec, b, h)
    → Frozen g h
unfolding install_session schedule
create_in-Frozen g n digest r e = elim (create_in_cases g n digest r e) [
  | inl c ↦ subst (Frozen g) (sym c.1) (same-Frozen g g refl)
  | inr c ↦
      subst (Frozen g) (sym c.5)
        (put-Frozen g _ r.operation_id (create_candidate digest r) c.1 refl)
]

pub retire_in-Frozen :
    (g : Generation) (digest : String) (r : RetireSessionRequest) {rec : OperationRecord} {b : Bool}
    {h : Generation}
    → retire_in g digest r ≡ ok (rec, b, h)
    → Frozen g h
unfolding retired_in on_session
retire_in-Frozen g digest r e = elim (retire_in_cases g digest r e) [
  | inl same ↦ subst (Frozen g) (sym same) (same-Frozen g g refl)
  | inr c ↦
      let admitted = with_new g r.operation_id (retire_candidate digest r) in
      let marked = set_session_state retired r.logical_session_id admitted in
      subst (Frozen g) (sym c.5) (
        Frozen-trans g marked _
          (put-Frozen g marked r.operation_id (retire_candidate digest r) c.1 refl)
          (settle_record-Frozen completed (retire_result c.0) none r.operation_id marked))
]

-- The state of a record that has just been put.
queued-Frozen :
    (g : Generation) (op : String) (c : Candidate)
    → Dict.get g.ledger.records op ≡ none
    → (m : Generation) → m.ledger ≡ (with_new g op c).ledger
    → Frozen g (set_state queued op m)
queued-Frozen g op c fresh m e = Frozen-trans g m _ (put-Frozen g m op c fresh e) (
    set_state-Frozen queued op m (λ r found. live (
      sym (get-put_own g.ledger.records op (new_record op c))
      ∙ sym (ap (λ (l : Ledger). Dict.get l.records op) e)
      ∙ found)))
  where
    live : {r : OperationRecord} → some (new_record op c) ≡ some r → terminal r.state ≡ false
    live same = ground arith

pub prompt_in-Frozen :
    (w : Wire) (g : Generation) (n : ℕ) (digest k : String) (r : PromptRequest)
    {rec : OperationRecord} {b : Bool} {h : Generation}
    → prompt_in w g n digest k r ≡ ok (rec, b, h)
    → Frozen g h
unfolding reserve schedule on_session
prompt_in-Frozen w g n digest k r e = elim (prompt_in_cases w g n digest k r e) [
  | inl same ↦ subst (Frozen g) (sym same) (same-Frozen g g refl)
  | inr c ↦
      let candidate = prompt_candidate digest k r in
      let admitted = record (with_new g r.operation_id candidate) {
        prompt_reservations = g.prompt_reservations + 1;
      } in
      subst (Frozen g) (sym c.6) (
        Frozen-trans g _ _
          (if_both (Frozen g) (ltb 0 g.prompt_reservations)
            (queued-Frozen g r.operation_id candidate c.1 admitted refl)
            (put-Frozen g admitted r.operation_id candidate c.1 refl))
          (same-Frozen _ _ refl))
]

cancel_waiting_ledger :
    (op : String) (t : OperationRecord) (g : Generation) {h : Generation}
    → cancel_waiting op t g ≡ ok h
    → h.ledger
      ≡ (settle_record completed
          (cancel_result "cancelled" false)
          none
          op
          (settle_record cancelled cancelled_pre_dispatch none t.operation_id g)).ledger
unfolding cancel_waiting release_prompt_reservation settle_record on_session
cancel_waiting_ledger op t g e = ground arith

cancel_target-Frozen :
    (op : String) (t : OperationRecord) (g : Generation) {h : Generation}
    → Dict.get g.ledger.records t.operation_id ≡ some t
    → cancel_target op t g ≡ ok h
    → Frozen g h
unfolding cancel_target schedule
cancel_target-Frozen op t g {h} found e = elim (Bool-cases (is_waiting t.state)) [
  | inl waits ↦
      let first = settle_record cancelled cancelled_pre_dispatch none t.operation_id g in
      let second = settle_record completed (cancel_result "cancelled" false) none op first in
      Frozen-trans g first h
        (settle_record-Frozen cancelled cancelled_pre_dispatch none t.operation_id g)
        (Frozen-trans first second h
          (settle_record-Frozen completed (cancel_result "cancelled" false) none op first)
          (same-Frozen second h (cancel_waiting_ledger op t g (rw waits at e))))
  | inr busy ↦ elim (Bool-cases (terminal t.state)) [
    | inl over ↦
        let same : h
            ≡ settle_record completed (cancel_result (state_value t.state) false) none op g =
          ground arith in
        subst (Frozen g) (sym same) (settle_record-Frozen completed _ none op g)
    | inr live ↦
        let same : h
            ≡ schedule (execute_cancel op t.operation_id) (set_state cancelling t.operation_id g) =
          ground arith in
        subst (Frozen g) (sym same) (
          Frozen-trans g (set_state cancelling t.operation_id g) _
            (set_state-Frozen cancelling t.operation_id g (λ r h. ground (arith, found)))
            (same-Frozen _ _ refl))
  ]
]

pub cancel_in-Frozen :
    (g : Generation) (digest : String) (r : CancelRequest) {rec : OperationRecord} {b : Bool}
    {h : Generation}
    → ((op : String) (t : OperationRecord)
        → Dict.get g.ledger.records op ≡ some t
        → t.operation_id ≡ op)
    → cancel_in g digest r ≡ ok (rec, b, h)
    → Frozen g h
cancel_in-Frozen g digest r {h = h} named e = elim (cancel_in_cases g digest r e) [
  | inl same ↦ subst (Frozen g) (sym same) (same-Frozen g g refl)
  | inr c ↦
      let candidate = cancel_candidate digest r c.0 in
      let name : c.0.operation_id ≡ r.target_operation_id = named r.target_operation_id c.0 c.1 in
      Frozen-trans g (with_new g r.operation_id candidate) h
        (with_new-Frozen g r.operation_id candidate c.3)
        (cancel_target-Frozen r.operation_id c.0 _
          (still_found g r.operation_id c.0.operation_id candidate c.0
            (ap (Dict.get g.ledger.records) name ∙ c.1) c.3)
          c.5)
]
