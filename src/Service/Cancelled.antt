-- ===== src/Service/Cancelled.antt =====
-- src/acp_proxy/direct_service.py: the cancellation of a prompt that has not been dispatched, and what
-- the task of that prompt does afterwards.
pub mod Parts
use acp_test.Base.{
  ℕ, ◌<◌, Bool, sym, subst, String, ◌≡◌, refl, ap, ◌∙◌, true, false, Option, none, some, arith,
  is_refl, Option-cases, inl, inr,
}
use acp_test.Dict
use acp_test.Dict.{Dict}
use acp_test.Dict.{get-modify-some}
use mathlib.Core.Option
use acp_test.State.{
  OperationState, SessionState, DirectSession, settle, completed, ok, ◌>>=◌, >>=-eq-ok, cancelled,
  non_reusable, ready, OperationRecord, terminal, set_terminal,
}
use acp_test.Ledger
use acp_test.Ledger.{Ledger}
use acp_test.Json.{Value}
use acp_test.Protocol.{CancelRequest, Wire, DirectLimits, cancels, canonical_request_digest}
use acp_test.Service.{
  Generation, Service, AcpClient, Host, on_generation, settle_record, on_session, or_same,
}
use acp_test.Service.Pin.{check_pin, ensure_available, require_current_generation}
use acp_test.Service.Settlement.{Dump}
use acp_test.Service.Step.{Reach, init, cancels as cancels_step}
use acp_test.Service.Invariant.Store.{store-on_generation}
use acp_test.Service.Invariant.Cancellation.{still_found}
use acp_test.Service.Invariant.Reach.{Step-IsSafe, reachable-IsSafe, store_answer}
use acp_test.Service.Cancelled.Parts.{admit_cancel_parts}
use acp_test.Service.Frozen.{Frozen}
use acp_test.Service.Frozen.Admissions.{with_new}
use acp_test.Service.Frozen.Tasks.{Keeps}
use acp_test.Service.Frozen.Steps.{Reach-Keeps}
use acp_test.Service.Cancel.{
  cancel_waiting, cancelled_pre_dispatch, or_empty, release_prompt_reservation, is_waiting,
  cancel_result, cancel_in, cancel_target, cancel_candidate, admit_cancel,
}
use acp_test.Service.Execute.{
  begin_prompt, finalize_prompt, leave_session, free_session, spoils_session, unlock,
}

abbrev settle_or : OperationState → Option Value → OperationRecord → OperationRecord
settle_or state result r = or_same r (set_terminal r state result none)

-- A record that is settled is not dispatched.
begin_prompt_settled :
    (op : String) (g : Generation) (r : OperationRecord)
    → Dict.get g.ledger.records op ≡ some r
    → terminal r.state ≡ true
    → begin_prompt op g ≡ unlock g
unfolding begin_prompt
begin_prompt_settled op g r h t = ground arith

-- What the cancellation of a waiting prompt writes, one write after the other.
module _ (op : String) (target : OperationRecord) (g : Generation) where
  abbrev settled : Generation
  settled = settle_record cancelled cancelled_pre_dispatch none target.operation_id g

  abbrev freed : Generation
  freed =
      on_session (or_empty target.logical_session_id)
        (λ y. record y { active_operation_id = none; state = ready }) settled

  cancel_waiting_parts :
      {h : Generation}
      → cancel_waiting op target g ≡ ok h
      → (h.sessions ≡ freed.sessions)
        × (h.quarantined ≡ g.quarantined)
        × (h.ledger
            ≡ Ledger.update settled.ledger op
                (settle_or completed (cancel_result "cancelled" false)))
  unfolding cancel_waiting release_prompt_reservation settle_record on_session
  cancel_waiting_parts e = ground arith

  -- The target's session after it.
  cancel_waiting_session :
      {h : Generation}
      → cancel_waiting op target g ≡ ok h
      → (x : DirectSession) × (Dict.get h.sessions (or_empty target.logical_session_id)
          ≡ some (record x { active_operation_id = none; state = ready }))
  unfolding cancel_waiting settle_record on_session
  cancel_waiting_session e =
      let (ses, q, led) = cancel_waiting_parts e in
      elim (Option-cases (Dict.get g.sessions (or_empty target.logical_session_id))) [
        | inl n ↦ ground arith
        | inr (x, hx) ↦ (
          x,
          ap (λ (d : Dict DirectSession). Dict.get d (or_empty target.logical_session_id)) ses
              ∙ get-modify-some g.sessions _ _ _ x hx
              ∙ (ground (arith, is_refl (or_empty target.logical_session_id))),
        )
      ]

  -- The target's record after it.
  cancel_waiting_target :
      {h : Generation}
      → Dict.get g.ledger.records target.operation_id ≡ some target
      → is_waiting target.state ≡ true
      → cancel_waiting op target g ≡ ok h
      → Dict.get h.ledger.records target.operation_id
        ≡ some (settle cancelled cancelled_pre_dispatch none target)
  unfolding settle_record Ledger.update set_terminal
  cancel_waiting_target found waits e =
      let (ses, q, led) = cancel_waiting_parts e in
      ap (λ (l : Ledger). Dict.get l.records target.operation_id) led
      ∙ get-modify-some settled.ledger.records op target.operation_id _ _
          (get-modify-some g.ledger.records target.operation_id target.operation_id _ target found)
      ∙ (ground (arith, is_refl target.operation_id))

-- A cancellation that is new acts on its target.
cancel_in_created :
    (g : Generation) (digest : String) (r : CancelRequest) (target : OperationRecord)
    {rec : OperationRecord} {h : Generation}
    → Dict.get g.ledger.records r.target_operation_id ≡ some target
    → cancel_in g digest r ≡ ok (rec, true, h)
    → (Dict.get g.ledger.records r.operation_id ≡ none)
      × (cancel_target r.operation_id target
            (with_new g r.operation_id (cancel_candidate digest r target))
          ≡ ok h)
unfolding cancel_in Ledger.admit Ledger.get
cancel_in_created g digest r target found e = ground arith

-- The target's record after a new cancellation that found it waiting.
cancel_in_target :
    (g : Generation) (digest : String) (r : CancelRequest) (target : OperationRecord)
    {rec : OperationRecord} {h : Generation}
    → target.operation_id ≡ r.target_operation_id
    → Dict.get g.ledger.records r.target_operation_id ≡ some target
    → is_waiting target.state ≡ true
    → cancel_in g digest r ≡ ok (rec, true, h)
    → Dict.get h.ledger.records r.target_operation_id
      ≡ some (settle cancelled cancelled_pre_dispatch none target)
cancel_in_target g digest r target {h = h} name found waits e =
    let (fresh, acts) = cancel_in_created g digest r target found e in
    let candidate = cancel_candidate digest r target in
    subst
      (λ i.
        Dict.get h.ledger.records i ≡ some (settle cancelled cancelled_pre_dispatch none target))
      name
      (cancel_waiting_target r.operation_id target (with_new g r.operation_id candidate)
        (still_found g r.operation_id target.operation_id candidate target
          (ap (Dict.get g.ledger.records) name ∙ found) fresh)
        waits (waiting (with_new g r.operation_id candidate) acts))
  where
    waiting :
        (k : Generation)
        → cancel_target r.operation_id target k ≡ ok h
        → cancel_waiting r.operation_id target k ≡ ok h
    waiting k acts = unfold cancel_target in ground arith

-- In every reachable state: a new cancellation of a prompt that waits settles it as cancelled, and in any state
-- that the service reaches afterwards the prompt's record is still that one, and its task, when it takes the
-- lock, dispatches nothing: its first stretch leaves the generation as it is, unlocked.
pub begin_prompt-admit_cancel :
    (host : Host) (w : Wire) (d : Dump) (workspace : String) (limits : DirectLimits) (id : String)
    (client : AcpClient) (r : CancelRequest) (target : OperationRecord) {rec : OperationRecord}
    {s t u : Service}
    → Reach host w d (init host workspace limits id) s
    → Dict.get (s.store s.current).ledger.records r.target_operation_id ≡ some target
    → is_waiting target.state ≡ true
    → admit_cancel w s client r ≡ ok (rec, true, u)
    → Reach host w d u t
    → (Dict.get (t.store s.current).ledger.records r.target_operation_id
        ≡ some (settle cancelled cancelled_pre_dispatch none target))
      × (begin_prompt r.target_operation_id (t.store s.current) ≡ unlock (t.store s.current))
unfolding Keeps Frozen
begin_prompt-admit_cancel host w d workspace limits id client r target {s = s} {t} {u} before found
      waits e after =
    let v = reachable-IsSafe host w d workspace limits id before in
    let (h, acts, same) = admit_cancel_parts w s client r e in
    let name = (v.sound s.current).named r.target_operation_id target found in
    let settled_there = cancel_in_target (s.store s.current) _ r target name found waits acts in
    let (safe, kept) =
      Reach-Keeps host w d (Step-IsSafe host w d (cancels_step client r e) v) after in
    let first : Dict.get (u.store s.current).ledger.records r.target_operation_id
        ≡ some (settle cancelled cancelled_pre_dispatch none target) =
      ap (λ (x : Service). Dict.get (x.store s.current).ledger.records r.target_operation_id) same
      ∙ ap (λ (g : Generation). Dict.get g.ledger.records r.target_operation_id)
          (store-on_generation s s.current (λ _. h))
      ∙ settled_there in
    let bound : s.current < u.next_ref =
      subst (λ (x : Service). s.current < x.next_ref) (sym same) v.distinct in
    let now = (kept s.current bound).1 r.target_operation_id _ first refl in
    (now, begin_prompt_settled r.target_operation_id (t.store s.current) _ now refl)

-- The state of a session, where there is one.
abbrev pub state_of : Generation → String → Option SessionState
state_of g k = Option.map (λ x. x.state) (Dict.get g.sessions k)

-- The end of a prompt's task whose record spoils its session.
finalize_prompt_spoilt :
    (op k : String) (g : Generation) (r : OperationRecord) (x : DirectSession) {i : Generation}
    → Dict.get g.ledger.records op ≡ some r
    → spoils_session r.state ≡ true
    → g.quarantined ≡ false
    → Dict.get g.sessions k ≡ some x
    → finalize_prompt op k g ≡ ok i
    → Dict.get i.sessions k ≡ some (record (free_session op x) { state = non_reusable })
unfolding finalize_prompt release_prompt_reservation leave_session on_session
finalize_prompt_spoilt op k g r x {i} h s live hx e =
    let same : i.sessions
        ≡ Dict.modify (Dict.modify g.sessions k (free_session op)) k
            (λ y. record y { state = non_reusable }) =
      ground arith in
    ap (λ (d : Dict DirectSession). Dict.get d k) same
    ∙ get-modify-some _ k k _ _ (get-modify-some g.sessions k k (free_session op) x hx)
    ∙ (ground (arith, is_refl k))

-- The cancellation of a waiting prompt in a generation that is not quarantined makes its session ready;
-- but when the cancelled prompt's task ends, as the next thing that happens, the session is not reusable.
pub finalize_prompt-cancel_waiting :
    (op : String) (target : OperationRecord) (g : Generation) {h i : Generation}
    → Dict.get g.ledger.records target.operation_id ≡ some target
    → is_waiting target.state ≡ true
    → g.quarantined ≡ false
    → cancel_waiting op target g ≡ ok h
    → finalize_prompt target.operation_id (or_empty target.logical_session_id) h ≡ ok i
    → (state_of h (or_empty target.logical_session_id) ≡ some ready)
      × (state_of i (or_empty target.logical_session_id) ≡ some non_reusable)
finalize_prompt-cancel_waiting op target g {h} {i} found waits live e f =
    let now = cancel_waiting_target op target g found waits e in
    let (ses, q, led) = cancel_waiting_parts op target g e in
    let (x, hx) = cancel_waiting_session op target g e in
    (
      ap (Option.map (λ (y : DirectSession). y.state)) hx,
      ap (Option.map (λ (y : DirectSession). y.state)) (
          finalize_prompt_spoilt target.operation_id (or_empty target.logical_session_id) h _ _ now
            refl (q ∙ live) hx f),
    )
