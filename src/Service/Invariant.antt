-- ===== src/Service/Invariant.antt =====
-- The invariant of a generation of src/acp_proxy/direct_service.py, and the writes that keep it: a
-- write to one record, to one session, and a new record. The operations are in the modules below.
use acp_test.Base.{
  ◌+◌, ◌≤◌, ◌<◌, String, ◌&&◌, ◌≡◌, refl, sym, subst, ap, is_cases, ◌∙◌, inl, inr, Bool, true,
  false, Option, none, some, arith, eq_iff,
}
pub mod Records
pub mod Admission
pub mod Reservation
pub mod Cancellation
pub mod Tasks
pub mod Losses
pub mod Store
pub mod Settlements
pub mod Deadlines
pub mod Reach
use mathlib.Core.Option
use acp_test.Dict
use acp_test.Dict.{get-put, get-modify, size-put, size-modify, is_some, get-modify_inv, get-put_inv}
use acp_test.State.{
  terminal, is_prompt, OperationState, running, cancelling, OperationRecord, DirectSession,
}
use acp_test.Ledger.{Ledger, Candidate, new_record}
use acp_test.Ledger
use acp_test.Ledger.Capacity.{IsBounded}
use acp_test.Protocol.{DirectLimits}
use acp_test.Service.{Generation, on_session}
use acp_test.Service.Loss.{contains}
use acp_test.Service.Cancel.{or_empty}

abbrev pub active : Option DirectSession → Option String
active none = none
active (some x) = x.active_operation_id

-- The operation that a session is busy with.
abbrev pub active_of : Generation → String → Option String
active_of g k = active (Dict.get g.sessions k)

abbrev pub is_collected : OperationState → Bool
is_collected running = true
is_collected cancelling = true
is_collected _ = false

-- A prompt's record that is there, and is running or being cancelled.
abbrev pub collected_at : Option OperationRecord → Bool
collected_at none = false
collected_at (some r) = is_prompt r.kind && is_collected r.state

pub record IsSound (limits : DirectLimits) (g : Generation) : Type 0 where
  pub exclusive :
      g.quarantined ≡ false
      → (op : String) (r : OperationRecord) → Dict.get g.ledger.records op ≡ some r
      → is_prompt r.kind ≡ true
      → terminal r.state ≡ false
      → active_of g (or_empty r.logical_session_id) ≡ some op
  pub signalled :
      (op : String) (r : OperationRecord)
      → Dict.get g.ledger.records op ≡ some r
      → r.done ≡ terminal r.state
  pub named :
      (op : String) (r : OperationRecord)
      → Dict.get g.ledger.records op ≡ some r
      → r.operation_id ≡ op
  pub collecting :
      g.quarantined ≡ false
      → (op : String) → contains g.collector_tasks op ≡ true
      → collected_at (Dict.get g.ledger.records op) ≡ true
  pub queue_bounded : g.prompt_reservations ≤ limits.max_queued_prompts + 1
  pub ledger_bounded : IsBounded g.ledger
  pub sessions_bounded : Dict.size g.sessions ≤ limits.max_sessions

-- A write to a record that keeps what others rely on, and does not revive it.
pub record Tame (r q : OperationRecord) : Type 0 where
  pub same_kind : q.kind ≡ r.kind
  pub same_session : q.logical_session_id ≡ r.logical_session_id
  pub same_name : q.operation_id ≡ r.operation_id
  pub not_revived : terminal q.state ≡ false → terminal r.state ≡ false
  pub still_signalled : r.done ≡ terminal r.state → q.done ≡ terminal q.state

Tame-refl : (r : OperationRecord) → Tame r r
Tame-refl r = record {
  same_kind = refl;
  same_session = refl;
  same_name = refl;
  not_revived = λ t. t;
  still_signalled = λ d. d;
}

-- A write to one record.
module _ (limits : DirectLimits) (g : Generation) (k : String)
    (f : OperationRecord → OperationRecord) where
  abbrev pub IsTame : Type 0
  IsTame = (r : OperationRecord) → Dict.get g.ledger.records k ≡ some r → Tame r (f r)

  -- The record of a prompt that is being collected is running or being cancelled.
  abbrev pub KeepsCollecting : Type 0
  KeepsCollecting =
      (r : OperationRecord)
      → Dict.get g.ledger.records k ≡ some r
      → g.quarantined ≡ false
      → contains g.collector_tasks k ≡ true
      → is_collected (f r).state ≡ true

  -- Where a record comes from.
  origin :
      IsTame
      → (op : String) (r : OperationRecord)
      → Dict.get (Dict.modify g.ledger.records k f) op ≡ some r
      → (q : OperationRecord) × (Dict.get g.ledger.records op ≡ some q) × Tame q r
  origin tame op r h =
      let (q, hq, c) = get-modify_inv g.ledger.records k op f h in
      elim c [
        | inl (e, w) ↦
            (q, hq, subst (Tame q) (sym w) (tame q (ap (Dict.get g.ledger.records) e ∙ hq)))
        | inr (e, w) ↦ (q, hq, subst (Tame q) (sym w) (Tame-refl q))
      ]

  collected :
      IsSound limits g
      → IsTame
      → KeepsCollecting
      → g.quarantined ≡ false
      → (op : String) → contains g.collector_tasks op ≡ true
      → collected_at (Dict.get (Dict.modify g.ledger.records k f) op) ≡ true
  collected v tame col live op c = elim (is_cases k op) [
    | inl e ↦
        rw (get-modify g.ledger.records k op f, (eq_iff k op).1 e)
          (still e (Dict.get g.ledger.records op) (ap (Dict.get g.ledger.records) e)
            (v.collecting live op c))
    | inr e ↦ rw (get-modify g.ledger.records k op f, e) (v.collecting live op c)
  ]
    where
      still :
          k ≡ op
          → (o : Option OperationRecord) → Dict.get g.ledger.records k ≡ o
          → collected_at o ≡ true
          → collected_at (Option.map f o) ≡ true
      still e none h t = cc
      still e (some r) h t =
          let same : Tame r (f r) = tame r h in ground (arith, col r h live (rw e c))

  pub update-IsSound :
      IsSound limits g
      → IsTame
      → KeepsCollecting
      → IsSound limits (record g { ledger = Ledger.update g.ledger k f })
  unfolding Ledger.update
  update-IsSound v tame col = record {
    exclusive = λ live op r h p t.
        let (q, hq, same) = origin tame op r h in ground (arith, v.exclusive live op q hq);
    signalled = λ op r h.
        let (q, hq, same) = origin tame op r h in same.still_signalled (v.signalled op q hq);
    named = λ op r h. let (q, hq, same) = origin tame op r h in same.same_name ∙ v.named op q hq;
    collecting = collected v tame col;
    queue_bounded = v.queue_bounded;
    ledger_bounded = rw size-modify v.ledger_bounded;
    sessions_bounded = v.sessions_bounded;
  }

-- A write to one session after which every live prompt of that session is still the active one.
pub on_session-IsSound :
    (limits : DirectLimits) (g : Generation) (k : String) (f : DirectSession → DirectSession)
    → IsSound limits g
    → (g.quarantined ≡ false
        → (op : String) (r : OperationRecord) → Dict.get g.ledger.records op ≡ some r
        → is_prompt r.kind ≡ true
        → terminal r.state ≡ false
        → active_of g k ≡ some op
        → active (Option.map f (Dict.get g.sessions k)) ≡ some op)
    → IsSound limits (on_session k f g)
unfolding on_session
on_session-IsSound limits g k f v same = record {
  exclusive = λ live op r h p t. elim (is_cases k (or_empty r.logical_session_id)) [
    | inl e ↦
        rw
          (
            get-modify g.sessions k (or_empty r.logical_session_id) f,
            (eq_iff k (or_empty r.logical_session_id)).1 e,
            ← e,
          )
          (same live op r h p t
            (subst (λ j. active_of g j ≡ some op) (sym e) (v.exclusive live op r h p t)))
    | inr e ↦
        rw (get-modify g.sessions k (or_empty r.logical_session_id) f, e)
          (v.exclusive live op r h p t)
  ];
  signalled = v.signalled;
  named = v.named;
  collecting = v.collecting;
  queue_bounded = v.queue_bounded;
  ledger_bounded = v.ledger_bounded;
  sessions_bounded = rw size-modify v.sessions_bounded;
}

-- One that leaves the active operation alone.
pub mark-IsSound :
    (limits : DirectLimits) (g : Generation) (k : String) (f : DirectSession → DirectSession)
    → IsSound limits g
    → ((x : DirectSession) → (f x).active_operation_id ≡ x.active_operation_id)
    → IsSound limits (on_session k f g)
mark-IsSound limits g k f v same =
    on_session-IsSound limits g k f v (λ live op r h p t e. through (Dict.get g.sessions k) ∙ e)
  where
    through : (o : Option DirectSession) → active (Option.map f o) ≡ active o
    through none = refl
    through (some x) = same x

-- Any write, to a session that no prompt is active in.
pub claim-IsSound :
    (limits : DirectLimits) (g : Generation) (k : String) (f : DirectSession → DirectSession)
    → IsSound limits g
    → active_of g k ≡ none
    → IsSound limits (on_session k f g)
claim-IsSound limits g k f v idle = on_session-IsSound limits g k f v (λ live op r h p t e. cc)

-- A new record. If it is a prompt's, its session must already be active with it.
pub put-IsSound :
    (limits : DirectLimits) (g : Generation) (op : String) (r : OperationRecord)
    → IsSound limits g
    → Dict.get g.ledger.records op ≡ none
    → Dict.size g.ledger.records < g.ledger.max_operations
    → r.done ≡ terminal r.state
    → r.operation_id ≡ op
    → (is_prompt r.kind ≡ true → active_of g (or_empty r.logical_session_id) ≡ some op)
    → IsSound limits
        (record g { ledger = record g.ledger { records = Dict.put g.ledger.records op r } })
put-IsSound limits g op r v fresh room signal name act = record {
  exclusive = λ live j q h p t. elim (get-put_inv g.ledger.records op j r h) [
    | inl (e, w) ↦ ground (arith, act (ap (λ (x : OperationRecord). is_prompt x.kind) (sym w) ∙ p))
    | inr (e, w) ↦ v.exclusive live j q w p t
  ];
  signalled = λ j q h. elim (get-put_inv g.ledger.records op j r h) [
    | inl (e, w) ↦ rw w signal
    | inr (e, w) ↦ v.signalled j q w
  ];
  named = λ j q h. elim (get-put_inv g.ledger.records op j r h) [
    | inl (e, w) ↦ rw w (name ∙ e)
    | inr (e, w) ↦ v.named j q w
  ];
  collecting = λ live j c. elim (is_cases op j) [
    | inl e ↦
        absurd
          (none_collected (ap (Dict.get g.ledger.records) (sym e) ∙ fresh) (v.collecting live j c))
    | inr e ↦ rw (get-put g.ledger.records op j r, e) (v.collecting live j c)
  ];
  queue_bounded = v.queue_bounded;
  ledger_bounded = ground (arith, size-put g.ledger.records op r);
  sessions_bounded = v.sessions_bounded;
}
  where
    none_collected : {o : Option OperationRecord} → o ≡ none → collected_at o ≡ true → ⊥
    none_collected e c = cc (ap collected_at e)
