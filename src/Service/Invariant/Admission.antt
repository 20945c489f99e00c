-- ===== src/Service/Invariant/Admission.antt =====
-- src/acp_proxy/direct_service.py: the admission of a session and of a retirement keep the
-- invariant of a generation.
use acp_test.Base.{
  ℕ, ◌<◌, String, ◌≡◌, refl, sym, subst, ap, ◌∙◌, ◌⊎◌, inl, inr, Bool, true, false, Option, none,
  some, arith, is_cases, Bool-cases,
}
use acp_test.Dict
use acp_test.Dict.{get-put, get-put_inv, get-modify, size-put, is_some}
use acp_test.State.{ok, is_prompt, OperationRecord, DirectSession, completed}
use acp_test.Ledger
use acp_test.Ledger.{Ledger, Candidate, new_record}
use acp_test.Protocol.{DirectLimits, CreateSessionRequest, RetireSessionRequest}
use acp_test.Service.{Generation, Task, schedule}
use acp_test.Service.Loss.{contains}
use acp_test.Service.Cancel.{or_empty}
use acp_test.Service.Create.{create_in, install_session, new_session, create_candidate}
use acp_test.Service.Retire.{retire_in, retired_in, retire_candidate, retire_result}
use acp_test.Service.Invariant.{IsSound, active, put-IsSound, mark-IsSound, collected_at}
use acp_test.Service.Invariant.Records.{settle_record-IsSound}

-- A record of an operation that has no prompt.
pub plain-IsSound :
    (limits : DirectLimits) (g : Generation) (op : String) (c : Candidate)
    → IsSound limits g
    → is_prompt c.kind ≡ false
    → Dict.get g.ledger.records op ≡ none
    → Dict.size g.ledger.records < g.ledger.max_operations
    → IsSound limits (record g {
      ledger = record g.ledger { records = Dict.put g.ledger.records op (new_record op c) };
    })
plain-IsSound limits g op c v plain fresh room =
    put-IsSound limits g op (new_record op c) v fresh room refl refl (λ p. absurd (clash plain p))
  where
    clash : {b : Bool} → b ≡ false → b ≡ true → ⊥
    clash p q = cc

pub schedule-IsSound :
    (limits : DirectLimits) (g : Generation) (t : Task)
    → IsSound limits g
    → IsSound limits (schedule t g)
unfolding schedule
schedule-IsSound limits g t v = record {
  exclusive = v.exclusive;
  signalled = v.signalled;
  named = v.named;
  collecting = v.collecting;
  queue_bounded = v.queue_bounded;
  ledger_bounded = v.ledger_bounded;
  sessions_bounded = v.sessions_bounded;
}

-- A session that was not there.
new_session-IsSound :
    (limits : DirectLimits) (g : Generation) (k : String) (x : DirectSession)
    → IsSound limits g
    → Dict.get g.sessions k ≡ none
    → Dict.size g.sessions < limits.max_sessions
    → IsSound limits (record g { sessions = Dict.put g.sessions k x })
new_session-IsSound limits g k x v fresh room = record {
  exclusive = λ live op r h p t. elim (is_cases k (or_empty r.logical_session_id)) [
    | inl e ↦
        absurd (nobody (ap (Dict.get g.sessions) (sym e) ∙ fresh) (v.exclusive live op r h p t))
    | inr e ↦
        rw (get-put g.sessions k (or_empty r.logical_session_id) x, e) (v.exclusive live op r h p t)
  ];
  signalled = v.signalled;
  named = v.named;
  collecting = v.collecting;
  queue_bounded = v.queue_bounded;
  ledger_bounded = v.ledger_bounded;
  sessions_bounded = ground (arith, size-put g.sessions k x);
}
  where
    nobody : {o : Option DirectSession} {op : String} → o ≡ none → active o ≡ some op → ⊥
    nobody e a = cc (ap active e)

-- What the lock's body of admit_create comes to.
abbrev Created : ℕ → String → CreateSessionRequest → Generation → Bool → Generation → Type 0
Created n digest r g b h =
    ((b ≡ false) × (h ≡ g))
    ⊎ ((b ≡ true)
        × (Dict.get g.ledger.records r.operation_id ≡ none)
        × (Dict.size g.ledger.records < g.ledger.max_operations)
        × (Dict.get g.sessions r.logical_session_id ≡ none)
        × (Dict.size g.sessions < n)
        × (h
            ≡ install_session r
                (record g.ledger {
                  records =
                      Dict.put g.ledger.records r.operation_id
                        (new_record r.operation_id (create_candidate digest r));
                })
                g))

pub create_in_cases :
    (g : Generation) (n : ℕ) (digest : String) (r : CreateSessionRequest) {rec : OperationRecord}
    {b : Bool} {h : Generation}
    → create_in g n digest r ≡ ok (rec, b, h)
    → Created n digest r g b h
unfolding create_in Ledger.admit
create_in_cases g n digest r e = ground arith

pub create_in-IsSound :
    (limits : DirectLimits) (g : Generation) (digest : String) (r : CreateSessionRequest)
    {rec : OperationRecord} {b : Bool} {h : Generation}
    → IsSound limits g
    → create_in g limits.max_sessions digest r ≡ ok (rec, b, h)
    → IsSound limits h
unfolding install_session
create_in-IsSound limits g digest r v e = elim (create_in_cases g limits.max_sessions digest r e) [
  | inl c ↦ subst (IsSound limits) (sym c.1) v
  | inr c ↦ subst (IsSound limits) (sym c.5) (
      schedule-IsSound limits _ _ (
        new_session-IsSound limits _ r.logical_session_id (new_session r)
          (plain-IsSound limits g r.operation_id (create_candidate digest r) v refl c.1 c.2) c.3
          c.4))
]

-- An operation that the ledger does not know is not being collected.
pub uncollected :
    (limits : DirectLimits) (g : Generation) (op : String)
    → IsSound limits g
    → Dict.get g.ledger.records op ≡ none
    → g.quarantined ≡ false
    → contains g.collector_tasks op ≡ false
uncollected limits g op v fresh live = elim (Bool-cases (contains g.collector_tasks op)) [
  | inl c ↦ absurd (none_collected fresh (v.collecting live op c))
  | inr c ↦ c
]
  where
    none_collected : {o : Option OperationRecord} → o ≡ none → collected_at o ≡ true → ⊥
    none_collected e c = cc (ap collected_at e)

abbrev Retired : String → RetireSessionRequest → Generation → Generation → Type 0
Retired digest r g h =
    (h ≡ g)
    ⊎ ((x : DirectSession) × (Dict.get g.ledger.records r.operation_id ≡ none)
        × (Dict.size g.ledger.records < g.ledger.max_operations)
        × (Dict.get g.sessions r.logical_session_id ≡ some x)
        × (x.active_operation_id ≡ none)
        × (h
            ≡ retired_in r x
                (record g.ledger {
                  records =
                      Dict.put g.ledger.records r.operation_id
                        (new_record r.operation_id (retire_candidate digest r));
                })
                g))

pub retire_in_cases :
    (g : Generation) (digest : String) (r : RetireSessionRequest) {rec : OperationRecord} {b : Bool}
    {h : Generation}
    → retire_in g digest r ≡ ok (rec, b, h)
    → Retired digest r g h
unfolding retire_in Ledger.admit
retire_in_cases g digest r e = ground arith

pub retire_in-IsSound :
    (limits : DirectLimits) (g : Generation) (digest : String) (r : RetireSessionRequest)
    {rec : OperationRecord} {b : Bool} {h : Generation}
    → IsSound limits g
    → retire_in g digest r ≡ ok (rec, b, h)
    → IsSound limits h
unfolding retired_in
retire_in-IsSound limits g digest r v e = elim (retire_in_cases g digest r e) [
  | inl same ↦ subst (IsSound limits) (sym same) v
  | inr c ↦ subst (IsSound limits) (sym c.5) (
      settle_record-IsSound limits _ r.operation_id
        (mark-IsSound limits _ r.logical_session_id _
          (plain-IsSound limits g r.operation_id (retire_candidate digest r) v refl c.1 c.2)
          (λ x. refl))
        completed (retire_result c.0) none (uncollected limits g r.operation_id v c.1))
]
