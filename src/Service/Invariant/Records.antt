-- ===== src/Service/Invariant/Records.antt =====
-- src/acp_proxy/direct_service.py: writes to the state of a record keep the invariant of a generation.
use acp_test.Base.{String, ◌≡◌, refl, Bool, true, false, Option, some, List, [], ◌∷◌, arith}
use acp_test.Dict
use acp_test.Json.{Value}
use acp_test.State.{terminal, OperationState, OperationRecord, set_terminal}
use acp_test.Protocol.{DirectLimits}
use acp_test.Service.{Generation, set_state, settle_record, or_same, pop_collector, without}
use acp_test.Service.Loss.{contains}
use acp_test.Service.Invariant.{IsSound, Tame, is_collected, update-IsSound}

module _ (limits : DirectLimits) (g : Generation) (op : String) (v : IsSound limits g) where
  settle-Tame :
      (state : OperationState) (result error : Option Value) (r : OperationRecord)
      → Tame r (or_same r (set_terminal r state result error))
  unfolding set_terminal
  settle-Tame state result error r = record {
    same_kind = ground arith;
    same_session = ground arith;
    same_name = ground arith;
    not_revived = ground arith;
    still_signalled = ground arith;
  }

  -- A settlement, of an operation that is not being collected.
  pub settle_record-IsSound :
      (state : OperationState) (result error : Option Value)
      → (g.quarantined ≡ false → contains g.collector_tasks op ≡ false)
      → IsSound limits (settle_record state result error op g)
  unfolding settle_record
  settle_record-IsSound state result error idle =
      update-IsSound limits g op _ v (λ r h. settle-Tame state result error r)
        (λ r h live c. absurd (clash (idle live) c))
    where
      clash : {b : Bool} → b ≡ false → b ≡ true → ⊥
      clash p q = cc

  -- A state written to a record that is live, and that is collected only in states that allow it.
  pub set_state-IsSound :
      (state : OperationState)
      → terminal state ≡ false
      → ((r : OperationRecord) → Dict.get g.ledger.records op ≡ some r → terminal r.state ≡ false)
      → (g.quarantined ≡ false → contains g.collector_tasks op ≡ true → is_collected state ≡ true)
      → IsSound limits (set_state state op g)
  unfolding set_state
  set_state-IsSound state live_state live col =
      update-IsSound limits g op _ v
        (λ r h. record {
          same_kind = refl;
          same_session = refl;
          same_name = refl;
          not_revived = λ t. live r h;
          still_signalled = λ d. ground (arith, live r h);
        })
        (λ r h q c. col q c)

without_gone :
    (op k : String) (l : List String) → contains (without op l) k ≡ true → contains l k ≡ true
unfolding without
without_gone op k [] h = h
without_gone op k (x ∷ xs) h = ground (arith, without_gone op k xs)

pub contains-without : (op : String) (l : List String) → contains (without op l) op ≡ false
unfolding without
contains-without op [] = refl
contains-without op (x ∷ xs) = ground (arith, contains-without op xs)

pub pop_collector-IsSound :
    (limits : DirectLimits) (g : Generation) (op : String)
    → IsSound limits g
    → IsSound limits (pop_collector op g)
unfolding pop_collector
pop_collector-IsSound limits g op v = record {
  exclusive = v.exclusive;
  signalled = v.signalled;
  named = v.named;
  collecting = λ live k c. v.collecting live k (without_gone op k g.collector_tasks c);
  queue_bounded = v.queue_bounded;
  ledger_bounded = v.ledger_bounded;
  sessions_bounded = v.sessions_bounded;
}
