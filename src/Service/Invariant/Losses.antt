-- ===== src/Service/Invariant/Losses.antt =====
-- src/acp_proxy/direct_service.py: the loss of a generation, and the settlements that follow it, keep the
-- invariant.
use acp_test.Base.{String, ◌≡◌, refl, true, Option, none, some, List, [], ◌∷◌, arith}
use acp_test.Dict.{get-empty, size-empty, get-modify_all_inv, size-modify_all}
use acp_test.State.{OperationRecord}
use acp_test.Protocol.{DirectLimits}
use acp_test.Service.{Generation, settle_record, new_generation}
use acp_test.Service.Loss.{quarantine, lose_record, settle_all, DeferredSettlement}
use acp_test.Service.Invariant.{IsSound}
use acp_test.Service.Invariant.Records.{settle_record-IsSound}
use acp_test.Service.Invariant.Reservation.{clash}

-- What the loss of a generation leaves of it, and the generation that replaces it.
pub quarantine-IsSound :
    (limits : DirectLimits) (g : Generation) (defer : List String)
    → IsSound limits g
    → IsSound limits (quarantine defer g)
unfolding quarantine
quarantine-IsSound limits g defer v = record {
  exclusive = λ live. absurd (clash live refl);
  signalled = λ op r h.
      let (q, hq, e) = get-modify_all_inv g.ledger.records (lose_record defer) op h in
      ground (arith, v.signalled op q hq);
  named = λ op r h.
      let (q, hq, e) = get-modify_all_inv g.ledger.records (lose_record defer) op h in
      ground (arith, v.named op q hq);
  collecting = λ live. absurd (clash live refl);
  queue_bounded = v.queue_bounded;
  ledger_bounded = rw size-modify_all v.ledger_bounded;
  sessions_bounded = rw size-modify_all v.sessions_bounded;
}

pub new_generation-IsSound :
    (limits : DirectLimits) (id : String) → IsSound limits (new_generation id limits.max_operations)
new_generation-IsSound limits id = record {
  exclusive = λ live op r h. absurd (nothing (get-empty op) h);
  signalled = λ op r h. absurd (nothing (get-empty op) h);
  named = λ op r h. absurd (nothing (get-empty op) h);
  collecting = λ live op c. cc;
  queue_bounded = omega arith;
  ledger_bounded = rw size-empty (omega arith);
  sessions_bounded = rw size-empty (omega arith);
}
  where
    nothing : {o : Option OperationRecord} {r : OperationRecord} → o ≡ none → o ≡ some r → ⊥
    nothing p q = cc

-- Settlements after the loss, when nothing is collected any more.
pub settle_all-IsSound :
    (limits : DirectLimits) (ds : List DeferredSettlement) (g : Generation)
    → IsSound limits g
    → g.quarantined ≡ true
    → IsSound limits (settle_all ds g)
unfolding settle_all
settle_all-IsSound limits [] g v gone = v
settle_all-IsSound limits (d ∷ ds) g v gone =
    settle_all-IsSound limits ds (settle_record d.state d.result d.error d.operation_id g)
      (settle_record-IsSound limits g d.operation_id v d.state d.result d.error
        (λ live. absurd (clash live gone)))
      (unfold settle_record in gone)
