-- ===== src/Service/Bounds.antt =====
-- src/acp_proxy/direct_service.py: the limits that hold in every state that DirectService reaches, and
-- the signal that `wait()` waits for.
use acp_test.Base.{ℕ, ◌+◌, ◌≤◌, String, ◌≡◌, some}
use acp_test.Dict
use acp_test.State.{terminal, OperationRecord}
use acp_test.Protocol.{DirectLimits, Wire}
use acp_test.Service.{Host, Service}
use acp_test.Service.Settlement.{Dump}
use acp_test.Service.Step.{Reach, init}
use acp_test.Service.Invariant.Reach.{reachable-IsSafe}

-- In every reachable state, every generation, also one that is gone, has at most as many sessions as
-- the limit, and at most the one running prompt and the limit of waiting ones in reserve.
pub reachable_bounds :
    (host : Host) (w : Wire) (d : Dump) (workspace : String) (limits : DirectLimits) (id : String)
    (g : ℕ) {t : Service}
    → Reach host w d (init host workspace limits id) t
    → (Dict.size (t.store g).sessions ≤ t.limits.max_sessions)
      × ((t.store g).prompt_reservations ≤ t.limits.max_queued_prompts + 1)
      × (Dict.size (t.store g).ledger.records ≤ (t.store g).ledger.max_operations)
reachable_bounds host w d workspace limits id g {t} r =
    let v = (reachable-IsSafe host w d workspace limits id r).sound g in
    (v.sessions_bounded, v.queue_bounded, v.ledger_bounded)

-- In every reachable state a record is signalled as done exactly when its state is terminal, and it
-- stands under its own operation ID.
pub reachable_signals :
    (host : Host) (w : Wire) (d : Dump) (workspace : String) (limits : DirectLimits) (id : String)
    (g : ℕ) (op : String) (r : OperationRecord) {t : Service}
    → Reach host w d (init host workspace limits id) t
    → Dict.get (t.store g).ledger.records op ≡ some r
    → (r.done ≡ terminal r.state) × (r.operation_id ≡ op)
reachable_signals host w d workspace limits id g op r run h =
    let v = (reachable-IsSafe host w d workspace limits id run).sound g in
    (v.signalled op r h, v.named op r h)
