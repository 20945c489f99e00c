-- ===== src/Service/Invariant/Settlements.antt =====
-- src/acp_proxy/direct_service.py: what the tasks do with the answers of the ACP client keeps the
-- invariant of the service, on every branch.
use acp_test.Base.{String, ◌≡◌, true, false, some, List, [], arith, ◌is◌}
use acp_test.State.{OperationRecord, DirectSession, failed, non_reusable, create}
use acp_test.Json.{Value}
use acp_test.Evidence.{Overflow}
use acp_test.Service.{
  Service, AcpClient, Host, on_generation, settle_record, set_session_state, error_info, on_session,
}
use acp_test.Service.Loss.{DeferredSettlement, contains, quarantine_uncertain}
use acp_test.Service.Step.{record_at}
use acp_test.Service.Creation.{
  CreateOutcome, bound, create_timeout, rejected, create_raised, settle_create, complete_create,
  reject_create,
}
use acp_test.Service.Settlement.{settle_overflow, settle_uncertain}
use acp_test.Service.Invariant.Records.{settle_record-IsSound}
use acp_test.Service.Invariant.Tasks.{
  plain_uncollected, mark_session-IsSound, complete_create-IsSound, reject_create-IsSound,
}
use acp_test.Service.Invariant.Store.{
  IsSafe, if-IsSafe, on_generation-IsSafe, mark_generation_lost-IsSafe, quarantine_uncertain-IsSafe,
}

-- A session is spoilt, then the generation is lost: the way out of every doubt.
pub doubt-IsSafe :
    (host : Host) (ds : List DeferredSettlement) (k : String) (s : Service)
    → s.available ≡ true
    → IsSafe s
    → IsSafe (
        quarantine_uncertain host s.current ds
          (on_generation s s.current (set_session_state non_reusable k)))
unfolding on_session
doubt-IsSafe host ds k s a v =
    quarantine_uncertain-IsSafe host ds
      (on_generation s s.current (set_session_state non_reusable k)) a
      (on_generation-IsSafe s s.current (set_session_state non_reusable k) v
        (mark_session-IsSound s.limits (s.store s.current) non_reusable k))

pub settle_create-IsSafe :
    (host : Host) (client : AcpClient) (op k : String) (x : DirectSession) (outcome : CreateOutcome)
    (s : Service) (r : OperationRecord)
    → s.available ≡ true
    → record_at s op ≡ some r
    → r.kind ≡ create
    → IsSafe s
    → IsSafe (settle_create host client s.current op k x outcome s)
unfolding settle_create
settle_create-IsSafe host client op k x outcome s r a found kind v = ways outcome
  where
    idle :
        (s.store s.current).quarantined ≡ false
        → contains (s.store s.current).collector_tasks op ≡ false
    idle =
        plain_uncollected s.limits (s.store s.current) op (v.sound s.current) found (ground arith)

    reject : IsSafe (on_generation s s.current (reject_create op k))
    reject =
        on_generation-IsSafe s s.current (reject_create op k) v
          (λ u. reject_create-IsSound s.limits (s.store s.current) op k u idle)

    ways : (o : CreateOutcome) → IsSafe (settle_create host client s.current op k x o s)
    ways (bound backend model) =
        if-IsSafe (model is x.model_id)
          (on_generation-IsSafe s s.current (complete_create x op k backend model) v
            (λ u. complete_create-IsSound s.limits (s.store s.current) op k u x backend model idle))
          reject
    ways create_timeout = doubt-IsSafe host _ k s a v
    ways rejected = reject
    ways create_raised =
        if-IsSafe client.is_alive (doubt-IsSafe host _ k s a v)
          (mark_generation_lost-IsSafe host [] s v)

pub settle_overflow-IsSafe :
    (host : Host) (evidence : Overflow → Value) (op k : String) (o : Overflow) (s : Service)
    → s.available ≡ true
    → IsSafe s
    → ((s.store s.current).quarantined ≡ false
        → contains (s.store s.current).collector_tasks op ≡ false)
    → IsSafe (settle_overflow host evidence s.current op k o s)
unfolding settle_overflow
settle_overflow-IsSafe host evidence op k o s a v idle =
    if-IsSafe o.settled_cancelled
      (on_generation-IsSafe s s.current
        (λ x. set_session_state non_reusable k (
          settle_record failed (some (evidence o))
            (error_info "evidence_limit" "ACP evidence exceeded a negotiated limit") op x))
        v
        (λ u. mark_session-IsSound s.limits _ non_reusable k (
          settle_record-IsSound s.limits (s.store s.current) op u failed (some (evidence o))
            (error_info "evidence_limit" "ACP evidence exceeded a negotiated limit") idle)))
      (doubt-IsSafe host _ k s a v)

pub settle_uncertain-IsSafe :
    (host : Host) (client : AcpClient) (op k : String) (s : Service)
    → s.available ≡ true
    → IsSafe s
    → IsSafe (settle_uncertain host client s.current op k s)
unfolding settle_uncertain
settle_uncertain-IsSafe host client op k s a v =
    if-IsSafe client.is_alive (doubt-IsSafe host _ k s a v)
      (mark_generation_lost-IsSafe host [] s v)
