-- ===== src/Service/Continuity.antt =====
-- src/acp_proxy/direct_service.py, mark_generation_lost and _quarantine_uncertain: what the loss of a
-- continuity generation leaves behind.
use acp_test.Base.{ℕ, ◌<◌, String, ◌≡◌, inl, inr, Bool, true, false, some, List, [], ◌∷◌, arith}
use acp_test.Dict
use acp_test.Dict.{get-modify_all_inv, get-modify_inv}
use acp_test.State.{
  generation_mismatch, err, terminal, lost, retired, SessionState, OperationRecord, DirectSession,
  set_terminal,
}
use acp_test.Ledger
use acp_test.Protocol.{PromptRequest, Wire}
use acp_test.Service.{Generation, Service, AcpClient, Host, settle_record, or_same}
use acp_test.Service.Pin.{check_pin, require_current_generation, ensure_available}
use acp_test.Service.Prompt.{commit_prompt}
use acp_test.Service.Loss.{
  DeferredSettlement, deferred_ids, contains, lose_session, lose_record, quarantine,
  mark_generation_lost, settle_all, quarantine_uncertain,
}
use acp_test.Service.Invariant.Store.{mark_quarantined, store-on_generation}

-- A session is lost or retired.
abbrev pub is_gone : SessionState → Bool
is_gone lost = true
is_gone retired = true
is_gone _ = false

-- Every record of a generation outside a list of operations is terminal.
abbrev pub SettledBut : List String → Generation → Type 0
SettledBut defer g =
    (op : String) (r : OperationRecord)
    → Dict.get g.ledger.records op ≡ some r
    → contains defer op ≡ false
    → terminal r.state ≡ true

quarantine-SettledBut :
    (defer : List String) (g : Generation) → SettledBut defer (quarantine defer g)
unfolding quarantine
quarantine-SettledBut defer g op r h c =
    let (q, hq, e) = get-modify_all_inv g.ledger.records (lose_record defer) op h in ground arith

quarantine_sessions :
    (defer : List String) (g : Generation) (k : String) (x : DirectSession)
    → Dict.get (quarantine defer g).sessions k ≡ some x
    → is_gone x.state ≡ true
unfolding quarantine
quarantine_sessions defer g k x h =
    let (q, hq, e) = get-modify_all_inv g.sessions (λ j. lose_session) k h in ground arith

-- One deferred settlement takes its operation off the list.
settle_record-SettledBut :
    (d : DeferredSettlement) (ds : List DeferredSettlement) (g : Generation)
    → terminal d.state ≡ true
    → SettledBut (d.operation_id ∷ deferred_ids ds) g
    → SettledBut (deferred_ids ds) (settle_record d.state d.result d.error d.operation_id g)
unfolding settle_record Ledger.update set_terminal
settle_record-SettledBut d ds g t v op r h c =
    let (q, hq, e) =
      get-modify_inv g.ledger.records d.operation_id op
        (λ x. or_same x (set_terminal x d.state d.result d.error)) h in
    elim e [ inl (same, w) ↦ ground arith | inr (other, w) ↦ ground (arith, v op q hq) ]

-- Every settlement of a list puts its record in a terminal state.
abbrev pub AllTerminal : List DeferredSettlement → Type 0
AllTerminal [] = Unit
AllTerminal (d ∷ ds) = (terminal d.state ≡ true) × AllTerminal ds

settle_all-SettledBut :
    (ds : List DeferredSettlement) (g : Generation)
    → AllTerminal ds
    → SettledBut (deferred_ids ds) g
    → SettledBut [] (settle_all ds g)
unfolding settle_all
settle_all-SettledBut [] g t v = v
settle_all-SettledBut (d ∷ ds) g (t, ts) v =
    settle_all-SettledBut ds _ ts (settle_record-SettledBut d ds g t v)

-- While the service is available and its next reference is fresh: after the loss of the current
-- generation every one of its records that is not deferred is terminal, and every one of its sessions
-- is lost or retired.
pub mark_generation_lost-settles :
    (host : Host) (defer : List String) (s : Service)
    → s.available ≡ true
    → s.current < s.next_ref
    → SettledBut defer ((mark_generation_lost host defer s).store s.current)
      × ((k : String) (x : DirectSession)
          → Dict.get ((mark_generation_lost host defer s).store s.current).sessions k ≡ some x
          → is_gone x.state ≡ true)
mark_generation_lost-settles host defer s a fresh =
    rw (mark_quarantined host defer s fresh a) (
      quarantine-SettledBut defer (s.store s.current),
      quarantine_sessions defer (s.store s.current),
    )

-- In the same conditions, once the deferred settlements of a loss in doubt have been written, each of
-- them in a terminal state, no record of the generation that was current is left unsettled.
pub quarantine_uncertain-settles :
    (host : Host) (ds : List DeferredSettlement) (s : Service)
    → s.available ≡ true
    → s.current < s.next_ref
    → AllTerminal ds
    → SettledBut [] ((quarantine_uncertain host s.current ds s).store s.current)
unfolding quarantine_uncertain
quarantine_uncertain-settles host ds s a fresh t =
    rw
      (store-on_generation (mark_generation_lost host (deferred_ids ds) s) s.current
        (settle_all ds))
      (settle_all-SettledBut ds _ t
        (mark_generation_lost-settles host (deferred_ids ds) s a fresh).0)

-- A generation is lost once: a second loss, whatever it defers, changes nothing.
pub mark_generation_lost-mark_generation_lost :
    (host other : Host) (defer later : List String) (s : Service)
    → mark_generation_lost other later (mark_generation_lost host defer s)
      ≡ mark_generation_lost host defer s
unfolding mark_generation_lost
mark_generation_lost-mark_generation_lost host other defer later s = ground arith

-- After the loss of the current generation, with a fresh next reference, every request is refused,
-- whatever generation it names, and so is the commit of a prompt that was admitted for the generation
-- that is gone: a new generation does not resume its work.
pub mark_generation_lost-refuses :
    (host : Host) (defer : List String) (s : Service) (client : AcpClient) (w : Wire) (major : ℕ)
    (id digest k : String) (r : PromptRequest)
    → s.available ≡ true
    → s.current < s.next_ref
    → (check_pin (mark_generation_lost host defer s) client major id ≡ err generation_mismatch)
      × (commit_prompt w (mark_generation_lost host defer s) s.current digest k r
          ≡ err generation_mismatch)
unfolding mark_generation_lost check_pin ensure_available commit_prompt require_current_generation
mark_generation_lost-refuses host defer s client w major id digest k r a fresh =
    (ground arith, ground arith)
