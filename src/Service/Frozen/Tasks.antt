-- ===== src/Service/Frozen/Tasks.antt =====
-- src/acp_proxy/direct_service.py: what the tasks and the loss of a generation write leaves every terminal
-- record of every generation as it is.
use acp_test.Base.{
  ℕ, ◌<◌, ◌==◌, String, ◌≡◌, refl, sym, subst, Bool, true, false, not, Option, none, some, List, [],
  arith, ◌is◌, if◌then◌else◌, if_both, if_false,
}
use acp_test.Json.{Value}
use acp_test.Evidence.{Overflow}
use acp_test.State.{
  OperationState, DirectSession, completed, failed, cancelled, in_doubt, non_reusable,
}
use acp_test.Protocol.{PromptRequest, Wire}
use acp_test.Service.{
  Generation, Service, AcpClient, Host, on_generation, settle_record, on_session, set_session_state,
  error_info,
}
use acp_test.Service.Loss.{
  DeferredSettlement, deferred_ids, quarantine, mark_generation_lost, quarantine_uncertain,
  settle_all, replaced,
}
use acp_test.Service.Creation.{
  CreateOutcome, bound, create_timeout, rejected, create_raised, settle_create, complete_create,
  reject_create, create_result,
}
use acp_test.Service.Settlement.{settle_overflow, settle_uncertain, settle_answer, is_cancelling}
use acp_test.Service.Frozen.{
  Frozen, same-Frozen, Frozen-trans, settle_record-Frozen, quarantine-Frozen, settle_all-Frozen,
}

-- Every generation that a service has keeps its terminal records.
unfoldable pub Keeps : Service → Service → Type 0
Keeps s t = (q : ℕ) → q < s.next_ref → (q < t.next_ref) × Frozen (s.store q) (t.store q)

pub Keeps-refl : (s : Service) → Keeps s s
unfolding Keeps
Keeps-refl s q b = (b, same-Frozen (s.store q) (s.store q) refl)

pub Keeps-trans : (s t u : Service) → Keeps s t → Keeps t u → Keeps s u
unfolding Keeps
Keeps-trans s t u a b q h =
    let (k, f) = a q h in
    let (l, g) = b q k in (l, Frozen-trans (s.store q) (t.store q) (u.store q) f g)

written :
    (s : Service) (g : ℕ) (f : Generation → Generation)
    → Frozen (s.store g) (f (s.store g))
    → (q : ℕ) (b : Bool) → (q == g) ≡ b
    → Frozen (s.store q) (if b then f (s.store g) else s.store q)
written s g f h q true e =
    let same : g ≡ q = ground arith in subst (λ z. Frozen (s.store z) (f (s.store g))) same h
written s g f h q false e = same-Frozen (s.store q) (s.store q) refl

pub on_generation-Keeps :
    (s : Service) (g : ℕ) (f : Generation → Generation)
    → Frozen (s.store g) (f (s.store g))
    → Keeps s (on_generation s g f)
unfolding Keeps
on_generation-Keeps s g f h q b = (b, written s g f h q (q == g) refl)

pub mark_generation_lost-Keeps :
    (host : Host) (defer : List String) (s : Service) → Keeps s (mark_generation_lost host defer s)
unfolding mark_generation_lost Keeps
mark_generation_lost-Keeps host defer s =
    if_both (Keeps s) (not s.available) (Keeps-refl s) (λ q b. (omega arith, lost q b))
  where
    lost : (q : ℕ) → q < s.next_ref → Frozen (s.store q) (replaced host s defer q)
    lost q b = subst (Frozen (s.store q)) (sym (if_false (q == s.next_ref) _ _ (ground arith))) (
        written s s.current (quarantine defer) (quarantine-Frozen defer (s.store s.current)) q
          (q == s.current) refl)

pub quarantine_uncertain-Keeps :
    (host : Host) (g : ℕ) (ds : List DeferredSettlement) (s : Service)
    → Keeps s (quarantine_uncertain host g ds s)
unfolding quarantine_uncertain
quarantine_uncertain-Keeps host g ds s =
    let lost = mark_generation_lost host (deferred_ids ds) s in
    Keeps-trans s lost _ (mark_generation_lost-Keeps host (deferred_ids ds) s)
      (on_generation-Keeps lost g (settle_all ds) (settle_all-Frozen ds (lost.store g)))

-- A write that leaves the ledger alone, and then more.
pub quiet-Keeps :
    (s : Service) (g : ℕ) (f : Generation → Generation)
    → ((x : Generation) → (f x).ledger ≡ x.ledger)
    → Keeps s (on_generation s g f)
quiet-Keeps s g f same =
    on_generation-Keeps s g f (same-Frozen (s.store g) (f (s.store g)) (same (s.store g)))

pub doubt-Keeps :
    (host : Host) (g : ℕ) (ds : List DeferredSettlement) (k : String) (s : Service)
    → Keeps s
        (quarantine_uncertain host g ds (on_generation s g (set_session_state non_reusable k)))
unfolding on_session
doubt-Keeps host g ds k s =
    Keeps-trans s (on_generation s g (set_session_state non_reusable k)) _
      (quiet-Keeps s g (set_session_state non_reusable k) (λ x. refl))
      (quarantine_uncertain-Keeps host g ds _)

complete_create-Frozen :
    (x : DirectSession) (op k backend model : String) (g : Generation)
    → Frozen g (complete_create x op k backend model g)
unfolding complete_create on_session
complete_create-Frozen x op k backend model g =
    Frozen-trans g _ _ (same-Frozen g _ refl)
      (settle_record-Frozen completed (create_result x backend model g.generation_id) none op _)

reject_create-Frozen : (op k : String) (g : Generation) → Frozen g (reject_create op k g)
unfolding reject_create on_session
reject_create-Frozen op k g =
    Frozen-trans g (set_session_state non_reusable k g) _ (same-Frozen g _ refl)
      (settle_record-Frozen failed none _ op _)

pub settle_create-Keeps :
    (host : Host) (client : AcpClient) (g : ℕ) (op k : String) (x : DirectSession)
    (outcome : CreateOutcome) (s : Service)
    → Keeps s (settle_create host client g op k x outcome s)
unfolding settle_create
settle_create-Keeps host client g op k x (bound backend model) s =
    if_both (Keeps s) (model is x.model_id)
      (on_generation-Keeps s g (complete_create x op k backend model)
        (complete_create-Frozen x op k backend model (s.store g)))
      (on_generation-Keeps s g (reject_create op k) (reject_create-Frozen op k (s.store g)))
settle_create-Keeps host client g op k x create_timeout s = doubt-Keeps host g _ k s
settle_create-Keeps host client g op k x rejected s =
    on_generation-Keeps s g (reject_create op k) (reject_create-Frozen op k (s.store g))
settle_create-Keeps host client g op k x create_raised s =
    if_both (Keeps s) client.is_alive (doubt-Keeps host g _ k s)
      (mark_generation_lost-Keeps host [] s)

pub settle_overflow-Keeps :
    (host : Host) (evidence : Overflow → Value) (g : ℕ) (op k : String) (o : Overflow) (s : Service)
    → Keeps s (settle_overflow host evidence g op k o s)
unfolding settle_overflow on_session
settle_overflow-Keeps host evidence g op k o s =
    if_both (Keeps s) o.settled_cancelled
      (on_generation-Keeps s g (λ x. set_session_state non_reusable k (end x))
        (Frozen-trans (s.store g) (end (s.store g)) _
          (settle_record-Frozen failed (some (evidence o)) limit op (s.store g))
          (same-Frozen _ _ refl)))
      (doubt-Keeps host g _ k s)
  where
    limit : Option Value
    limit = error_info "evidence_limit" "ACP evidence exceeded a negotiated limit"

    end : Generation → Generation
    end x = settle_record failed (some (evidence o)) limit op x

pub settle_uncertain-Keeps :
    (host : Host) (client : AcpClient) (g : ℕ) (op k : String) (s : Service)
    → Keeps s (settle_uncertain host client g op k s)
unfolding settle_uncertain
settle_uncertain-Keeps host client g op k s =
    if_both (Keeps s) client.is_alive (doubt-Keeps host g _ k s)
      (mark_generation_lost-Keeps host [] s)

pub settle_answer-Frozen :
    (w : Wire) (op k : String) (r : PromptRequest) (state : OperationState) (reason : String)
    (result : Value) (g : Generation)
    → Frozen g (settle_answer w op k r state reason result g)
unfolding settle_answer on_session
settle_answer-Frozen w op k r state reason result g =
    if_both (Frozen g) (is_cancelling state)
      (Frozen-trans g _ _
        (if_both (Frozen g) (reason is "cancelled")
          (settle_record-Frozen cancelled (some result) none op g)
          (settle_record-Frozen in_doubt none _ op g))
        (same-Frozen _ _ refl))
      (if_both (Frozen g) (reason is "cancelled")
        (Frozen-trans g _ _ (settle_record-Frozen cancelled (some result) none op g)
          (same-Frozen _ _ refl))
        (Frozen-trans g _ _ (settle_record-Frozen completed (some result) none op g)
          (same-Frozen _ _ refl)))
