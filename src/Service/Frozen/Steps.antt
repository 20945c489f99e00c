-- ===== src/Service/Frozen/Steps.antt =====
-- src/acp_proxy/direct_service.py: no step of the service changes a terminal record of any generation.
use acp_test.Base.{
  ℕ, String, ◌≡◌, refl, sym, subst, Bool, true, false, some, [], arith, Bool-cases, inl, inr,
  if_true, if_false,
}
use acp_test.Dict
use acp_test.State.{OperationRecord, terminal, Result, ok, ◌>>=◌, >>=-eq-ok, running, accepted}
use acp_test.Protocol.{Wire}
use acp_test.Service.{Generation, Service, Host, on_generation, set_state, on_session}
use acp_test.Service.Pin.{require_current_generation, check_pin}
use acp_test.Service.Create.{commit_create, create_in}
use acp_test.Service.Prompt.{commit_prompt, prompt_in}
use acp_test.Service.Retire.{admit_retire, retire_in}
use acp_test.Service.Cancel.{admit_cancel, cancel_in, begin_cancel, release_prompt_reservation}
use acp_test.Service.Execute.{
  begin_prompt, dispatch, is_dispatched, run_unless_cancelling, finalize_prompt, leave_session,
}
use acp_test.Service.Creation.{begin_create}
use acp_test.Service.Settlement.{Dump}
use acp_test.Service.Step.{
  Step, Reach, record_at, creates, prompts, cancels, retires, starts_create, ends_create,
  starts_prompt, ends_prompt, finalizes, starts_cancel, ends_cancel, loses, here, next,
}
use acp_test.Service.Invariant.{collected_at}
use acp_test.Service.Invariant.Store.{IsSafe}
use acp_test.Service.Invariant.Reach.{Answer, store_answer, stored, Step-IsSafe}
use acp_test.Service.Frozen.{Frozen, same-Frozen, update-Frozen, set_state-Frozen}
use acp_test.Service.Frozen.Admissions.{
  create_in-Frozen, prompt_in-Frozen, retire_in-Frozen, cancel_in-Frozen,
}
use acp_test.Service.Frozen.Tasks.{
  Keeps, Keeps-refl, Keeps-trans, on_generation-Keeps, mark_generation_lost-Keeps,
  settle_create-Keeps,
}
use acp_test.Service.Frozen.Deadlines.{settle_prompt-Keeps, settle_cancel-Keeps}

commit-Keeps :
    (s : Service) (g : ℕ) (m : Result Answer) {y : OperationRecord × Bool × Service}
    → (m >>= store_answer s g) ≡ ok y
    → ((x : Answer) → m ≡ ok x → Frozen (s.store g) x.2)
    → Keeps s y.2
commit-Keeps s g m e keeps =
    let (x, ex, ey) = >>=-eq-ok m (store_answer s g) e in
    subst (Keeps s) (sym (stored s g x ey)) (on_generation-Keeps s g (λ _. x.2) (keeps x ex))

-- A record that is dispatched is not terminal.
begin_prompt-Frozen : (op : String) (g : Generation) → Frozen g (begin_prompt op g)
unfolding begin_prompt dispatch
begin_prompt-Frozen op g = elim (Bool-cases (is_dispatched (Dict.get g.ledger.records op))) [
  | inl live ↦ subst (Frozen g) (sym (if_true _ _ _ live)) (
      update-Frozen g (dispatch op (record g { prompt_lock = some op })) op run_unless_cancelling
        refl (λ r found over. ground arith))
  | inr over ↦ subst (Frozen g) (sym (if_false _ _ _ over)) (same-Frozen g _ refl)
]

finalize_prompt-ledger :
    (op k : String) (g : Generation) {h : Generation}
    → finalize_prompt op k g ≡ ok h
    → h.ledger ≡ g.ledger
unfolding finalize_prompt release_prompt_reservation leave_session on_session
finalize_prompt-ledger op k g e = ground arith

start-Keeps :
    (s : Service) (op : String) (rec : OperationRecord)
    → record_at s op ≡ some rec
    → rec.state ≡ accepted
    → Keeps s (on_generation s s.current (set_state running op))
start-Keeps s op rec found state =
    on_generation-Keeps s s.current (set_state running op)
      (set_state-Frozen running op (s.store s.current) (λ r h. ground (arith, found)))

collected_live :
    (s : Service) (op : String)
    → collected_at (record_at s op) ≡ true
    → (r : OperationRecord) → record_at s op ≡ some r
    → terminal r.state ≡ false
collected_live s op c r h = ground arith

Step-Keeps :
    (host : Host) (w : Wire) (d : Dump) {s t : Service} → Step host w d s t → IsSafe s → Keeps s t
unfolding commit_create commit_prompt admit_retire admit_cancel begin_create begin_cancel
Step-Keeps host w d {s} (creates g digest r e) v =
    let (u, _, chain) = >>=-eq-ok (require_current_generation s g) _ e in
    commit-Keeps s g (create_in (s.store g) s.limits.max_sessions digest r) chain
      (λ x ex. create_in-Frozen (s.store g) s.limits.max_sessions digest r ex)
Step-Keeps host w d {s} (prompts g digest k r e) v =
    let (u, _, chain) = >>=-eq-ok (require_current_generation s g) _ e in
    commit-Keeps s g (prompt_in w (s.store g) s.limits.max_queued_prompts digest k r) chain
      (λ x ex. prompt_in-Frozen w (s.store g) s.limits.max_queued_prompts digest k r ex)
Step-Keeps host w d {s} (cancels client r e) v =
    let (g, _, rest) =
      >>=-eq-ok (check_pin s client r.protocol_major r.continuity_generation_id) _ e in
    let (u, _, chain) = >>=-eq-ok (require_current_generation s g) _ rest in
    commit-Keeps s g (cancel_in (s.store g) _ r) chain
      (λ x ex. cancel_in-Frozen (s.store g) _ r ((v.sound g).named) ex)
Step-Keeps host w d {s} (retires client r e) v =
    let (g, _, rest) =
      >>=-eq-ok (check_pin s client r.protocol_major r.continuity_generation_id) _ e in
    let (u, _, chain) = >>=-eq-ok (require_current_generation s g) _ rest in
    commit-Keeps s g (retire_in (s.store g) _ r) chain (λ x ex. retire_in-Frozen (s.store g) _ r ex)
Step-Keeps host w d {s} (starts_create op rec a found kind state) v =
    start-Keeps s op rec found state
Step-Keeps host w d {s} (ends_create client op k rec x outcome a found kind there) v =
    settle_create-Keeps host client s.current op k x outcome s
Step-Keeps host w d {s} (starts_prompt op rec a found kind) v =
    on_generation-Keeps s s.current (begin_prompt op) (begin_prompt-Frozen op (s.store s.current))
Step-Keeps host w d {s} (ends_prompt client op k r rec x outcome a live runs found there) v =
    settle_prompt-Keeps host client s.current op k w d r rec x outcome s
      (collected_live s op ((v.sound s.current).collecting live op runs))
Step-Keeps host w d {s} (finalizes g op k {h = h} over e) v =
    on_generation-Keeps s g (λ _. h)
      (same-Frozen (s.store g) h (finalize_prompt-ledger op k (s.store g) e))
Step-Keeps host w d {s} (starts_cancel op rec a found kind state) v =
    start-Keeps s op rec found state
Step-Keeps host w d {s} (ends_cancel op target k rec outcome a found kind) v =
    settle_cancel-Keeps host s.current op target k outcome s
Step-Keeps host w d {s} loses v = mark_generation_lost-Keeps host [] s

-- Both along a run: the service stays safe, and terminal records stay as they are.
pub Reach-Keeps :
    (host : Host) (w : Wire) (d : Dump) {s t : Service}
    → IsSafe s
    → Reach host w d s t
    → IsSafe t × Keeps s t
Reach-Keeps host w d {s} v here = (v, Keeps-refl s)
Reach-Keeps host w d {s} v (next r st) =
    let (safe, kept) = Reach-Keeps host w d v r in
    (Step-IsSafe host w d st safe, Keeps-trans s _ _ kept (Step-Keeps host w d st safe))
