-- ===== src/Service/Invariant/Reach.antt =====
-- src/acp_proxy/direct_service.py: the invariant holds in every state that DirectService reaches, and
-- what it means for a client: one prompt to a session, and a bounded queue.
use acp_test.Base.{ℕ, String, ◌≡◌, refl, sym, subst, Bool, false, some, [], arith}
use acp_test.Dict
use acp_test.State.{
  terminal, Result, ok, ◌>>=◌, >>=-eq-ok, is_prompt, OperationRecord, accepted, running, prompt,
}
use acp_test.Protocol.{DirectLimits, Wire}
use acp_test.Service.{Generation, Service, Host, on_generation, set_state}
use acp_test.Service.Pin.{require_current_generation, check_pin}
use acp_test.Service.Create.{commit_create, create_in}
use acp_test.Service.Prompt.{commit_prompt, prompt_in}
use acp_test.Service.Retire.{admit_retire, retire_in}
use acp_test.Service.Cancel.{admit_cancel, cancel_in, or_empty, begin_cancel}
use acp_test.Service.Execute.{begin_prompt}
use acp_test.Service.Creation.{begin_create}
use acp_test.Service.Settlement.{Dump}
use acp_test.Service.Step.{
  Step, Reach, record_at, init, creates, prompts, cancels, retires, starts_create, ends_create,
  starts_prompt, ends_prompt, finalizes, starts_cancel, ends_cancel, loses, here, next,
}
use acp_test.Service.Invariant.{IsSound}
use acp_test.Service.Invariant.Records.{set_state-IsSound}
use acp_test.Service.Invariant.Admission.{create_in-IsSound, retire_in-IsSound}
use acp_test.Service.Invariant.Reservation.{prompt_in-IsSound, clash}
use acp_test.Service.Invariant.Cancellation.{cancel_in-IsSound}
use acp_test.Service.Invariant.Tasks.{
  begin_prompt-IsSound, finalize_prompt-IsSound, plain_uncollected,
}
use acp_test.Service.Invariant.Store.{
  IsSafe, init-IsSafe, on_generation-IsSafe, mark_generation_lost-IsSafe,
}
use acp_test.Service.Invariant.Settlements.{settle_create-IsSafe}
use acp_test.Service.Invariant.Deadlines.{settle_prompt-IsSafe, settle_cancel-IsSafe}

-- What the lock's body answers: the record, whether it is new, and the generation after.
abbrev pub Answer : Type 0
Answer = OperationRecord × Bool × Generation

module _ (s : Service) (g : ℕ) where
  abbrev pub store_answer : Answer → Result (OperationRecord × Bool × Service)
  store_answer x = ok (x.0, x.1, on_generation s g (λ _. x.2))

  pub stored :
      (x : Answer) {y : OperationRecord × Bool × Service}
      → store_answer x ≡ ok y
      → y.2 ≡ on_generation s g (λ _. x.2)
  stored x e = ground arith

  -- A body that keeps a generation sound keeps the service safe.
  commit-IsSafe :
      (m : Result Answer) {y : OperationRecord × Bool × Service}
      → (m >>= store_answer) ≡ ok y
      → IsSafe s
      → ((x : Answer) → m ≡ ok x → IsSound s.limits x.2)
      → IsSafe y.2
  commit-IsSafe m e v keeps =
      let (x, ex, ey) = >>=-eq-ok m store_answer e in
      subst IsSafe (sym (stored x ey)) (on_generation-IsSafe s g (λ _. x.2) v (λ u. keeps x ex))

-- The first write of a task whose record is no prompt's.
start-IsSafe :
    (s : Service) (op : String) (rec : OperationRecord)
    → IsSafe s
    → record_at s op ≡ some rec
    → is_prompt rec.kind ≡ false
    → rec.state ≡ accepted
    → IsSafe (on_generation s s.current (set_state running op))
start-IsSafe s op rec v found plain state =
    on_generation-IsSafe s s.current (set_state running op) v (λ u.
      set_state-IsSound s.limits (s.store s.current) op u running refl
        (λ r h. ground (arith, found))
        (λ live c.
          absurd (clash (plain_uncollected s.limits (s.store s.current) op u found plain live) c)))

-- Every stretch of code keeps the invariant of the service.
pub Step-IsSafe :
    (host : Host) (w : Wire) (d : Dump) {s t : Service} → Step host w d s t → IsSafe s → IsSafe t
unfolding commit_create commit_prompt admit_retire admit_cancel begin_create begin_cancel
Step-IsSafe host w d {s} (creates g digest r e) v =
    let (u, _, chain) = >>=-eq-ok (require_current_generation s g) _ e in
    commit-IsSafe s g (create_in (s.store g) s.limits.max_sessions digest r) chain v
      (λ x ex. create_in-IsSound s.limits (s.store g) digest r (v.sound g) ex)
Step-IsSafe host w d {s} (prompts g digest k r e) v =
    let (u, _, chain) = >>=-eq-ok (require_current_generation s g) _ e in
    commit-IsSafe s g (prompt_in w (s.store g) s.limits.max_queued_prompts digest k r) chain v
      (λ x ex. prompt_in-IsSound s.limits w (s.store g) digest k r (v.sound g) ex)
Step-IsSafe host w d {s} (cancels client r e) v =
    let (g, _, rest) =
      >>=-eq-ok (check_pin s client r.protocol_major r.continuity_generation_id) _ e in
    let (u, _, chain) = >>=-eq-ok (require_current_generation s g) _ rest in
    commit-IsSafe s g (cancel_in (s.store g) _ r) chain v
      (λ x ex. cancel_in-IsSound s.limits (s.store g) _ r (v.sound g) ex)
Step-IsSafe host w d {s} (retires client r e) v =
    let (g, _, rest) =
      >>=-eq-ok (check_pin s client r.protocol_major r.continuity_generation_id) _ e in
    let (u, _, chain) = >>=-eq-ok (require_current_generation s g) _ rest in
    commit-IsSafe s g (retire_in (s.store g) _ r) chain v
      (λ x ex. retire_in-IsSound s.limits (s.store g) _ r (v.sound g) ex)
Step-IsSafe host w d {s} (starts_create op rec a found kind state) v =
    start-IsSafe s op rec v found (ground arith) state
Step-IsSafe host w d {s} (ends_create client op k rec x outcome a found kind there) v =
    settle_create-IsSafe host client op k x outcome s rec a found kind v
Step-IsSafe host w d {s} (starts_prompt op rec a found kind) v =
    on_generation-IsSafe s s.current (begin_prompt op) v
      (λ u. begin_prompt-IsSound s.limits (s.store s.current) op op u rec found (ground arith))
Step-IsSafe host w d {s} (ends_prompt client op k r rec x outcome a live runs found there) v =
    settle_prompt-IsSafe host client op k s a v ((v.sound s.current).collecting live op runs) w d r
      rec x outcome
Step-IsSafe host w d {s} (finalizes g op k {h = h} over e) v =
    on_generation-IsSafe s g (λ _. h) v
      (λ u. finalize_prompt-IsSound s.limits (s.store g) op k u over e)
Step-IsSafe host w d {s} (starts_cancel op rec a found kind state) v =
    start-IsSafe s op rec v found (ground arith) state
Step-IsSafe host w d {s} (ends_cancel op target k rec outcome a found kind) v =
    settle_cancel-IsSafe host op target k rec outcome s a found kind v
Step-IsSafe host w d {s} loses v = mark_generation_lost-IsSafe host [] s v

pub Reach-IsSafe :
    (host : Host) (w : Wire) (d : Dump) {s t : Service} → IsSafe s → Reach host w d s t → IsSafe t
Reach-IsSafe host w d v here = v
Reach-IsSafe host w d v (next r st) = Step-IsSafe host w d st (Reach-IsSafe host w d v r)

module _ (host : Host) (w : Wire) (d : Dump) (workspace : String) (limits : DirectLimits)
    (id : String) where
  pub reachable-IsSafe : {t : Service} → Reach host w d (init host workspace limits id) t → IsSafe t
  reachable-IsSafe r = Reach-IsSafe host w d (init-IsSafe workspace limits id) r

-- In every reachable state, two prompts of one logical session in a generation that is not quarantined
-- are never unsettled at the same time: such prompts are one operation.
pub prompt_exclusion :
    (host : Host) (w : Wire) (d : Dump) (workspace : String) (limits : DirectLimits) (id : String)
    (g : ℕ) (op other : String) (p q : OperationRecord) {t : Service}
    → Reach host w d (init host workspace limits id) t
    → (t.store g).quarantined ≡ false
    → Dict.get (t.store g).ledger.records op ≡ some p
    → Dict.get (t.store g).ledger.records other ≡ some q
    → p.kind ≡ prompt
    → q.kind ≡ prompt
    → terminal p.state ≡ false
    → terminal q.state ≡ false
    → or_empty p.logical_session_id ≡ or_empty q.logical_session_id
    → op ≡ other
prompt_exclusion host w d workspace limits id g op other p q {t} r live hp hq kp kq lp lq same =
    let v = (reachable-IsSafe host w d workspace limits id r).sound g in
    ground (arith, v.exclusive live op p hp, v.exclusive live other q hq)
