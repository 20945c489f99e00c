-- ===== src/Service/Invariant/Store.antt =====
-- src/acp_proxy/direct_service.py: a write to one generation, and the loss of the current one, keep the
-- invariant of the service.
use acp_test.Base.{
  ℕ, ◌<◌, String, ◌≡◌, refl, sym, subst, ap, ◌∙◌, inl, inr, Bool, true, false, not, List, [], ◌∷◌,
  arith, ◌==◌, Bool-cases, if◌then◌else◌,
}
use mathlib.Core.Path.{fun_ext}
use acp_test.Protocol.{DirectLimits}
use acp_test.Service.{Generation, Service, Host, new_generation, on_generation, settle_record}
use acp_test.Service.Loss.{
  DeferredSettlement, deferred_ids, quarantine, mark_generation_lost, quarantine_uncertain,
  settle_all,
}
use acp_test.Service.Invariant.{IsSound}
use acp_test.Service.Invariant.Losses.{
  quarantine-IsSound, new_generation-IsSound, settle_all-IsSound,
}

-- Every generation is sound, and the current one is not the next reference.
pub record IsSafe (s : Service) : Type 0 where
  pub sound : (q : ℕ) → IsSound s.limits (s.store q)
  pub distinct : s.current < s.next_ref

-- Whichever way a test goes.
pub if-IsSafe : (b : Bool) {s t : Service} → IsSafe s → IsSafe t → IsSafe (if b then s else t)
if-IsSafe true v u = v
if-IsSafe false v u = u

pub init-IsSafe :
    (workspace : String) (limits : DirectLimits) (id : String)
    → IsSafe (record {
      canonical_workspace = workspace;
      limits = limits;
      available = true;
      current = 0;
      store = λ q. new_generation id limits.max_operations;
      next_ref = 1;
    })
init-IsSafe workspace limits id = record {
  sound = λ q. new_generation-IsSound limits id;
  distinct = omega arith;
}

pub on_generation-IsSafe :
    (s : Service) (g : ℕ) (f : Generation → Generation)
    → IsSafe s
    → (IsSound s.limits (s.store g) → IsSound s.limits (f (s.store g)))
    → IsSafe (on_generation s g f)
on_generation-IsSafe s g f v keeps = record {
  sound = λ q. elim (Bool-cases (q == g)) [
    | inl e ↦ rw e (keeps (v.sound g))
    | inr e ↦ rw e (v.sound q)
  ];
  distinct = v.distinct;
}

pub mark_generation_lost-IsSafe :
    (host : Host) (defer : List String) (s : Service)
    → IsSafe s
    → IsSafe (mark_generation_lost host defer s)
unfolding mark_generation_lost
mark_generation_lost-IsSafe host defer s v = elim (Bool-cases (not s.available)) [
  | inl e ↦ rw e v
  | inr e ↦ rw e (record {
    sound = λ q. elim (Bool-cases (q == s.next_ref)) [
      | inl n ↦ rw n (new_generation-IsSound s.limits (host.uuid s.next_ref))
      | inr n ↦ elim (Bool-cases (q == s.current)) [
        | inl c ↦
            rw (n, c) (quarantine-IsSound s.limits (s.store s.current) defer (v.sound s.current))
        | inr c ↦ rw (n, c) (v.sound q)
      ]
    ];
    distinct = omega arith;
  })
]

-- The generation that was current is quarantined.
pub mark_quarantined :
    (host : Host) (defer : List String) (s : Service)
    → s.current < s.next_ref
    → s.available ≡ true
    → ((mark_generation_lost host defer s).store s.current) ≡ quarantine defer (s.store s.current)
unfolding mark_generation_lost
mark_quarantined host defer s d a = ground arith

pub quarantine_uncertain-IsSafe :
    (host : Host) (ds : List DeferredSettlement) (s : Service)
    → s.available ≡ true
    → IsSafe s
    → IsSafe (quarantine_uncertain host s.current ds s)
unfolding quarantine_uncertain
quarantine_uncertain-IsSafe host ds s a v =
    on_generation-IsSafe (mark_generation_lost host (deferred_ids ds) s) s.current (settle_all ds)
      (mark_generation_lost-IsSafe host (deferred_ids ds) s v)
      (λ u. settle_all-IsSound _ ds _ u (
        subst (λ (g : Generation). g.quarantined ≡ true)
          (sym (mark_quarantined host (deferred_ids ds) s v.distinct a))
          (unfold quarantine in refl)))

-- Two writes to one generation are one.
pub on_generation-fuse :
    (s : Service) (g : ℕ) (f h : Generation → Generation)
    → on_generation (on_generation s g f) g h ≡ on_generation s g (λ x. h (f x))
on_generation-fuse s g f h =
    ap (λ (store : ℕ → Generation). record s { store = store }) (fun_ext λ q. ground arith)

pub store-on_generation :
    (s : Service) (g : ℕ) (f : Generation → Generation)
    → (on_generation s g f).store g ≡ f (s.store g)
store-on_generation s g f = ground arith

settle_all_quarantined :
    (ds : List DeferredSettlement) (g : Generation) → (settle_all ds g).quarantined ≡ g.quarantined
unfolding settle_all
settle_all_quarantined [] g = refl
settle_all_quarantined (e ∷ ds) g =
    settle_all_quarantined ds (settle_record e.state e.result e.error e.operation_id g)
    ∙ (unfold settle_record in refl)

-- After a loss in doubt the generation that was current is quarantined.
pub uncertain_quarantined :
    (host : Host) (ds : List DeferredSettlement) (s : Service)
    → s.current < s.next_ref
    → s.available ≡ true
    → ((quarantine_uncertain host s.current ds s).store s.current).quarantined ≡ true
unfolding quarantine_uncertain
uncertain_quarantined host ds s d a =
    ap (λ (x : Generation). x.quarantined)
      (store-on_generation (mark_generation_lost host (deferred_ids ds) s) s.current
        (settle_all ds))
    ∙ settle_all_quarantined ds _
    ∙ ap (λ (x : Generation). x.quarantined) (mark_quarantined host (deferred_ids ds) s d a)
    ∙ (unfold quarantine in refl)
