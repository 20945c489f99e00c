-- ===== src/Service/Invariant/Reservation.antt =====
-- src/acp_proxy/direct_service.py: the admission of a prompt keeps the invariant of a generation.
use acp_test.Base.{
  ℕ, ◌+◌, ◌≤◌, ◌<◌, String, ◌≡◌, refl, sym, subst, ◌⊎◌, inl, inr, Bool, true, false, none, some,
  arith, is_refl, Bool-cases, ltb,
}
use acp_test.Dict
use acp_test.Dict.{get-put, get-put_inv, get-modify, size-put, is_some}
use acp_test.State.{ok, OperationRecord, DirectSession, queued, SessionState}
use acp_test.Ledger
use acp_test.Ledger.{Ledger, Candidate, new_record}
use acp_test.Protocol.{DirectLimits, PromptRequest, Wire}
use acp_test.Service.{Generation, on_session}
use acp_test.Service.Prompt.{prompt_in, prompt_candidate, reserve}
use acp_test.Service.Invariant.{IsSound, active_of, put-IsSound, claim-IsSound}
use acp_test.Service.Invariant.Records.{set_state-IsSound}
use acp_test.Service.Invariant.Admission.{schedule-IsSound, uncollected}

abbrev Reserved : ℕ → String → String → PromptRequest → Generation → Generation → Type 0
Reserved n digest k r g h =
    (h ≡ g)
    ⊎ ((x : DirectSession) × (Dict.get g.ledger.records r.operation_id ≡ none)
        × (Dict.size g.ledger.records < g.ledger.max_operations)
        × (Dict.get g.sessions k ≡ some x)
        × (x.active_operation_id ≡ none)
        × (g.prompt_reservations ≤ n)
        × (h
            ≡ reserve k r
                (record g.ledger {
                  records =
                      Dict.put g.ledger.records r.operation_id
                        (new_record r.operation_id (prompt_candidate digest k r));
                })
                g))

pub prompt_in_cases :
    (w : Wire) (g : Generation) (n : ℕ) (digest k : String) (r : PromptRequest)
    {rec : OperationRecord} {b : Bool} {h : Generation}
    → prompt_in w g n digest k r ≡ ok (rec, b, h)
    → Reserved n digest k r g h
unfolding prompt_in Ledger.admit
prompt_in_cases w g n digest k r e = ground arith

pub clash : {b : Bool} → b ≡ false → b ≡ true → ⊥
clash p q = cc

-- The session is claimed first, then its record is put, then marked as waiting.
module _ (limits : DirectLimits) (g : Generation) (digest k : String) (r : PromptRequest)
    (v : IsSound limits g) where
  admitted : Generation
  admitted = record g {
    ledger = record g.ledger {
      records =
          Dict.put g.ledger.records r.operation_id
            (new_record r.operation_id (prompt_candidate digest k r));
    };
    prompt_reservations = g.prompt_reservations + 1;
    sessions =
        Dict.modify g.sessions k
          (λ x. record x { active_operation_id = some r.operation_id; state = SessionState.busy });
  }

  more-IsSound :
      g.prompt_reservations ≤ limits.max_queued_prompts
      → IsSound limits (record g { prompt_reservations = g.prompt_reservations + 1 })
  more-IsSound room = record {
    exclusive = v.exclusive;
    signalled = v.signalled;
    named = v.named;
    collecting = v.collecting;
    queue_bounded = omega arith;
    ledger_bounded = v.ledger_bounded;
    sessions_bounded = v.sessions_bounded;
  }

  module _ (x : DirectSession) (fresh : Dict.get g.ledger.records r.operation_id ≡ none)
      (found : Dict.get g.sessions k ≡ some x) (idle : x.active_operation_id ≡ none) where
    claimed : active_of admitted k ≡ some r.operation_id
    unfolding admitted
    claimed = ground (
      arith,
      get-modify g.sessions k k
          (λ x. record x { active_operation_id = some r.operation_id; state = SessionState.busy }),
      is_refl k,
    )

    admitted-IsSound :
        Dict.size g.ledger.records < g.ledger.max_operations
        → g.prompt_reservations ≤ limits.max_queued_prompts
        → IsSound limits admitted
    unfolding admitted on_session
    admitted-IsSound room more =
        put-IsSound limits _ r.operation_id
          (new_record r.operation_id (prompt_candidate digest k r))
          (claim-IsSound limits _ k
            (λ x. record x { active_operation_id = some r.operation_id; state = SessionState.busy })
            (more-IsSound more) (ground arith))
          fresh room refl refl (λ p. claimed)

    admitted_record :
        (q : OperationRecord)
        → Dict.get admitted.ledger.records r.operation_id ≡ some q
        → q ≡ new_record r.operation_id (prompt_candidate digest k r)
    unfolding admitted
    admitted_record q h = ground (
      arith,
      get-put g.ledger.records r.operation_id r.operation_id
          (new_record r.operation_id (prompt_candidate digest k r)),
      is_refl r.operation_id,
    )

    reserve-IsSound :
        Dict.size g.ledger.records < g.ledger.max_operations
        → g.prompt_reservations ≤ limits.max_queued_prompts
        → IsSound limits (reserve k r admitted.ledger g)
    unfolding reserve admitted
    reserve-IsSound room more = elim (Bool-cases (ltb 0 g.prompt_reservations)) [
      | inl e ↦ rw e (
          schedule-IsSound limits _ _ (
            set_state-IsSound limits admitted r.operation_id (admitted-IsSound room more) queued
              refl (λ q h. ground (arith, admitted_record q h))
              (λ live c. absurd (clash (uncollected limits g r.operation_id v fresh live) c))))
      | inr e ↦ rw e (schedule-IsSound limits _ _ (admitted-IsSound room more))
    ]

pub prompt_in-IsSound :
    (limits : DirectLimits) (w : Wire) (g : Generation) (digest k : String) (r : PromptRequest)
    {rec : OperationRecord} {b : Bool} {h : Generation}
    → IsSound limits g
    → prompt_in w g limits.max_queued_prompts digest k r ≡ ok (rec, b, h)
    → IsSound limits h
unfolding admitted
prompt_in-IsSound limits w g digest k r v e =
    elim (prompt_in_cases w g limits.max_queued_prompts digest k r e) [
      | inl same ↦ subst (IsSound limits) (sym same) v
      | inr c ↦
          subst (IsSound limits) (sym c.6)
            (reserve-IsSound limits g digest k r v c.0 c.1 c.3 c.4 c.2 c.5)
    ]
