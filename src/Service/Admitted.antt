-- ===== src/Service/Admitted.antt =====
-- src/acp_proxy/direct_service.py: an admission that is repeated gives the first one's record back, and
-- writes nothing.
use acp_test.Base.{
  ℕ, String, ◌≡◌, Bool, true, false, some, arith, is_refl, ◌⊎◌, inl, inr, subst, sym, ap, ◌∙◌,
  Bool-cases, ltb,
}
use mathlib.Core.Option
use acp_test.Dict
use acp_test.Dict.{get-put, get-modify, is_some}
use acp_test.State.{accepted, queued, OperationState, ok, OperationRecord}
use acp_test.Ledger
use acp_test.Ledger.{Ledger, same_identity, new_record}
use acp_test.Protocol.{CreateSessionRequest, PromptRequest, Wire}
use acp_test.Service.{Generation}
use acp_test.Service.Create.{create_candidate, create_in, install_session}
use acp_test.Service.Prompt.{prompt_candidate, prompt_in, prompt_new, prompt_replay, reserve}

-- The record of a prompt that is admitted has the identity of the request.
module _ (g : Generation) (digest k : String) (r : PromptRequest) where
  abbrev new : OperationRecord
  new = new_record r.operation_id (prompt_candidate digest k r)

  abbrev with_new : Ledger
  with_new = record g.ledger { records = Dict.put g.ledger.records r.operation_id new }

  new_identity :
      (state : OperationState)
      → same_identity (record new { state = state }) (prompt_candidate digest k r) ≡ true
  unfolding same_identity
  new_identity state = ground (arith, is_refl digest, is_refl k, is_refl r.invocation_id)

  found_new : Dict.get with_new.records r.operation_id ≡ some new
  found_new =
      ground
        (arith, get-put g.ledger.records r.operation_id r.operation_id new, is_refl r.operation_id)

  found_queued :
      Dict.get
        (Dict.modify with_new.records r.operation_id (λ x. record x { state = queued }))
        r.operation_id
      ≡ some (record new { state = queued })
  found_queued =
      get-modify with_new.records r.operation_id r.operation_id (λ x. record x { state = queued })
      ∙ (rw (is_refl r.operation_id)
          (ap (Option.map (λ (x : OperationRecord). record x { state = queued })) found_new))

  reserve_record :
      {rec : OperationRecord}
      → Dict.get (reserve k r with_new g).ledger.records r.operation_id ≡ some rec
      → same_identity rec (prompt_candidate digest k r) ≡ true
  unfolding reserve Ledger.update
  reserve_record {rec} h = elim (Bool-cases (ltb 0 g.prompt_reservations)) [
    | inl e ↦ is_new queued (sym found_queued ∙ (rw e at h))
    | inr e ↦ is_new accepted (sym found_new ∙ (rw e at h))
  ]
    where
      is_new :
          (state : OperationState)
          → some (record new { state = state }) ≡ some rec
          → same_identity rec (prompt_candidate digest k r) ≡ true
      is_new state e = ground (arith, new_identity state)

-- An admission replays a record, or reserves a new one.
prompt_in_cases :
    (w : Wire) (g : Generation) (max_queued : ℕ) (digest k : String) (r : PromptRequest)
    {rec : OperationRecord} {created : Bool} {h : Generation}
    → prompt_in w g max_queued digest k r ≡ ok (rec, created, h)
    → (Dict.get h.ledger.records r.operation_id ≡ some rec)
      × ((same_identity rec (prompt_candidate digest k r) ≡ true)
          ⊎ (h ≡ reserve k r (with_new g digest k r) g))
unfolding prompt_in prompt_new prompt_replay Ledger.admit Ledger.get
prompt_in_cases w g max_queued digest k r e = ground arith

-- What an admission leaves in the ledger.
prompt_in_found :
    (w : Wire) (g : Generation) (max_queued : ℕ) (digest k : String) (r : PromptRequest)
    {rec : OperationRecord} {created : Bool} {h : Generation}
    → prompt_in w g max_queued digest k r ≡ ok (rec, created, h)
    → (Dict.get h.ledger.records r.operation_id ≡ some rec)
      × (same_identity rec (prompt_candidate digest k r) ≡ true)
prompt_in_found w g max_queued digest k r {rec} e =
    let (found, way) = prompt_in_cases w g max_queued digest k r e in
    elim way [
      | inl same ↦ (found, same)
      | inr reserved ↦ (
        found,
        reserve_record g digest k r (
            subst (λ (x : Generation). Dict.get x.ledger.records r.operation_id ≡ some rec) reserved
              found),
      )
    ]

-- The body of admit_prompt under the lock: after a success, the same request again answers with the
-- record that the ledger holds then, not created, and leaves the generation as it is, whatever the
-- limit, so that no prompt is scheduled twice.
pub prompt_in-prompt_in :
    (w : Wire) (g : Generation) (max_queued again : ℕ) (digest k : String) (r : PromptRequest)
    {rec : OperationRecord} {created : Bool} {h : Generation}
    → prompt_in w g max_queued digest k r ≡ ok (rec, created, h)
    → prompt_in w h again digest k r ≡ ok (rec, false, h)
unfolding prompt_in prompt_replay Ledger.admit
prompt_in-prompt_in w g max_queued again digest k r e =
    let (found, same) = prompt_in_found w g max_queued digest k r e in ground arith

-- The body of admit_create under the lock, in the same way: no session is created twice.
pub create_in-create_in :
    (g : Generation) (max_sessions again : ℕ) (digest : String) (r : CreateSessionRequest)
    {rec : OperationRecord} {created : Bool} {h : Generation}
    → create_in g max_sessions digest r ≡ ok (rec, created, h)
    → create_in h again digest r ≡ ok (rec, false, h)
unfolding create_in Ledger.admit install_session same_identity
create_in-create_in g max_sessions again digest r e = ground (
  arith,
  get-put g.ledger.records r.operation_id r.operation_id
      (new_record r.operation_id (create_candidate digest r)),
  is_refl r.operation_id,
  is_refl digest,
  is_refl r.logical_session_id,
)
