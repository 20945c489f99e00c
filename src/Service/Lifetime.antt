-- ===== src/Service/Lifetime.antt =====
-- src/acp_proxy/direct_service.py, _validate_prompt_lifetime with what _execute_prompt writes after a
-- completed prompt: which prompts a session accepts next.
use acp_test.Base.{
  ◌≡◌, Bool, true, false, arith, is_refl, Option-cases, inl, inr, String, List, [], ◌∷◌,
}
use acp_test.Dict
use acp_test.Dict.{get-put, is_some}
use acp_test.State.{conflict, ok, err, DirectSession}
use acp_test.Protocol.{
  PromptRequest, PromptPhase, initial, invocation, correction, continuation, Wire, sha256_text,
}
use acp_test.Service.Prompt.{validate_prompt_lifetime}
use acp_test.Service.Settlement.{advance_session}

-- A phase that adds to an invocation.
abbrev pub is_delta : PromptPhase → Bool
is_delta correction = true
is_delta continuation = true
is_delta _ = false

-- The session after some completed prompts, the first of them first.
unfoldable pub completed_prompts : Wire → List PromptRequest → DirectSession → DirectSession
completed_prompts w [] x = x
completed_prompts w (r ∷ rs) x = completed_prompts w rs (advance_session w r x)

stable_kept :
    (w : Wire) (rs : List PromptRequest) (x : DirectSession)
    → x.stable_submitted ≡ true
    → (completed_prompts w rs x).stable_submitted ≡ true
unfolding completed_prompts advance_session
stable_kept w [] x h = h
stable_kept w (r ∷ rs) x h = stable_kept w rs (advance_session w r x) (ground arith)

-- An invocation has been opened in a session.
abbrev pub is_opened : DirectSession → String → Bool
is_opened x id = is_some (Dict.get x.invocation_contract_digests id)

advance_session-opened :
    (w : Wire) (r : PromptRequest) (x : DirectSession) (id : String)
    → is_opened x id ≡ true
    → is_opened (advance_session w r x) id ≡ true
unfolding advance_session
advance_session-opened w r x id h = elim (Option-cases r.output_contract) [
  | inl n ↦ ground arith
  | inr (t, s) ↦
      ground (arith, get-put x.invocation_contract_digests r.invocation_id id (sha256_text w t))
]

opened_kept :
    (w : Wire) (rs : List PromptRequest) (x : DirectSession) (id : String)
    → is_opened x id ≡ true
    → is_opened (completed_prompts w rs x) id ≡ true
unfolding completed_prompts
opened_kept w [] x id h = h
opened_kept w (r ∷ rs) x id h =
    opened_kept w rs (advance_session w r x) id (advance_session-opened w r x id h)

refused_initial :
    (w : Wire) (x : DirectSession) (q : PromptRequest)
    → x.stable_submitted ≡ true
    → q.phase ≡ initial
    → validate_prompt_lifetime w x q ≡ err conflict
unfolding validate_prompt_lifetime
refused_initial w x q h p = ground arith

refused_invocation :
    (w : Wire) (x : DirectSession) (q : PromptRequest)
    → is_opened x q.invocation_id ≡ true
    → q.phase ≡ invocation
    → validate_prompt_lifetime w x q ≡ err conflict
unfolding validate_prompt_lifetime
refused_invocation w x q h p = ground arith

-- Once an initial prompt has completed, and whatever prompts have completed after it, no initial prompt is
-- accepted: the stable instructions are submitted to a session at most once.
pub validate_prompt_lifetime-once :
    (w : Wire) (x : DirectSession) (r q : PromptRequest) (rs : List PromptRequest)
    → r.phase ≡ initial
    → q.phase ≡ initial
    → validate_prompt_lifetime w (completed_prompts w (r ∷ rs) x) q ≡ err conflict
unfolding completed_prompts advance_session
validate_prompt_lifetime-once w x r q rs rp qp =
    refused_initial w (completed_prompts w (r ∷ rs) x) q
      (stable_kept w rs (advance_session w r x) (ground arith)) qp

-- Once a prompt with a contract has completed, and whatever prompts have completed after it, a request to open
-- its invocation again is a conflict.
pub validate_prompt_lifetime-invocation :
    (w : Wire) (x : DirectSession) (r q : PromptRequest) (rs : List PromptRequest)
    → is_some r.output_contract ≡ true
    → q.phase ≡ invocation
    → q.invocation_id ≡ r.invocation_id
    → validate_prompt_lifetime w (completed_prompts w (r ∷ rs) x) q ≡ err conflict
unfolding completed_prompts advance_session
validate_prompt_lifetime-invocation w x r q rs c p e =
    refused_invocation w (completed_prompts w (r ∷ rs) x) q
      (opened_kept w rs (advance_session w r x) q.invocation_id opened) p
  where
    opened : is_opened (advance_session w r x) q.invocation_id ≡ true
    opened = elim (Option-cases r.output_contract) [
      | inl n ↦ cc
      | inr (t, s) ↦ ground (
        arith,
        is_refl r.invocation_id,
        get-put x.invocation_contract_digests r.invocation_id q.invocation_id (sha256_text w t),
      )
    ]

-- After an accepted prompt that opened an invocation, a correction or a continuation of that invocation
-- under the same digests is accepted.
pub validate_prompt_lifetime-delta :
    (w : Wire) (x : DirectSession) (r q : PromptRequest)
    → validate_prompt_lifetime w x r ≡ ok tt
    → is_delta r.phase ≡ false
    → is_delta q.phase ≡ true
    → q.invocation_id ≡ r.invocation_id
    → q.stable_instruction_digest ≡ r.stable_instruction_digest
    → q.output_contract_digest ≡ r.output_contract_digest
    → validate_prompt_lifetime w (advance_session w r x) q ≡ ok tt
unfolding validate_prompt_lifetime advance_session
validate_prompt_lifetime-delta w x r q v rp qp i s c = elim (Option-cases r.output_contract) [
  | inl n ↦ ground arith
  | inr (t, e) ↦ ground (
    arith,
    is_refl r.invocation_id,
    is_refl r.output_contract_digest,
    is_refl x.stable_instruction_digest,
    get-put x.invocation_contract_digests r.invocation_id q.invocation_id (sha256_text w t),
  )
]
