-- ===== src/Examples/Records.antt =====
-- Tests and examples of the ledger, of a prompt's layers, and of the prompts that a session accepts.
use acp_test.Base.{◌≤◌, ◌≡◌, refl, ◌↔◌, false, none, some, List, [], ◌∷◌, if◌then◌else◌}
use acp_test.Dict
use acp_test.State.{
  ok, err, conflict, limit_exceeded, OperationRecord, accepted, completed, cancelled, ready,
}
use acp_test.Ledger.{Ledger, admit, new_ledger, same_identity}
use acp_test.Ledger.AtMostOnce.{
  Event, admits, settles, history, Follows, admit-admit, history-Follows,
}
use acp_test.Ledger.Capacity.{IsBounded, admit_refused, new_ledger-history-IsBounded}
use acp_test.Protocol.{PromptRequest, invocation, validate_layers, render_blocks}
use acp_test.Protocol.Layers.{render_blocks-join, join_layers, layers}
use acp_test.Service.Prompt.{validate_prompt_lifetime}
use acp_test.Service.Settlement.{advance_session}
use acp_test.Service.Lifetime.{
  validate_prompt_lifetime-once, validate_prompt_lifetime-invocation,
  validate_prompt_lifetime-delta, completed_prompts,
}
use acp_test.Examples.{
  candidate, empty_ledger, prompt_of, wire, session_in, first_prompt, correction_prompt,
}

abbrev one : Ledger
one = record { max_operations = 2; records = Dict.put Dict.empty "prompt" (prompt_of accepted) }

abbrev events : List Event
events =
    admits "other" candidate
    ∷ settles "prompt" completed none none
    ∷ settles "prompt" cancelled none none
    ∷ []

admit-admit_example : admit one "prompt" candidate ≡ (
    if same_identity (prompt_of accepted) candidate
    then ok (prompt_of accepted, false, one)
    else err conflict)
unfolding admit same_identity Dict.get Dict.put Dict.empty
admit-admit_example = admit-admit one "prompt" candidate candidate refl

history-Follows_example :
    (q : OperationRecord) × (Dict.get (history one events).records "prompt" ≡ some q)
    × Follows (prompt_of accepted) q
unfolding Dict.get Dict.put Dict.empty
history-Follows_example = history-Follows one events "prompt" (prompt_of accepted) refl

new_ledger-history-IsBounded_example : IsBounded (history empty_ledger events)
unfolding new_ledger
new_ledger-history-IsBounded_example = new_ledger-history-IsBounded 2 events refl

abbrev full : Ledger
full = record one { max_operations = 1 }

admit_refused_example :
    (admit full "other" candidate ≡ err limit_exceeded)
    ↔ ((Dict.get full.records "other" ≡ none) × (full.max_operations ≤ Dict.size full.records))
admit_refused_example = admit_refused full "other" candidate

-- The refusal happens.
full_refuses : admit full "other" candidate ≡ err limit_exceeded
unfolding admit Dict.get Dict.put Dict.size Dict.empty
full_refuses = refl

render_blocks-join_example : render_blocks first_prompt ≡ ok (join_layers (layers first_prompt))
unfolding validate_layers
render_blocks-join_example = render_blocks-join first_prompt refl

validate_prompt_lifetime-once_example :
    validate_prompt_lifetime wire
      (completed_prompts wire (first_prompt ∷ correction_prompt ∷ []) (session_in ready))
      first_prompt
    ≡ err conflict
validate_prompt_lifetime-once_example =
    validate_prompt_lifetime-once wire (session_in ready) first_prompt first_prompt
      (correction_prompt ∷ []) refl refl

validate_prompt_lifetime-delta_example :
    validate_prompt_lifetime wire
      (advance_session wire first_prompt (session_in ready))
      correction_prompt
    ≡ ok tt
unfolding validate_prompt_lifetime Dict.get Dict.empty
validate_prompt_lifetime-delta_example =
    validate_prompt_lifetime-delta wire (session_in ready) first_prompt correction_prompt refl refl
      refl refl refl refl

abbrev next_prompt : PromptRequest
next_prompt = record first_prompt {
  operation_id = "next";
  phase = invocation;
  stable_instructions = none;
}

abbrev other_prompt : PromptRequest
other_prompt = record next_prompt { operation_id = "other"; invocation_id = "other" }

validate_prompt_lifetime-invocation_example :
    validate_prompt_lifetime wire
      (completed_prompts wire (first_prompt ∷ other_prompt ∷ []) (session_in ready))
      next_prompt
    ≡ err conflict
validate_prompt_lifetime-invocation_example =
    validate_prompt_lifetime-invocation wire (session_in ready) first_prompt next_prompt
      (other_prompt ∷ []) refl refl refl
