-- ===== src/Examples/Clients.antt =====
-- Examples and tests of the client: a session that is bound, a prompt with its updates, and a conversation.
use acp_test.Base.{String, ◌≡◌, refl, true, none, some, List, [], ◌∷◌, ◌++◌, ◌⊎◌, Option}
use acp_test.Dict
use acp_test.Json.{Value, str, int, arr, obj, Fields, fields, items}
use acp_test.Client.{discard, Client, SessionState, standard_config, new_client, active, update}
use acp_test.Client.Bounds.{IsBounded}
use acp_test.Client.Channel.{channel, view, Runs, begins, internal, consumes}
use acp_test.Client.Channel.Order.{IsOrdered}
use acp_test.Client.Receive.Epochs.{action, actions, run-new_client-Runs, run-new_client-IsOrdered}
use acp_test.Client.Messages.{extract_first_user_message, extract_last_user_message, extract_text}
use acp_test.Client.Messages.Turns.{extract_last_user_message-append}
use acp_test.Client.Updates.{
  direct_notification, handle_notification, direct_session_update, handle_direct_state_update,
  enqueue_direct_update,
}
use acp_test.Client.Integrity.{direct_model_integrity, holds, check_options}
use acp_test.Client.Stream
use acp_test.Client.Stream.{start_prompt, observe_request_sent, yields}
use acp_test.Transport.{send_request}
use acp_test.Transport.Envelope.{valid_strict_envelope}
use acp_test.Client.Creation.{finish_create_session, bind_provisional_session}
use acp_test.Client.Updates.Admission.{Revoked, Admitted, direct_notification-Admitted}
use acp_test.Client.Callbacks.{observe_agent_request}
use acp_test.Client.Callbacks.Denied.{Evident, observe_agent_request-Evident}
use acp_test.Client.Binding.{
  answered, begin_bind, expect_model, finish_create_session_exact, held, unexpect,
  set_session_model, model_from_config_options,
}
use acp_test.Client.Binding.Exact.{Acknowledged, begin_bind-finish_create_session_exact}
use acp_test.Client.Creation.{advertises}
use acp_test.Client.Receive.{
  Library, ClientEvent, creates, starts, sends, sent, receives, takes, run, step, receive,
}
use acp_test.Client.Receive.Invariant.{run-new_client-IsBounded}
use acp_test.Examples.Messages.{idle, numbers}

abbrev dumps : Fields → Option String
dumps u = some "{}"

abbrev library : Library
library = record { numbers = numbers; dumps = dumps; show = λ v. "value" }

abbrev session : SessionState
session = record {
  session_id = "s";
  model_id = some "m1";
  available_model_ids = some ("m1" ∷ "m2" ∷ []);
}

abbrev bindable : Client
unfolding Dict.put Dict.empty
bindable = record (new_client true idle) {
  strategy = some standard_config;
  sessions = Dict.put Dict.empty "s" session;
}

abbrev model_result : Value
model_result = obj (
    fields (
      (
        "configOptions",
        arr (items (obj (fields (("id", str "model") ∷ ("currentValue", str "m2") ∷ [])) ∷ [])),
      )
      ∷ []))

abbrev prompting : Client
prompting = record bindable {
  prompt_phases = Dict.put Dict.empty "s" active;
  update_queues = Dict.put Dict.empty "s" (record { items = []; maxsize = 3 });
  update_budgets =
      Dict.put Dict.empty "s" (record { bytes = 0; count = 0; byte_limit = 9; count_limit = 2 });
}

abbrev chunk_update : Fields
chunk_update = fields (
    ("sessionUpdate", str "agent_message_chunk")
    ∷ ("content", obj (fields (("type", str "text") ∷ ("text", str "hello") ∷ [])))
    ∷ [])

abbrev chunk_params : Value
chunk_params = obj (fields (("sessionId", str "s") ∷ ("update", obj chunk_update) ∷ []))

direct_notification-Admitted_example :
    Revoked prompting (direct_notification dumps (str "session/update") chunk_params prompting)
    ⊎ ((direct_model_integrity prompting chunk_params ≡ holds)
        × Admitted dumps prompting
            (str "session/update")
            chunk_params
            (direct_notification dumps (str "session/update") chunk_params prompting))
direct_notification-Admitted_example =
    direct_notification-Admitted dumps (str "session/update") chunk_params prompting

abbrev spoken : List ClientEvent
spoken =
    creates (fields (("sessionId", str "s") ∷ []))
    ∷ starts "s" (some 100) (some 2)
    ∷ sends "session/prompt" (some (fields (("sessionId", str "s") ∷ [])))
    ∷ sent "session/prompt" (some (fields (("sessionId", str "s") ∷ [])))
    ∷ receives (
        fields (
          ("jsonrpc", str "2.0")
          ∷ ("method", str "session/update")
          ∷ ("params", chunk_params)
          ∷ []))
    ∷ []

abbrev conversation : List ClientEvent
conversation = spoken ++ takes "s" ∷ []

run-new_client-IsBounded_example : IsBounded (run library conversation (new_client true idle))
run-new_client-IsBounded_example = run-new_client-IsBounded library true idle conversation

-- The update waits for its consumer while the prompt is active, and its queue is empty once it is taken. That
-- round yields the update.
delivered :
    (view "s" (run library spoken (new_client true idle))
      ≡ channel (some active) (some (update chunk_update ∷ [])))
    × (view "s" (run library conversation (new_client true idle)) ≡ channel (some active) (some []))
    × (actions library "s" conversation (new_client true idle)
        ≡ internal ∷ begins ∷ internal ∷ internal ∷ internal ∷ consumes (yields chunk_update) ∷ [])
unfolding run step receive actions action finish_create_session bind_provisional_session
    start_prompt Stream.take_update observe_request_sent handle_notification direct_notification
    direct_session_update handle_direct_state_update direct_model_integrity enqueue_direct_update
    check_options Dict.get Dict.put Dict.empty Dict.size send_request valid_strict_envelope discard
delivered = (refl, refl, refl)

run-new_client-Runs_example :
    Runs
      (actions library "s" conversation (new_client true idle))
      (channel none none)
      (view "s" (run library conversation (new_client true idle)))
run-new_client-Runs_example = run-new_client-Runs library "s" idle conversation

run-new_client-IsOrdered_example :
    IsOrdered (view "s" (run library conversation (new_client true idle)))
run-new_client-IsOrdered_example = run-new_client-IsOrdered library "s" idle conversation

abbrev permission_params : Fields
permission_params = fields (("sessionId", str "s") ∷ ("options", arr (items [])) ∷ [])

abbrev permission_request : Fields
permission_request = fields (
    ("id", int 7)
    ∷ ("method", str "session/request_permission")
    ∷ ("params", obj permission_params)
    ∷ [])

observe_agent_request-Evident_example :
    Revoked prompting (observe_agent_request (λ v. "value") dumps permission_request prompting)
    ⊎ Evident dumps "session/request_permission" permission_params prompting
        (observe_agent_request (λ v. "value") dumps permission_request prompting)
unfolding bindable
observe_agent_request-Evident_example =
    observe_agent_request-Evident dumps (λ v. "value") permission_request permission_params
      prompting refl refl

abbrev bound : Client
bound = set_session_model "s" (some "m2") (unexpect "s" (expect_model "s" "m2" bindable))

begin_bind-finish_create_session_exact_example :
    (Dict.get bindable.sessions "s" ≡ some session)
    × (advertises session "m2" ≡ true)
    × (bindable.strategy ≡ some standard_config)
    × Acknowledged standard_config "m2" (answered model_result)
    × ((held session (Dict.get bound.sessions "s")).model_id ≡ some "m2")
unfolding begin_bind finish_create_session_exact Dict.get bindable model_from_config_options
    Dict.modify
begin_bind-finish_create_session_exact_example =
    begin_bind-finish_create_session_exact "s" "m2" (answered model_result) bindable
      (expect_model "s" "m2" bindable) (expect_model "s" "m2" bindable) refl refl

abbrev message : String → String → Fields
message role text = fields (("role", str role) ∷ ("content", str text) ∷ [])

extract_last_user_message-append_example :
    (extract_first_user_message
        (message "user" "a" ∷ message "assistant" "b" ∷ message "user" "c" ∷ [])
      ≡ extract_first_user_message (message "user" "a" ∷ message "assistant" "b" ∷ []))
    × (extract_last_user_message
          (message "user" "a" ∷ message "assistant" "b" ∷ message "user" "c" ∷ [])
        ≡ extract_text (str "c"))
extract_last_user_message-append_example =
    extract_last_user_message-append (message "user" "a" ∷ message "assistant" "b" ∷ [])
      (message "user" "c") [] refl refl refl
