-- ===== src/Client/Receive/Epochs.antt =====
-- src/acp_proxy/client.py: the prompts of a session are epochs of its channel, whatever happens to the client.
use acp_test.Base.{
  ℕ, String, ◌≡◌, refl, ◌∙◌, true, not, ◌&&◌, Option, none, some, List, [], ◌∷◌, ◌is◌, if_both,
}
use acp_test.Dict
use acp_test.Json.{Fields, get_or_null}
use acp_test.Transport.{
  Transport, Pending, find_pending, key_of, Key, key, no_key, raises, uncorrelated, deliver,
  accept_request, send_request, unsend_request, protocol_failure,
}
use acp_test.Transport.Envelope.{has, valid_strict_envelope, valid_strict_response}
use acp_test.Client.{Client, new_client, revoke, abort, clear_client_state, signal_update_queues}
use acp_test.Client.Bounds.{Same}
use acp_test.Client.Channel.{
  channel, view, Runs, Follows, view-Follows, revoke-Follows, Same-Follows, Acts-Same, Acts,
  own_action, Action, begins, consumes, finishes, clears, internal, aborts, finished, moves,
}
use acp_test.Client.Channel.Order.{IsOrdered, Runs-IsOrdered, empty-IsOrdered}
use acp_test.Client.Stream.{take_update}
use acp_test.Client.Updates.Follows.{handle_notification-Follows}
use acp_test.Client.Stream.Follows.{
  start_prompt-Acts, end_prompt-Acts, observe_request_sent-Follows, observe_prompt_response-Follows,
  take_update-Acts,
}
use acp_test.Client.Creation.Unchanged.{
  observe_session_new_response-Same, finish_create_session-Same,
}
use acp_test.Client.Binding.Unchanged.{expect_model-Same, finish_create_session_exact-Same}
use acp_test.Client.Callbacks.{observe_agent_request}
use acp_test.Client.Callbacks.Follows.{observe_agent_request-Follows}
use acp_test.Client.Receive.{
  Library, quiet, on_transport, observe_response, receive, receive_response, receive_key,
  receive_found, ClientEvent, receives, sends, sent, write_fails, starts, takes as takes_from,
  ends as ends_prompt, creates, expects, binds, aborts as aborts_all, step, run,
}

on_transport-Same : (f : Transport → Transport) (c : Client) → Same c (on_transport f c)
unfolding Same
on_transport-Same f c = (refl, refl, refl, refl)

abort-Acts : (s : String) (c : Client) → Acts clears s c (abort c)
unfolding abort revoke clear_client_state signal_update_queues Acts Dict.empty Dict.get
abort-Acts s c = (refl, aborts (view s c))

-- What an event is for a session.
unfoldable pub action : String → ClientEvent → Client → Action
action s (starts t bytes count) c = own_action t s begins
action s (takes_from t) c = own_action t s (consumes (take_update t c).1)
action s (ends_prompt t) c = own_action t s finishes
action s aborts_all c = clears
action s _ c = internal

-- What the events of a run are for a session, with what its consumer is given.
unfoldable pub actions : Library → String → List ClientEvent → Client → List Action
unfolding action
actions lib s [] c = []
actions lib s (e ∷ es) c = action s e c ∷ actions lib s es (step lib e c)

module _ (lib : Library) (s : String) where
  observe_response-Follows :
      (m : Fields) (method : String) (params : Option Fields) (c : Client)
      → Follows s c (observe_response m method params c)
  unfolding observe_response
  observe_response-Follows m method params c =
      let unchanged = view-Follows s c c refl refl refl in
      if_both (Follows s c) (not c.direct) unchanged (
        if_both (Follows s c) (method is "session/new")
          (Same-Follows s c _ (observe_session_new_response-Same m c))
          (if_both (Follows s c) (method is "session/prompt")
            (observe_prompt_response-Follows s params c) unchanged))

  uncorrelated-Follows : (c : Client) → Follows s c (on_transport uncorrelated c)
  uncorrelated-Follows c = Same-Follows s c _ (on_transport-Same uncorrelated c)

  receive_found-Follows :
      (m : Fields) (k : ℕ) (o : Option Pending) (c : Client)
      → Follows s c (receive_found lib m k o c)
  unfolding receive_found
  receive_found-Follows m k none c = uncorrelated-Follows c
  receive_found-Follows m k (some p) c =
      let observed = observe_response m p.method p.params c in
      if_both (Follows s c) p.done (uncorrelated-Follows c) (
        Acts-Same _ s c observed (on_transport (deliver quiet m k) observed)
          (observe_response-Follows m p.method p.params c)
          (on_transport-Same (deliver quiet m k) observed))

  receive_key-Follows : (m : Fields) (k : Key) (c : Client) → Follows s c (receive_key lib m k c)
  unfolding receive_key
  receive_key-Follows m (key k) c = receive_found-Follows m k (find_pending k c.transport.pending) c
  receive_key-Follows m no_key c = uncorrelated-Follows c
  receive_key-Follows m raises c = Same-Follows s c _ (on_transport-Same protocol_failure c)

  receive_response-Follows : (m : Fields) (c : Client) → Follows s c (receive_response lib m c)
  unfolding receive_response
  receive_response-Follows m c =
      if_both (Follows s c)
        (c.transport.strict_response_correlation && not (valid_strict_response lib.numbers m))
        (revoke-Follows s c _) (receive_key-Follows m (key_of lib.numbers (get_or_null "id" m)) c)

  receive-Follows : (m : Fields) (c : Client) → c.direct ≡ true → Follows s c (receive lib m c)
  unfolding receive
  receive-Follows m c d =
      let observed = observe_agent_request lib.show lib.dumps m c in
      if_both (Follows s c)
        (c.transport.strict_response_correlation && not (valid_strict_envelope lib.numbers m))
        (revoke-Follows s c _)
        (if_both (Follows s c) (has "id" m && has "method" m)
          (Acts-Same _ s c observed (on_transport (accept_request quiet m) observed)
            (observe_agent_request-Follows lib.dumps s lib.show m c)
            (on_transport-Same (accept_request quiet m) observed))
          (if_both (Follows s c) (has "id" m) (receive_response-Follows m c)
            (handle_notification-Follows lib.dumps s m c d)))

  step-Acts :
      (e : ClientEvent) (c : Client) → c.direct ≡ true → Acts (action s e c) s c (step lib e c)
  unfolding step action
  step-Acts (receives m) c d = receive-Follows m c d
  step-Acts (sends method params) c d =
      Same-Follows s c _ (on_transport-Same (send_request method params) c)
  step-Acts (sent method params) c d = observe_request_sent-Follows s method params c
  step-Acts (write_fails k) c d = Same-Follows s c _ (on_transport-Same (unsend_request k) c)
  step-Acts (starts t bytes count) c d = start_prompt-Acts s t bytes count c
  step-Acts (takes_from t) c d = take_update-Acts s t c
  step-Acts (ends_prompt t) c d = end_prompt-Acts s t c
  step-Acts (creates result) c d = Same-Follows s c _ (finish_create_session-Same result c)
  step-Acts (expects t model) c d = Same-Follows s c _ (expect_model-Same t model c)
  step-Acts (binds x strategy t model answer) c d =
      Same-Follows s c _ (finish_create_session_exact-Same x strategy t model answer c)
  step-Acts aborts_all c d = abort-Acts s c

  run-Runs :
      (es : List ClientEvent) (c : Client)
      → c.direct ≡ true
      → Runs (actions lib s es c) (view s c) (view s (run lib es c))
  unfolding run actions Acts
  run-Runs [] c d = finished (view s c)
  run-Runs (e ∷ es) c d =
      let (kept, m) = step-Acts e c d in moves m (run-Runs es (step lib e c) (kept ∙ d))

-- Whatever happens to a client of the direct mode, its steps are those of a channel, action by action: only a
-- round of the session's consumer takes an item from the queue, the oldest, and yields that one; what is appended
-- goes to the end and comes while the prompt is active, the marker ends the epoch, and what is queued is dropped
-- only where a prompt of the session begins or ends or the client is aborted.
pub run-new_client-Runs :
    (lib : Library) (s : String) (transport : Transport) (es : List ClientEvent)
    → Runs
        (actions lib s es (new_client true transport))
        (channel none none)
        (view s (run lib es (new_client true transport)))
unfolding Dict.get Dict.empty
run-new_client-Runs lib s transport es = run-Runs lib s es (new_client true transport) refl

-- So nothing stands behind the terminal marker in a queue, and while the prompt is active no marker is in it.
pub run-new_client-IsOrdered :
    (lib : Library) (s : String) (transport : Transport) (es : List ClientEvent)
    → IsOrdered (view s (run lib es (new_client true transport)))
run-new_client-IsOrdered lib s transport es =
    Runs-IsOrdered (run-new_client-Runs lib s transport es) empty-IsOrdered
