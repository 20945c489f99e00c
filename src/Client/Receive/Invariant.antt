-- ===== src/Client/Receive/Invariant.antt =====
-- src/acp_proxy/client.py: the queues and the budgets of a client stay within their limits.
use acp_test.Base.{ℕ, String, Bool, not, ◌&&◌, Option, none, some, List, [], ◌∷◌, ◌is◌, if_both}
use acp_test.Dict.Removal.{empty-Every}
use acp_test.Json.{Fields, get_or_null}
use acp_test.Transport.{
  Transport, Pending, find_pending, key_of, Key, key, no_key, raises, uncorrelated, deliver,
  accept_request, send_request, unsend_request, protocol_failure,
}
use acp_test.Transport.Envelope.{has, valid_strict_envelope, valid_strict_response}
use acp_test.Client.{Client, new_client, revoke, signal_update_queues, clear_client_state, abort}
use acp_test.Client.Bounds.{IsWithin, IsKept, IsBounded, Same-IsBounded, revoke-IsBounded}
use acp_test.Client.Updates.Bounds.{handle_notification-IsBounded}
use acp_test.Client.Stream.Bounds.{
  start_prompt-IsBounded, end_prompt-IsBounded, observe_request_sent-IsBounded,
  observe_prompt_response-IsBounded, take_update-IsBounded,
}
use acp_test.Client.Creation.Unchanged.{
  observe_session_new_response-Same, finish_create_session-Same,
}
use acp_test.Client.Binding.Unchanged.{expect_model-Same, finish_create_session_exact-Same}
use acp_test.Client.Callbacks.Bounds.{observe_agent_request-IsBounded}
use acp_test.Client.Receive.{
  Library, quiet, on_transport, observe_response, receive, receive_response, receive_key,
  receive_found, ClientEvent, receives, sends, sent, write_fails, starts, takes, ends, creates,
  expects, binds, aborts, step, run,
}

on_transport-IsBounded :
    (f : Transport → Transport) (c : Client) → IsBounded c → IsBounded (on_transport f c)
unfolding IsBounded
on_transport-IsBounded f c h = h

abort-IsBounded : (c : Client) → IsBounded (abort c)
unfolding abort revoke clear_client_state signal_update_queues IsBounded
abort-IsBounded c = (empty-Every IsWithin, empty-Every IsKept)

module _ (lib : Library) where
  observe_response-IsBounded :
      (m : Fields) (method : String) (params : Option Fields) (c : Client)
      → IsBounded c
      → IsBounded (observe_response m method params c)
  unfolding observe_response
  observe_response-IsBounded m method params c h = if_both IsBounded (not c.direct) h (
      if_both IsBounded (method is "session/new")
        (Same-IsBounded c _ (observe_session_new_response-Same m c) h)
        (if_both IsBounded (method is "session/prompt")
          (observe_prompt_response-IsBounded params c h) h))

  receive_found-IsBounded :
      (m : Fields) (k : ℕ) (o : Option Pending) (c : Client)
      → IsBounded c
      → IsBounded (receive_found lib m k o c)
  unfolding receive_found
  receive_found-IsBounded m k none c h = on_transport-IsBounded uncorrelated c h
  receive_found-IsBounded m k (some p) c h =
      if_both IsBounded p.done (on_transport-IsBounded uncorrelated c h) (
        on_transport-IsBounded (deliver quiet m k) (observe_response m p.method p.params c)
          (observe_response-IsBounded m p.method p.params c h))

  receive_key-IsBounded :
      (m : Fields) (k : Key) (c : Client) → IsBounded c → IsBounded (receive_key lib m k c)
  unfolding receive_key
  receive_key-IsBounded m (key k) c h =
      receive_found-IsBounded m k (find_pending k c.transport.pending) c h
  receive_key-IsBounded m no_key c h = on_transport-IsBounded uncorrelated c h
  receive_key-IsBounded m raises c h = on_transport-IsBounded protocol_failure c h

  receive_response-IsBounded :
      (m : Fields) (c : Client) → IsBounded c → IsBounded (receive_response lib m c)
  unfolding receive_response
  receive_response-IsBounded m c h =
      if_both IsBounded
        (c.transport.strict_response_correlation && not (valid_strict_response lib.numbers m))
        (revoke-IsBounded _ c h)
        (receive_key-IsBounded m (key_of lib.numbers (get_or_null "id" m)) c h)

  receive-IsBounded : (m : Fields) (c : Client) → IsBounded c → IsBounded (receive lib m c)
  unfolding receive
  receive-IsBounded m c h =
      if_both IsBounded
        (c.transport.strict_response_correlation && not (valid_strict_envelope lib.numbers m))
        (revoke-IsBounded _ c h)
        (if_both IsBounded (has "id" m && has "method" m)
          (on_transport-IsBounded (accept_request quiet m) _
            (observe_agent_request-IsBounded lib.dumps lib.show m c h))
          (if_both IsBounded (has "id" m) (receive_response-IsBounded m c h)
            (handle_notification-IsBounded lib.dumps m c h)))

  step-IsBounded : (e : ClientEvent) (c : Client) → IsBounded c → IsBounded (step lib e c)
  unfolding step
  step-IsBounded (receives m) c h = receive-IsBounded m c h
  step-IsBounded (sends method params) c h = on_transport-IsBounded (send_request method params) c h
  step-IsBounded (sent method params) c h = observe_request_sent-IsBounded method params c h
  step-IsBounded (write_fails k) c h = on_transport-IsBounded (unsend_request k) c h
  step-IsBounded (starts s bytes count) c h = start_prompt-IsBounded s bytes count c h
  step-IsBounded (takes s) c h = take_update-IsBounded s c h
  step-IsBounded (ends s) c h = end_prompt-IsBounded s c h
  step-IsBounded (creates result) c h = Same-IsBounded c _ (finish_create_session-Same result c) h
  step-IsBounded (expects s model) c h = Same-IsBounded c _ (expect_model-Same s model c) h
  step-IsBounded (binds x strategy s model answer) c h =
      Same-IsBounded c _ (finish_create_session_exact-Same x strategy s model answer c) h
  step-IsBounded aborts c h = abort-IsBounded c

  run-IsBounded : (es : List ClientEvent) (c : Client) → IsBounded c → IsBounded (run lib es c)
  unfolding run
  run-IsBounded [] c h = h
  run-IsBounded (e ∷ es) c h = run-IsBounded es (step lib e c) (step-IsBounded e c h)

-- After any events from a new client on, every queue of a maximal size holds at most that many items, and
-- no budget has charged more bytes or more updates than its limits.
pub run-new_client-IsBounded :
    (lib : Library) (direct : Bool) (transport : Transport) (es : List ClientEvent)
    → IsBounded (run lib es (new_client direct transport))
unfolding IsBounded
run-new_client-IsBounded lib direct transport es =
    run-IsBounded lib es (new_client direct transport) (empty-Every IsWithin, empty-Every IsKept)
