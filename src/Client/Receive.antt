-- ===== src/Client/Receive.antt =====
-- src/acp_proxy/client.py over src/acp_proxy/transport.py: a message from the agent, through the dispatch of
-- the transport and the observers that the client has registered.
pub mod Invariant
pub mod Epochs
use acp_test.Base.{
  ℕ, String, Bool, true, false, not, ◌&&◌, Option, none, some, List, [], ◌∷◌, ◌is◌, if◌then◌else◌,
}
use acp_test.Json.{Value, Fields, get_or_null, get_field}
use acp_test.Transport.{
  Transport, Pending, Observers, find_pending, dispatch, accept_request, deliver, respond,
  send_request, key_of, Key, key, no_key, raises, fail_closed, uncorrelated, protocol_failure,
  unsend_request,
}
use acp_test.Transport.Envelope.{Numbers, has, valid_strict_envelope, valid_strict_response}
use acp_test.Client.{SessionState, DirectModelBindingStrategy, Client, abort, revoke}
use acp_test.Client.Updates.{handle_notification}
use acp_test.Client.Stream.{
  start_prompt, end_prompt, take_update, observe_request_sent, observe_prompt_response,
}
use acp_test.Client.Creation.{observe_session_new_response, finish_create_session}
use acp_test.Client.Binding.{Answer, expect_model, finish_create_session_exact}
use acp_test.Client.Callbacks.{observe_agent_request}

-- What the client's code takes of Python's library.
pub record Library : Type 0 where
  pub numbers : Numbers
  pub dumps : Fields → Option String
  pub show : Value → String

-- The client's observers have run when the transport goes on: they revoke nothing more.
abbrev pub quiet : Observers
quiet = record {
  handles_requests = true;
  revokes_at_request = λ m. false;
  revokes_at_response = λ m. false;
  reason = "";
}

abbrev pub on_transport : (Transport → Transport) → Client → Client
on_transport f c = record c { transport = f c.transport }

-- _observe_response
unfoldable pub observe_response : Fields → String → Option Fields → Client → Client
observe_response m method params c =
    if not c.direct
    then c
    else if method is "session/new"
    then observe_session_new_response m c
    else if method is "session/prompt"
    then observe_prompt_response params c
    else c

-- A response that finds its request, and one that does not.
receive_found : Library → Fields → ℕ → Option Pending → Client → Client
receive_found lib m k none c = on_transport uncorrelated c
receive_found lib m k (some p) c =
    if p.done
    then on_transport uncorrelated c
    else on_transport (deliver quiet m k) (observe_response m p.method p.params c)

receive_key : Library → Fields → Key → Client → Client
receive_key lib m (key k) c = receive_found lib m k (find_pending k c.transport.pending) c
receive_key lib m no_key c = on_transport uncorrelated c
receive_key lib m raises c = on_transport protocol_failure c

receive_response : Library → Fields → Client → Client
receive_response lib m c =
    if c.transport.strict_response_correlation && not (valid_strict_response lib.numbers m)
    then revoke "direct ACP response correlation failure" c
    else receive_key lib m (key_of lib.numbers (get_or_null "id" m)) c

-- A message that the read loop has decoded.
unfoldable pub receive : Library → Fields → Client → Client
unfolding receive_response receive_key receive_found
receive lib m c =
    if c.transport.strict_response_correlation && not (valid_strict_envelope lib.numbers m)
    then revoke "direct ACP envelope validation failure" c
    else if has "id" m && has "method" m
    then on_transport (accept_request quiet m) (observe_agent_request lib.show lib.dumps m c)
    else if has "id" m
    then receive_response lib m c
    else handle_notification lib.dumps m c

-- What happens to a client, one stretch of code after the other. A request is registered, and then it is on
-- the wire and its observer runs, or its write has raised; messages may be received in between.
pub data ClientEvent : Type 0 where
  receives : Fields → ClientEvent
  sends : String → Option Fields → ClientEvent
  sent : String → Option Fields → ClientEvent
  write_fails : ℕ → ClientEvent
  starts : String → Option ℕ → Option ℕ → ClientEvent
  takes : String → ClientEvent
  ends : String → ClientEvent
  creates : Fields → ClientEvent
  expects : String → String → ClientEvent
  binds : SessionState → DirectModelBindingStrategy → String → String → Answer → ClientEvent
  aborts : ClientEvent

unfoldable pub step : Library → ClientEvent → Client → Client
unfolding receive
step lib (receives m) c = receive lib m c
step lib (sends method params) c = on_transport (send_request method params) c
step lib (sent method params) c = observe_request_sent method params c
step lib (write_fails k) c = on_transport (unsend_request k) c
step lib (starts s byte_limit count_limit) c = (start_prompt s byte_limit count_limit c).0
step lib (takes s) c = (take_update s c).0
step lib (ends s) c = end_prompt s c
step lib (creates result) c = (finish_create_session result c).0
step lib (expects s model) c = expect_model s model c
step lib (binds x strategy s model answer) c =
    (finish_create_session_exact x strategy s model answer c).0
step lib aborts c = abort c

unfoldable pub run : Library → List ClientEvent → Client → Client
unfolding step
run lib [] c = c
run lib (e ∷ es) c = run lib es (step lib e c)
