-- ===== src/Client/Creation/Unchanged.antt =====
-- src/acp_proxy/client.py: the creation of a session leaves the queues, the budgets and the
-- phases of a client as they are.
use acp_test.Base.{arith}
use acp_test.Json.{Fields}
use acp_test.Client.{Client, revoke}
use acp_test.Client.Bounds.{Same}
use acp_test.Client.Creation.{
  observe_session_new_response, respond_with, respond_new, respond_unnamed, finish_create_session,
  registered, after_binding, take_catalog, store_session, extract_models, set_models,
  bind_provisional_session, bind_rest,
}

pub observe_session_new_response-Same :
    (m : Fields) (c : Client) → Same c (observe_session_new_response m c)
unfolding observe_session_new_response respond_with respond_new respond_unnamed revoke Same
observe_session_new_response-Same m c = (ground arith, ground arith, ground arith, ground arith)

pub finish_create_session-Same :
    (result : Fields) (c : Client) → Same c (finish_create_session result c).0
unfolding finish_create_session registered after_binding take_catalog store_session extract_models
    set_models bind_provisional_session bind_rest revoke Same
finish_create_session-Same result c = (ground arith, ground arith, ground arith, ground arith)
