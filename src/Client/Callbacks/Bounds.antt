-- ===== src/Client/Callbacks/Bounds.antt =====
-- src/acp_proxy/client.py: a request of the agent keeps the queues and the budgets of a client within their
-- limits.
use acp_test.Base.{String, Bool, true, false, Option, none, some, if_both}
use acp_test.Json.{Value, null, bool, int, literal, str, arr, obj, Fields, get_field, get_or_null}
use acp_test.Client.{Client, as_text}
use acp_test.Client.Bounds.{IsBounded, revoke-IsBounded}
use acp_test.Client.Updates.{or_end}
use acp_test.Client.Updates.Bounds.{enqueue_direct_update-IsBounded}
use acp_test.Client.Callbacks.{
  observe_agent_request, observe_params, observe_at, observe_in, record_evidence, method_of,
}

module _ (dumps : Fields → Option String) where
  record_evidence-IsBounded :
      (s : String) (o : Option Fields) (c : Client)
      → IsBounded c
      → IsBounded (record_evidence dumps s o c)
  unfolding record_evidence
  record_evidence-IsBounded s none c h = revoke-IsBounded _ c h
  record_evidence-IsBounded s (some u) c h = enqueue_direct_update-IsBounded dumps s u c h

  observe_at-IsBounded :
      (s : String) (o : Option Fields) (b : Bool) (c : Client)
      → IsBounded c
      → IsBounded (observe_at dumps s o b c)
  unfolding observe_at
  observe_at-IsBounded s o true c h = record_evidence-IsBounded s o c h
  observe_at-IsBounded s o false c h = revoke-IsBounded _ c h

  observe_in-IsBounded :
      (method : String) (p : Fields) (o : Option String) (c : Client)
      → IsBounded c
      → IsBounded (observe_in dumps method p o c)
  unfolding observe_in
  observe_in-IsBounded method p none c h = revoke-IsBounded _ c h
  observe_in-IsBounded method p (some s) c h = observe_at-IsBounded s _ _ c h

  observe_params-IsBounded :
      (method : String) (v : Value) (c : Client)
      → IsBounded c
      → IsBounded (observe_params dumps method v c)
  unfolding observe_params
  observe_params-IsBounded method (obj p) c h =
      observe_in-IsBounded method p (as_text (get_or_null "sessionId" p)) c h
  observe_params-IsBounded method null c h = revoke-IsBounded _ c h
  observe_params-IsBounded method (bool b) c h = revoke-IsBounded _ c h
  observe_params-IsBounded method (int n) c h = revoke-IsBounded _ c h
  observe_params-IsBounded method (literal n) c h = revoke-IsBounded _ c h
  observe_params-IsBounded method (str s) c h = revoke-IsBounded _ c h
  observe_params-IsBounded method (arr l) c h = revoke-IsBounded _ c h

  pub observe_agent_request-IsBounded :
      (show : Value → String) (m : Fields) (c : Client)
      → IsBounded c
      → IsBounded (observe_agent_request show dumps m c)
  unfolding observe_agent_request
  observe_agent_request-IsBounded show m c h =
      if_both IsBounded c.direct
        (observe_params-IsBounded (method_of show (get_field "method" m))
          (or_end (get_field "params" m)) c h)
        h
