-- ===== src/Client/Callbacks/Follows.antt =====
-- src/acp_proxy/client.py: the evidence of a request moves the channel of an active prompt alone.
use acp_test.Base.{
  ◌≡◌, refl, String, Bool, true, false, ◌&&◌, Option, none, some, if_both, inl, inr,
}
use acp_test.Dict
use acp_test.Dict.{is_some}
use acp_test.Json.{Value, null, bool, int, literal, str, arr, obj, Fields, get_field, get_or_null}
use acp_test.Client.{Client, as_text}
use acp_test.Client.Channel.{Follows, view-Follows, revoke-Follows}
use acp_test.Client.Updates.{is_active, or_end}
use acp_test.Client.Updates.Admission.{is_active-phase, enqueue_direct_update-cases}
use acp_test.Client.Updates.Follows.{Revoked-Follows, Retained-Follows}
use acp_test.Client.Callbacks.{
  observe_agent_request, observe_params, observe_in, observe_at, record_evidence, evidence_of,
  method_of,
}
use acp_test.Client.Callbacks.Denied.{both}

module _ (dumps : Fields → Option String) (s : String) where
  observe_at-Follows :
      (t : String) (o : Option Fields) (b : Bool) (c : Client)
      → (is_active (Dict.get c.prompt_phases t) && is_some (Dict.get c.update_queues t)) ≡ b
      → Follows s c (observe_at dumps t o b c)
  unfolding observe_at record_evidence
  observe_at-Follows t o false c e = revoke-Follows s c _
  observe_at-Follows t none true c e = revoke-Follows s c _
  observe_at-Follows t (some u) true c e = elim (enqueue_direct_update-cases dumps t u c) [
    | inl revoked ↦ Revoked-Follows s c _ revoked
    | inr kept ↦ Retained-Follows dumps s t u c _ (is_active-phase _ (both _ _ e)) kept
  ]

  observe_in-Follows :
      (method : String) (p : Fields) (o : Option String) (c : Client)
      → Follows s c (observe_in dumps method p o c)
  unfolding observe_in
  observe_in-Follows method p none c = revoke-Follows s c _
  observe_in-Follows method p (some t) c = observe_at-Follows t (evidence_of method p) _ c refl

  observe_params-Follows :
      (method : String) (v : Value) (c : Client) → Follows s c (observe_params dumps method v c)
  unfolding observe_params
  observe_params-Follows method (obj p) c =
      observe_in-Follows method p (as_text (get_or_null "sessionId" p)) c
  observe_params-Follows method null c = revoke-Follows s c _
  observe_params-Follows method (bool b) c = revoke-Follows s c _
  observe_params-Follows method (int n) c = revoke-Follows s c _
  observe_params-Follows method (literal n) c = revoke-Follows s c _
  observe_params-Follows method (str t) c = revoke-Follows s c _
  observe_params-Follows method (arr l) c = revoke-Follows s c _

  pub observe_agent_request-Follows :
      (show : Value → String) (m : Fields) (c : Client)
      → Follows s c (observe_agent_request show dumps m c)
  unfolding observe_agent_request
  observe_agent_request-Follows show m c =
      if_both (Follows s c) c.direct
        (observe_params-Follows (method_of show (get_field "method" m))
          (or_end (get_field "params" m)) c)
        (view-Follows s c c refl refl refl)
