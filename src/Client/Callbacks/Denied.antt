-- ===== src/Client/Callbacks/Denied.antt =====
-- src/acp_proxy/client.py, _observe_agent_request: what a request of the agent leaves behind in the direct mode.
use acp_test.Base.{
  ◌≡◌, refl, sym, ap, subst, ◌∙◌, if_true, String, Bool, true, false, ◌&&◌, Option, none, some,
  arith, Option-cases, ◌⊎◌, ◌is◌, if◌then◌else◌, inl, inr,
}
use acp_test.Dict
use acp_test.Dict.{is_some}
use acp_test.Json.{Items, Value, null, str, obj, Fields, get_field, get_or_null}
use acp_test.Client.{Client, active, as_text}
use acp_test.Client.Updates.{is_active, or_end}
use acp_test.Client.Updates.Admission.{
  Revoked, Retained, enqueue_direct_update-cases, is_active-phase,
}
use acp_test.Client.Callbacks.{
  AgentAnswer, replies, denied, handle_agent_request_direct, permission_evidence, denial_evidence,
  iterated, observe_agent_request, observe_params, observe_at, observe_in, record_evidence,
  evidence_of, method_of,
}

-- The outcome that an answer tells the agent; an answer that raises denies the request.
abbrev pub outcome_in : Value → Value
outcome_in (obj o) = get_or_null "outcome" o
outcome_in _ = null

abbrev pub told : AgentAnswer → Value
told (replies v) = outcome_in (outcome_in v)
told denied = str "denied"
told _ = null

abbrev pub update_kind : String → String
update_kind method =
    if method is "session/request_permission"
    then "client_permission_request"
    else "client_callback_denied"

-- An update that records a request with the outcome that the agent is told.
unfoldable pub Records : String → Fields → Type 0
Records method u =
    (get_or_null "sessionUpdate" u ≡ str (update_kind method))
    × (get_or_null "outcome" u ≡ told (handle_agent_request_direct (str method)))

permission_outcome :
    (l : Items)
    → (get_or_null "sessionUpdate" (permission_evidence l) ≡ str "client_permission_request")
      × (get_or_null "outcome" (permission_evidence l) ≡ str "cancelled")
unfolding permission_evidence
permission_outcome l = (refl, refl)

denial_outcome :
    (method : String)
    → (get_or_null "sessionUpdate" (denial_evidence method) ≡ str "client_callback_denied")
      × (get_or_null "outcome" (denial_evidence method) ≡ str "denied")
unfolding denial_evidence
denial_outcome method = (refl, refl)

evidence_of-Records :
    (method : String) (p u : Fields) → evidence_of method p ≡ some u → Records method u
unfolding evidence_of Records handle_agent_request_direct
evidence_of-Records method p u e = elim (Option-cases (iterated (get_field "options" p))) [
  | inl n ↦ ground (arith, denial_outcome method)
  | inr (l, f) ↦ ground (arith, denial_outcome method, permission_outcome l)
]

-- A session in an active prompt, in whose queue the record of the request is retained.
unfoldable pub Evident : (Fields → Option String) → String → Fields → Client → Client → Type 0
Evident dumps method p c after =
    (s : String) × (as_text (get_or_null "sessionId" p) ≡ some s)
    × (Dict.get c.prompt_phases s ≡ some active)
    × ((u : Fields) × Records method u × Retained dumps s u c after)

pub both : (a b : Bool) → (a && b) ≡ true → a ≡ true
both a b e = ground arith

module _ (dumps : Fields → Option String) where
  observe_at-cases :
      (method : String) (p : Fields) (s : String) (o : Option Fields) (b : Bool) (c : Client)
      → as_text (get_or_null "sessionId" p) ≡ some s
      → evidence_of method p ≡ o
      → (is_active (Dict.get c.prompt_phases s) && is_some (Dict.get c.update_queues s)) ≡ b
      → Revoked c (observe_at dumps s o b c) ⊎ Evident dumps method p c (observe_at dumps s o b c)
  unfolding observe_at record_evidence Revoked Evident
  observe_at-cases method p s o false c e f g = inl (_, refl)
  observe_at-cases method p s none true c e f g = inl ("ACP protocol failure", refl)
  observe_at-cases method p s (some u) true c e f g =
      elim (enqueue_direct_update-cases dumps s u c) [
        | inl revoked ↦ inl revoked
        | inr kept ↦
            inr (s, e, is_active-phase _ (both _ _ g), (u, evidence_of-Records method p u f, kept))
      ]

  observe_in-cases :
      (method : String) (p : Fields) (o : Option String) (c : Client)
      → as_text (get_or_null "sessionId" p) ≡ o
      → Revoked c (observe_in dumps method p o c)
        ⊎ Evident dumps method p c (observe_in dumps method p o c)
  unfolding observe_in Revoked
  observe_in-cases method p none c e = inl (_, refl)
  observe_in-cases method p (some s) c e = observe_at-cases method p s _ _ c e refl refl

  -- A request of the agent in the direct mode whose params are a dict revokes continuity, or it names a session
  -- in an active prompt; then what is retained in the queue of that session, within the limits, is a record of
  -- the request with the outcome that the agent is told: cancelled for a permission, denied for all else.
  pub observe_agent_request-Evident :
      (show : Value → String) (m p : Fields) (c : Client)
      → c.direct ≡ true
      → or_end (get_field "params" m) ≡ obj p
      → Revoked c (observe_agent_request show dumps m c)
        ⊎ Evident dumps
            (method_of show (get_field "method" m))
            p
            c
            (observe_agent_request show dumps m c)
  unfolding observe_agent_request observe_params
  observe_agent_request-Evident show m p c d e =
      let method = method_of show (get_field "method" m) in
      subst (λ r. Revoked c r ⊎ Evident dumps method p c r)
        (sym (
          if_true c.direct (observe_params dumps method (or_end (get_field "params" m)) c) c d
          ∙ ap (λ v. observe_params dumps method v c) e))
        (observe_in-cases method p (as_text (get_or_null "sessionId" p)) c refl)
