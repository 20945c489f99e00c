-- ===== src/Client/Updates/Follows.antt =====
-- src/acp_proxy/client.py: a notification moves the channel of an active prompt alone.
use acp_test.Base.{◌≡◌, refl, sym, ap, subst, String, true, Option, some, inl, inr, if_true}
use acp_test.Dict
use acp_test.Dict.{get-put_own, get-put_other}
use acp_test.Json.{Value, Fields, get_or_null, get_field}
use acp_test.Client.{Client, active, update, enqueue}
use acp_test.Client.Channel.{
  Follows, concerns_one, moved, appends, view-Follows, revoke-Follows, queued,
}
use acp_test.Client.Updates.{
  handle_notification, direct_notification, legacy_notification, or_end, retained,
}
use acp_test.Client.Updates.Admission.{
  Revoked, Retained, Noted, Admitted, direct_notification-Admitted,
}
use Prim.Native.String.{len}

pub Revoked-Follows : (s : String) (c after : Client) → Revoked c after → Follows s c after
unfolding Revoked
Revoked-Follows s c after (reason, e) = subst (Follows s c) (sym e) (revoke-Follows s c reason)

pub Retained-Follows :
    (dumps : Fields → Option String) (s t : String) (u : Fields) (c after : Client)
    → Dict.get c.prompt_phases t ≡ some active
    → Retained dumps t u c after
    → Follows s c after
unfolding Retained
Retained-Follows dumps s t u c after opened (encoded, b, q, e, f, g, fits, same) =
    subst (Follows s c) (sym same) (
      concerns_one s t c (retained t u (len encoded) b q c) refl
        (moved opened (ap queued g) opened
          (ap queued (get-put_own c.update_queues t (enqueue (update u) q))) (appends u q.items))
        (λ other. refl) (get-put_other c.update_queues t s (enqueue (update u) q)))

pub direct_notification-Follows :
    (dumps : Fields → Option String) (s : String) (method params : Value) (c : Client)
    → Follows s c (direct_notification dumps method params c)
unfolding Admitted Noted
direct_notification-Follows dumps s method params c =
    elim (direct_notification-Admitted dumps method params c) [
      | inl revoked ↦ Revoked-Follows s c _ revoked
      | inr (held, inl same) ↦ subst (Follows s c) (sym same) (view-Follows s c c refl refl refl)
      | inr (held, inr (inl (t, new, fresh, room, same))) ↦
          subst (Follows s c) (sym same) (view-Follows s c _ refl refl refl)
      | inr (held, inr (inr (t, u, valid, known, opened, kept))) ↦
          Retained-Follows dumps s t u c _ opened kept
    ]

pub handle_notification-Follows :
    (dumps : Fields → Option String) (s : String) (m : Fields) (c : Client)
    → c.direct ≡ true
    → Follows s c (handle_notification dumps m c)
unfolding handle_notification
handle_notification-Follows dumps s m c d =
    subst (Follows s c)
      (sym (
        if_true c.direct
          (direct_notification dumps (get_or_null "method" m) (or_end (get_field "params" m)) c)
          (legacy_notification (get_or_null "method" m) (or_end (get_field "params" m)) c) d))
      (direct_notification-Follows dumps s (get_or_null "method" m) (or_end (get_field "params" m))
        c)
