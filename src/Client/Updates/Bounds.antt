-- ===== src/Client/Updates/Bounds.antt =====
-- src/acp_proxy/client.py: a notification keeps the queues and the budgets of a client within their limits.
use acp_test.Base.{
  ℕ, String, ◌≡◌, sym, subst, false, Option, none, some, arith, inl, inr, if_both, if_true,
  if_false, Bool-cases,
}
use acp_test.Dict
use acp_test.Dict.Removal.{put-Every}
use acp_test.Json.{
  Value, obj, null, bool, int, literal, str, arr, Fields, get_field, is_str, get_or_null,
}
use acp_test.Client.{Client, Budget, Queue, update, is_full}
use acp_test.Client.Bounds.{IsWithin, IsKept, IsBounded, enqueue-IsWithin, revoke-IsBounded}
use acp_test.Client.Updates.{
  exceeds, charge, enqueue_direct_update, direct_notification, legacy_notification,
  handle_notification, put_update, put_legacy, legacy_params, or_end,
}
use acp_test.Client.Updates.Admission.{
  Revoked, Retained, Noted, Admitted, enqueue_direct_update-cases, direct_notification-Admitted,
}

charge-IsKept :
    (n : ℕ) (b : Budget) (q : Queue)
    → exceeds n b q ≡ false
    → IsKept (charge n b) × (is_full q ≡ false)
charge-IsKept n b q e = ground arith

Revoked-IsBounded : (c after : Client) → Revoked c after → IsBounded c → IsBounded after
unfolding Revoked
Revoked-IsBounded c after (reason, e) h = subst IsBounded (sym e) (revoke-IsBounded reason c h)

Retained-IsBounded :
    (dumps : Fields → Option String) (s : String) (u : Fields) (c after : Client)
    → Retained dumps s u c after
    → IsBounded c
    → IsBounded after
unfolding Retained IsBounded
Retained-IsBounded dumps s u c after (encoded, b, q, e, f, g, fits, same) h =
    let (kept, room) = charge-IsKept _ b q fits in
    subst IsBounded (sym same) (
      put-Every IsWithin c.update_queues s _ h.0 (enqueue-IsWithin (update u) q room),
      put-Every IsKept c.update_budgets s _ h.1 kept,
    )

pub enqueue_direct_update-IsBounded :
    (dumps : Fields → Option String) (s : String) (u : Fields) (c : Client)
    → IsBounded c
    → IsBounded (enqueue_direct_update dumps s u c)
enqueue_direct_update-IsBounded dumps s u c h = elim (enqueue_direct_update-cases dumps s u c) [
  | inl revoked ↦ Revoked-IsBounded c _ revoked h
  | inr kept ↦ Retained-IsBounded dumps s u c _ kept h
]

direct_notification-IsBounded :
    (dumps : Fields → Option String) (method params : Value) (c : Client)
    → IsBounded c
    → IsBounded (direct_notification dumps method params c)
unfolding Admitted Noted IsBounded
direct_notification-IsBounded dumps method params c h =
    elim (direct_notification-Admitted dumps method params c) [
      | inl revoked ↦ Revoked-IsBounded c _ revoked h
      | inr (held, inl same) ↦ subst IsBounded (sym same) h
      | inr (held, inr (inl (s, new, fresh, room, same))) ↦ subst IsBounded (sym same) h
      | inr (held, inr (inr (s, u, valid, known, opened, kept))) ↦
          Retained-IsBounded dumps s u c _ kept h
    ]

put_update-IsBounded :
    (s : String) (u : Fields) (o : Option Queue) (c : Client)
    → IsBounded c
    → IsBounded (put_update s u o c)
unfolding put_update
put_update-IsBounded s u none c h = h
put_update-IsBounded s u (some q) c h = elim (Bool-cases (is_full q)) [
  | inl full ↦ subst IsBounded (sym (if_true _ _ _ full)) (revoke-IsBounded _ c h)
  | inr room ↦ subst IsBounded (sym (if_false _ _ _ room)) (
      unfold IsBounded in
      (put-Every IsWithin c.update_queues s _ h.0 (enqueue-IsWithin (update u) q room), h.1))
]

put_legacy-IsBounded :
    (v : Value) (o : Option Fields) (c : Client) → IsBounded c → IsBounded (put_legacy v o c)
unfolding put_legacy
put_legacy-IsBounded v none c h = revoke-IsBounded _ c h
put_legacy-IsBounded null (some u) c h = h
put_legacy-IsBounded (bool b) (some u) c h = h
put_legacy-IsBounded (int n) (some u) c h = h
put_legacy-IsBounded (literal n) (some u) c h = h
put_legacy-IsBounded (str s) (some u) c h =
    put_update-IsBounded s u (Dict.get c.update_queues s) c h
put_legacy-IsBounded (arr l) (some u) c h = revoke-IsBounded _ c h
put_legacy-IsBounded (obj o) (some u) c h = revoke-IsBounded _ c h

legacy_params-IsBounded :
    (params : Value) (c : Client) → IsBounded c → IsBounded (legacy_params params c)
unfolding legacy_params
legacy_params-IsBounded (obj p) c h = put_legacy-IsBounded _ _ c h
legacy_params-IsBounded null c h = revoke-IsBounded _ c h
legacy_params-IsBounded (bool b) c h = revoke-IsBounded _ c h
legacy_params-IsBounded (int n) c h = revoke-IsBounded _ c h
legacy_params-IsBounded (literal n) c h = revoke-IsBounded _ c h
legacy_params-IsBounded (str s) c h = revoke-IsBounded _ c h
legacy_params-IsBounded (arr l) c h = revoke-IsBounded _ c h

legacy_notification-IsBounded :
    (method params : Value) (c : Client)
    → IsBounded c
    → IsBounded (legacy_notification method params c)
unfolding legacy_notification
legacy_notification-IsBounded method params c h =
    if_both IsBounded (is_str method "session/update") (legacy_params-IsBounded params c h) h

pub handle_notification-IsBounded :
    (dumps : Fields → Option String) (m : Fields) (c : Client)
    → IsBounded c
    → IsBounded (handle_notification dumps m c)
unfolding handle_notification
handle_notification-IsBounded dumps m c h =
    if_both IsBounded c.direct
      (direct_notification-IsBounded dumps (get_or_null "method" m) (or_end (get_field "params" m))
        c h)
      (legacy_notification-IsBounded (get_or_null "method" m) (or_end (get_field "params" m)) c h)
