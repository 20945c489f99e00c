-- ===== src/Client/Updates/Admission.antt =====
-- src/acp_proxy/client.py, _handle_notification: what a notification of the direct mode may do.
use acp_test.Base.{
  String, ◌≡◌, refl, ap, subst, Bool, true, false, Option, none, some, ◌∷◌, arith, ◌⊎◌, inl, inr,
  Bool-cases, Option-cases, length, any, ◌is◌, ◌&&◌, if◌then◌else◌, ◌<◌,
}
use Prim.Native.String.{len}
use acp_test.Dict
use acp_test.Dict.{is_some}
use acp_test.Json.{Value, null, bool, int, literal, str, arr, obj, Fields, get_or_null, is_str}
use acp_test.Transport.{pending_request_count}
use acp_test.Client.{
  Client, Budget, Queue, PromptPhase, preparing, terminal, active, revoke, as_text, as_dict,
}
use acp_test.Client.Updates.{
  note_state, judge_update, exceeds, retained, enqueue_found, enqueue_sized, enqueue_direct_update,
  direct_notification, take_update, settle_update, direct_session_update,
  handle_direct_state_update, admit_provisional_session_id, valid_parts, is_active, state_update_of,
}
use acp_test.Client.Integrity.{
  Integrity, holds, malformed, missing, drifted, direct_model_integrity,
}

-- Continuity is revoked, and the client is otherwise as it was.
unfoldable pub Revoked : Client → Client → Type 0
Revoked c after = (reason : String) × (after ≡ revoke reason c)

-- The update is appended to the queue of the session, and its budget is charged.
unfoldable pub Retained : (Fields → Option String) → String → Fields → Client → Client → Type 0
Retained dumps s u c after =
    (encoded : String) × (b : Budget) × (q : Queue) × (dumps u ≡ some encoded)
    × (Dict.get c.update_budgets s ≡ some b)
    × (Dict.get c.update_queues s ≡ some q)
    × (exceeds (len encoded) b q ≡ false)
    × (after ≡ retained s u (len encoded) b q c)

pub enqueue_direct_update-cases :
    (dumps : Fields → Option String) (s : String) (u : Fields) (c : Client)
    → Revoked c (enqueue_direct_update dumps s u c)
      ⊎ Retained dumps s u c (enqueue_direct_update dumps s u c)
unfolding enqueue_direct_update enqueue_found enqueue_sized Revoked Retained
enqueue_direct_update-cases dumps s u c =
    cases (dumps u) (Dict.get c.update_budgets s) (Dict.get c.update_queues s) refl refl refl
  where
    cases :
        (o : Option String) (b : Option Budget) (q : Option Queue)
        → dumps u ≡ o
        → Dict.get c.update_budgets s ≡ b
        → Dict.get c.update_queues s ≡ q
        → Revoked c (enqueue_found s u o b q c) ⊎ Retained dumps s u c (enqueue_found s u o b q c)
    cases o none q e f g = inl (_, refl)
    cases o (some b) none e f g = inl (_, refl)
    cases none (some b) (some q) e f g = inl (_, refl)
    cases (some encoded) (some b) (some q) e f g = elim (Bool-cases (exceeds (len encoded) b q)) [
      | inl x ↦ inl ("direct ACP evidence stream exceeded reader-side limits", rw x refl)
      | inr x ↦ inr (encoded, b, q, e, f, g, x, rw x refl)
    ]

-- An ID that no session has is noted for the creation under way.
unfoldable pub Noted : Client → Client → Type 0
Noted c after =
    (s : String) × (Dict.get c.sessions s ≡ none)
    × (any (λ t. t is s) c.provisional_session_ids ≡ false)
    × (length c.provisional_session_ids < pending_request_count "session/new" c.transport)
    × (after ≡ record c { provisional_session_ids = s ∷ c.provisional_session_ids })

admit_provisional_session_id-cases :
    (s : String) (c after : Client)
    → Dict.get c.sessions s ≡ none
    → admit_provisional_session_id s c ≡ some after
    → (after ≡ c) ⊎ Noted c after
unfolding admit_provisional_session_id Noted
admit_provisional_session_id-cases s c after new e =
    elim (Bool-cases (any (λ t. t is s) c.provisional_session_ids)) [
      | inl known ↦ inl (ground arith)
      | inr unknown ↦ inr (s, new, unknown, ground arith, ground arith)
    ]

note_state-cases :
    (dumps : Fields → Option String) (o : Option (String × String × Fields)) (c after : Client)
    → note_state dumps o c ≡ some after
    → (after ≡ c) ⊎ Noted c after
unfolding note_state
note_state-cases dumps none c after e = cc
note_state-cases dumps (some (s, kind, u)) c after e = elim (Option-cases (Dict.get c.sessions s)) [
  | inl new ↦ elim (Option-cases (admit_provisional_session_id s c)) [
    | inl refused ↦ inl (ground arith)
    | inr (d, noted) ↦ elim (Bool-cases (any (λ t. t is s) c.session_new_response_ids)) [
      | inl responded ↦ inl (ground arith)
      | inr fresh ↦ admit_provisional_session_id-cases s c after new (ground arith)
    ]
  ]
  | inr (x, known) ↦ inl (ground arith)
]

if_some {ℓ} :
    {A : Type ℓ} (b : Bool) {x y : A} → (if b then some x else none) ≡ some y → (b ≡ true) × (x ≡ y)
if_some b e = (ground arith, ground arith)

conjuncts : (a b d p k : Bool) → (a && b && d && p && k) ≡ true → (b ≡ true) × (p ≡ true)
conjuncts a b d p k e = (ground arith, ground arith)

if_same {ℓ} :
    {A : Type ℓ} (b : Bool) {o : Option A} {y : A} → (if b then o else none) ≡ some y → o ≡ some y
if_same true e = e
if_same false e = cc

pub is_active-phase : (o : Option PromptPhase) → is_active o ≡ true → o ≡ some active
is_active-phase none e = cc
is_active-phase (some active) e = refl
is_active-phase (some preparing) e = cc
is_active-phase (some terminal) e = cc

valid_parts-active :
    (c : Client) (o : Option String) (v : Option Fields) {s : String} {u : Fields}
    → valid_parts c o v ≡ some (s, u)
    → (is_some (Dict.get c.sessions s) ≡ true) × (Dict.get c.prompt_phases s ≡ some active)
valid_parts-active c none v e = cc
valid_parts-active c (some t) none e = cc
valid_parts-active c (some t) (some w) {s} {u} e =
    let (all, same) = if_some _ e in
    let (known, opened) = conjuncts _ _ _ _ _ all in
    let at = ap (λ z. z.0) same in
    (
      subst (λ k. is_some (Dict.get c.sessions k) ≡ true) at known,
      subst (λ k. Dict.get c.prompt_phases k ≡ some active) at (is_active-phase _ opened),
    )

direct_session_update-active :
    (c : Client) (method params : Value) {s : String} {u : Fields}
    → direct_session_update c method params ≡ some (s, u)
    → (is_some (Dict.get c.sessions s) ≡ true) × (Dict.get c.prompt_phases s ≡ some active)
unfolding direct_session_update
direct_session_update-active c method (obj p) e =
    valid_parts-active c (as_text (get_or_null "sessionId" p)) (as_dict (get_or_null "update" p))
      (if_same (is_str method "session/update") e)
direct_session_update-active c method null e = cc
direct_session_update-active c method (bool b) e = cc
direct_session_update-active c method (int n) e = cc
direct_session_update-active c method (literal n) e = cc
direct_session_update-active c method (str s) e = cc
direct_session_update-active c method (arr l) e = cc

-- What the admission of an update does to a client: continuity is revoked; or the client stays as it was; or
-- an ID is noted; or the update is retained for a session that is known and in an active prompt.
unfoldable pub Admitted : (Fields → Option String) → Client → Value → Value → Client → Type 0
Admitted dumps c method params after =
    (after ≡ c)
    ⊎ (Noted c after
        ⊎ ((s : String) × (u : Fields) × (direct_session_update c method params ≡ some (s, u))
            × (is_some (Dict.get c.sessions s) ≡ true)
            × (Dict.get c.prompt_phases s ≡ some active)
            × Retained dumps s u c after))

take_update-cases :
    (dumps : Fields → Option String) (method params : Value) (c : Client)
    → Revoked c (take_update dumps method params c)
      ⊎ Admitted dumps c method params (take_update dumps method params c)
unfolding take_update settle_update handle_direct_state_update Admitted Revoked
take_update-cases dumps method params c =
    settled (handle_direct_state_update dumps method params c)
      (direct_session_update c method params) refl refl
  where
    settled :
        (o : Option Client) (p : Option (String × Fields))
        → handle_direct_state_update dumps method params c ≡ o
        → direct_session_update c method params ≡ p
        → Revoked c (settle_update dumps o p c)
          ⊎ Admitted dumps c method params (settle_update dumps o p c)
    settled (some after) p e f =
        inr (elim (note_state-cases dumps (state_update_of c method params) c after e) [
          | inl same ↦ inl same
          | inr noted ↦ inr (inl noted)
        ])
    settled none none e f = inl (_, refl)
    settled none (some (s, u)) e f = elim (enqueue_direct_update-cases dumps s u c) [
      | inl revoked ↦ inl revoked
      | inr kept ↦
          let (known, opened) = direct_session_update-active c method params f in
          inr (inr (inr (s, u, f, known, opened, kept)))
    ]

-- In the direct mode every notification revokes continuity, unless the model options in it agree with the
-- selected model; then it leaves the client as it was, or notes an unknown session's ID within the number of
-- creations under way, or appends the update to the queue of a known session in an active prompt.
pub direct_notification-Admitted :
    (dumps : Fields → Option String) (method params : Value) (c : Client)
    → Revoked c (direct_notification dumps method params c)
      ⊎ ((direct_model_integrity c params ≡ holds)
          × Admitted dumps c method params (direct_notification dumps method params c))
unfolding direct_notification judge_update Revoked
direct_notification-Admitted dumps method params c = judged (direct_model_integrity c params) refl
  where
    judged :
        (i : Integrity)
        → direct_model_integrity c params ≡ i
        → Revoked c (judge_update dumps method params c i)
          ⊎ ((direct_model_integrity c params ≡ holds)
              × Admitted dumps c method params (judge_update dumps method params c i))
    judged holds e = elim (take_update-cases dumps method params c) [
      | inl revoked ↦ inl revoked
      | inr admitted ↦ inr (e, admitted)
    ]
    judged malformed e = inl (_, refl)
    judged drifted e = inl (_, refl)
    judged missing e = inl (_, refl)
