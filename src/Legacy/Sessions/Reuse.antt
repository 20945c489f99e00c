-- ===== src/Legacy/Sessions/Reuse.antt =====
-- src/acp_proxy/server.py, _get_session: which requests share a session.
use acp_test.Base.{
  String, ◌≡◌, refl, ap, ◌∙◌, Bool, true, false, not, ◌&&◌, ◌||◌, Option, some, List, length, ◌==◌,
  if◌then◌else◌, is_refl, Bool-cases, inl, inr, arith, if_true, if_false, if_both,
}
use acp_test.Dict
use acp_test.Dict.{get-put_own}
use acp_test.Json.{Fields}
use acp_test.State.{ok, ◌>>=◌}
use acp_test.Client.{contains, add}
use acp_test.Client.Messages.{extract_first_user_message}
use acp_test.Legacy.Sessions.{
  Sessions, reuses, creates, lookup, assign, of_model, route_for, choose_session, register_session,
  finish_session, activate, with_prompt,
}

lookup-assign :
    (model hash s : String) (st : Sessions) → lookup (assign model hash s st) model hash ≡ some s
unfolding lookup assign
lookup-assign model hash s st =
    ap (λ o. Dict.get (of_model o) hash) (get-put_own st.sessions model _) ∙ get-put_own _ hash s

lookup-register_session :
    (system_prompt : Option String) (model hash s : String) (st : Sessions)
    → lookup (register_session system_prompt model hash s st).0 model hash ≡ some s
unfolding register_session lookup
lookup-register_session system_prompt model hash s st =
    if_both (λ (r : Sessions × Bool). lookup r.0 model hash ≡ some s)
      (with_prompt system_prompt && not (contains st.initialized s)) (lookup-assign model hash s st)
      (lookup-assign model hash s st)

contains-add : (s : String) (l : List String) → contains (add s l) s ≡ true
contains-add s l = elim (Bool-cases (contains l s)) [
  | inl e ↦ ap (λ k. contains k s) (if_true _ _ _ e) ∙ e
  | inr e ↦ ap (λ k. contains k s) (if_false _ _ _ e) ∙ ap (λ b. b || contains l s) (is_refl s)
]

register_session-active :
    (system_prompt : Option String) (model hash s : String) (st : Sessions)
    → contains (register_session system_prompt model hash s st).0.active s ≡ contains st.active s
unfolding register_session assign
register_session-active system_prompt model hash s st =
    if_both (λ (r : Sessions × Bool). contains r.0.active s ≡ contains st.active s)
      (with_prompt system_prompt && not (contains st.initialized s)) refl refl

idle_single : (single : Bool) {b : Bool} → b ≡ false → (single && b) ≡ false
idle_single true e = e
idle_single false e = refl

busy_single : (single : Bool) {b : Bool} → b ≡ true → (single && b) ≡ single
busy_single true e = e
busy_single false e = refl

-- The end of a request, once its entry is known.
finish_session-lookup :
    (model hash s : String) (st : Sessions)
    → lookup st model hash ≡ some s
    → finish_session model hash st ≡ (record st { active = add s st.active }, ok s)
unfolding finish_session activate
finish_session-lookup model hash s st e = ap (λ o. activate o st) e

-- The choice, once the first message and the entry are known.
choose_session-lookup :
    (sha256 : String → String) (st : Sessions) (model : String) (ms : List Fields) {first : String}
    (o : Option String)
    → extract_first_user_message ms ≡ ok first
    → lookup st model (sha256 first) ≡ o
    → choose_session sha256 st model ms ≡ ok (route_for st (length ms == 1) o)
unfolding choose_session
choose_session-lookup sha256 st model ms o e f =
    ap (λ r. r >>= λ first. ok (route_for st (length ms == 1) (lookup st model (sha256 first)))) e
    ∙ ap (λ x. ok (route_for st (length ms == 1) x)) f

-- A session that a conversation has been given serves each of its further requests that repeats the history;
-- a request of one message gets a fresh session, although its first message is the same.
pub choose_session-finish_session :
    (sha256 : String → String) (system_prompt : Option String) (st : Sessions) (model s : String)
    (ms : List Fields) {first : String}
    → extract_first_user_message ms ≡ ok first
    → (finish_session model
          (sha256 first)
          (register_session system_prompt model (sha256 first) s st).0).1
        ≡ ok s
      × ((choose_session sha256
            (finish_session model
              (sha256 first)
              (register_session system_prompt model (sha256 first) s st).0).0
            model
            ms)
          ≡ ok (if length ms == 1 then creates else reuses s))
unfolding route_for lookup
choose_session-finish_session sha256 system_prompt st model s ms {first} e =
    let st1 = (register_session system_prompt model (sha256 first) s st).0 in
    let there = lookup-register_session system_prompt model (sha256 first) s st in
    let finished = finish_session-lookup model (sha256 first) s st1 there in
    (
      ap (λ r. r.1) finished,
      ap (λ r. choose_session sha256 r.0 model ms) finished
          ∙ choose_session-lookup sha256 (record st1 { active = add s st1.active }) model ms
              (some s) e (same st1 ∙ there)
          ∙ ap (λ b. ok (if b then creates else reuses s))
              (busy_single (length ms == 1) (contains-add s st1.active)),
    )
  where
    same :
        (st1 : Sessions)
        → lookup (record st1 { active = add s st1.active }) model (sha256 first)
          ≡ lookup st1 model (sha256 first)
    same st1 = refl

-- While the system prompt is sent to a new session, which is not active yet, a second request that begins with
-- the same text is given the same session, also when it has one message only.
pub choose_session-register_session :
    (sha256 : String → String) (system_prompt : Option String) (st : Sessions) (model s : String)
    (ms : List Fields) {first : String}
    → extract_first_user_message ms ≡ ok first
    → with_prompt system_prompt ≡ true
    → contains st.initialized s ≡ false
    → contains st.active s ≡ false
    → ((register_session system_prompt model (sha256 first) s st).1 ≡ true)
      × (choose_session sha256 (register_session system_prompt model (sha256 first) s st).0 model ms
          ≡ ok (reuses s))
unfolding route_for register_session
choose_session-register_session sha256 system_prompt st model s ms {first} e sent new fresh = (
  ground arith,
  choose_session-lookup sha256 _ model ms (some s) e
        (lookup-register_session system_prompt model (sha256 first) s st)
      ∙ ap ok (
          if_false _ _ _ (
            idle_single (length ms == 1)
              (register_session-active system_prompt model (sha256 first) s st ∙ fresh))),
)
