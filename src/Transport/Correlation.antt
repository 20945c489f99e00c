-- ===== src/Transport/Correlation.antt =====
-- src/acp_proxy/transport.py: continuity is revoked once, a malformed envelope revokes it, and a response
-- settles the request that it answers.
use acp_test.Base.{
  inl, inr, ◌⊎◌, Option-cases, Bool-cases, ℕ, suc, ◌+◌, String, ◌≡◌, refl, none, true, false,
  Option, some, List, [], ◌∷◌, ◌++◌, arith, any, ◌==◌,
}
use acp_test.Json.{
  end, field, Value, null, bool, literal, str, arr, obj, int, Fields, get_field, get_or_null,
}
use acp_test.Transport.{
  Transport, Pending, Reply, result, acp_error, connection_error, reply_of, Observers, dispatch,
  fail_closed, send_request, is_open, rejections, fail_pending, respond, deliver, find_pending,
  drop_pending,
}
use acp_test.Transport.Envelope.{
  Numbers, has, is_dict, valid_strict_envelope, valid_strict_response,
}

-- Continuity is revoked once: a second revocation, for whatever reason, changes nothing, and after the
-- first the transport is not open.
pub fail_closed-fail_closed :
    (first second : String) (t : Transport)
    → (fail_closed second (fail_closed first t) ≡ fail_closed first t)
      × (is_open (fail_closed first t) ≡ false)
unfolding fail_closed
fail_closed-fail_closed first second t = (ground arith, ground arith)

-- In strict correlation an envelope that is not valid, on a transport that is neither closed nor failed,
-- is handed to nobody: every pending request is rejected, none is left, and the owner is told once more.
pub dispatch_malformed :
    (n : Numbers) (o : Observers) (m : Fields) (t : Transport)
    → t.strict_response_correlation ≡ true
    → t.closed ≡ false
    → t.failed ≡ false
    → valid_strict_envelope n m ≡ false
    → dispatch n o m t ≡ record t {
      failed = true;
      pending = [];
      replies = t.replies ++ rejections "direct ACP envelope validation failure" t.pending;
      close_notices = t.close_notices + 1;
    }
unfolding dispatch fail_closed fail_pending
dispatch_malformed n o m t s c f v = ground arith

drop_pending_absent :
    (k : ℕ) (ps : List Pending) → any (λ p. p.id == k) ps ≡ false → drop_pending k ps ≡ ps
unfolding drop_pending
drop_pending_absent k [] h = refl
drop_pending_absent k (p ∷ ps) h = ground (arith, drop_pending_absent k ps)

-- The requests that a response finds are the ones before it, without the new one.
drop_pending_new :
    (k : ℕ) (p : Pending) (ps : List Pending)
    → p.id ≡ k
    → any (λ q. q.id == k) ps ≡ false
    → drop_pending k (p ∷ ps) ≡ ps
unfolding drop_pending
drop_pending_new k p ps e h = ground (arith, drop_pending_absent k ps)

-- A reply that says what a response does: its result, or its error.
unfoldable pub Answers : Fields → Reply → Type 0
Answers m (result v) = (has "error" m ≡ false) × (get_field "result" m ≡ some v)
Answers m (acp_error message e) = get_field "error" m ≡ some (obj e)
Answers m (connection_error message) = ⊥

dict_of : (v : Value) → is_dict v ≡ true → (e : Fields) × (v ≡ obj e)
dict_of null h = cc
dict_of (bool b) h = cc
dict_of (int k) h = cc
dict_of (literal s) h = cc
dict_of (str s) h = cc
dict_of (arr l) h = cc
dict_of (obj e) h = (e, refl)

get_or_null_found :
    (k : String) (m : Fields) (v : Value) → get_field k m ≡ some v → get_or_null k m ≡ v
get_or_null_found k end v e = cc
get_or_null_found k (field j w rest) v e = ground (arith, get_or_null_found k rest v)

-- A valid response has a reply.
reply_of-Answers :
    (n : Numbers) (m : Fields)
    → valid_strict_response n m ≡ true
    → (r : Reply) × (reply_of m ≡ some r) × Answers m r
unfolding Answers valid_strict_response
reply_of-Answers n m valid = elim (Option-cases (get_field "error" m)) [
  | inl none_error ↦ elim (Option-cases (get_field "result" m)) [
    | inl none_result ↦ ground arith
    | inr (v, found) ↦ (result v, ground arith, (ground arith, found))
  ]
  | inr (v, found) ↦
      let value = get_or_null_found "error" m v found in
      let (e, same) = dict_of v (ground arith) in
      (
        acp_error (elim (get_field "message" e) [ none ↦ str "Unknown error" | some s ↦ s ]) e,
        ground arith,
        cc,
      )
]

-- On an open transport with strict correlation, where the next ID is pending nowhere: a valid response to the
-- request that was sent last settles that request with the result or the error that the response has, leaves
-- every other request pending, and hands nothing to anyone else; unless an observer objects to the response,
-- which fails the transport closed.
pub dispatch-send_request :
    (n : Numbers) (o : Observers) (m : Fields) (t : Transport) (method : String)
    (params : Option Fields)
    → t.strict_response_correlation ≡ true
    → t.closed ≡ false
    → t.failed ≡ false
    → any (λ p. p.id == t.next_id) t.pending ≡ false
    → valid_strict_envelope n m ≡ true
    → has "method" m ≡ false
    → get_field "id" m ≡ some (int t.next_id)
    → ((o.revokes_at_response m ≡ true)
        × (dispatch n o m (send_request method params t)
            ≡ fail_closed o.reason (send_request method params t)))
      ⊎ ((o.revokes_at_response m ≡ false)
          × ((r : Reply) × Answers m r
              × (dispatch n o m (send_request method params t) ≡ record t {
                next_id = suc t.next_id;
                replies = t.replies ++ (t.next_id, r) ∷ [];
              })))
unfolding dispatch send_request respond deliver find_pending valid_strict_envelope fail_closed
dispatch-send_request n o m t method params strict unclosed live fresh valid no_method found =
    let id_is = get_or_null_found "id" m (int t.next_id) found in
    let (r, reply, answers) = reply_of-Answers n m (ground arith) in
    elim (Bool-cases (o.revokes_at_response m)) [
      | inl objects ↦ inl (objects, ground arith)
      | inr quiet ↦ inr (
        quiet,
        (
          r,
          answers,
          ground (
            arith,
            drop_pending_new t.next_id
                (record { id = t.next_id; method = method; params = params; done = false })
                t.pending,
          ),
        ),
      )
    ]
