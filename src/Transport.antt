-- ===== src/Transport.antt =====
-- src/acp_proxy/transport.py: AcpTransport between its process and its owner: the pending requests, the
-- validation of envelopes, the dispatch of an incoming message, and the revocation of continuity. The
-- reads and writes of the pipes are outside the model. An observer of the owner may revoke continuity, or raise,
-- which the read loop answers by revoking it: `Observers` says when. The read loop runs while the transport is
-- neither closed nor failed, and what raises in the dispatch of a message ends the dispatch and fails it closed. A pending future is `done` before its reply where its caller was cancelled.
pub mod Correlation
pub mod Envelope
use acp_test.Base.{
  ℕ, zero, suc, ◌+◌, any, length, String, Bool, true, false, not, ◌&&◌, ◌||◌, Option, none, some,
  List, [], ◌∷◌, ◌++◌, ltb, leb, ◌==◌, ◌is◌, if◌then◌else◌,
}
use acp_test.Dict.{is_some}
use acp_test.Transport.Envelope.{
  Numbers, has, is_int, is_dict, is_nonempty_str, valid_strict_response, valid_strict_envelope,
}
use acp_test.Json.{
  Value, null, bool, int, literal, str, arr, obj, Fields, end, get_field, get_or_null, is_str,
}

-- A request that waits for its response.
pub record Pending : Type 0 where
  pub id : ℕ
  pub method : String
  pub params : Option Fields
  pub done : Bool

-- What a future is settled with.
pub data Reply : Type 0 where
  result : Value → Reply
  acp_error : Value → Fields → Reply
  connection_error : String → Reply

-- A task that handles a request of the agent, with the session that the request names.
pub record Incoming : Type 0 where
  pub session_id : Option String
  pub done : Bool

pub record Transport : Type 0 where
  pub started : Bool
  pub next_id : ℕ
  pub pending : List Pending
  pub replies : List (ℕ × Reply)
  pub incoming : List Incoming
  pub closed : Bool
  pub failed : Bool
  pub strict_response_correlation : Bool
  pub close_notices : ℕ
  pub notifications : List Fields

-- What the registered handlers do that the transport can see: a handler for requests is there, and an
-- observer revokes continuity, for a reason.
pub record Observers : Type 0 where
  pub handles_requests : Bool
  pub revokes_at_request : Fields → Bool
  pub revokes_at_response : Fields → Bool
  pub reason : String

abbrev pub max_incoming_request_tasks : ℕ
max_incoming_request_tasks = 64

abbrev pub is_open : Transport → Bool
is_open t = t.started && not t.closed && not t.failed

-- The futures that _fail_pending settles.
unfoldable pub rejections : String → List Pending → List (ℕ × Reply)
rejections message [] = []
rejections message (p ∷ ps) =
    let rest = rejections message ps in
    if p.done then rest else (p.id, connection_error message) ∷ rest

-- _fail_pending
unfoldable pub fail_pending : String → Transport → Transport
unfolding rejections
fail_pending message t = record t {
  replies = t.replies ++ rejections message t.pending;
  pending = [];
}

-- fail_closed, with a close handler
unfoldable pub fail_closed : String → Transport → Transport
unfolding fail_pending
fail_closed message t =
    if t.closed || t.failed
    then t
    else fail_pending message (record t { failed = true; close_notices = t.close_notices + 1 })

-- The answer of _read_loop to an exception
abbrev pub protocol_failure : Transport → Transport
unfolding fail_closed
protocol_failure t = fail_closed "ACP protocol failure" t

-- send_request up to its write; and where the write raises.
unfoldable pub send_request : String → Option Fields → Transport → Transport
send_request method params t = record t {
  next_id = suc t.next_id;
  pending = record { id = t.next_id; method = method; params = params; done = false } ∷ t.pending;
}

unfoldable pub find_pending : ℕ → List Pending → Option Pending
find_pending k [] = none
find_pending k (p ∷ ps) = let rest = find_pending k ps in if p.id == k then some p else rest

unfoldable pub drop_pending : ℕ → List Pending → List Pending
drop_pending k [] = []
drop_pending k (p ∷ ps) = let rest = drop_pending k ps in if p.id == k then rest else p ∷ rest

abbrev pub unsend_request : ℕ → Transport → Transport
unfolding drop_pending
unsend_request k t = record t { pending = drop_pending k t.pending }

-- The key that a response's ID finds in the dict of pending futures: True and 1.0 equal 1. `raises` is the
-- TypeError of a list or a dict.
pub data Key : Type 0 where
  key : ℕ → Key
  no_key : Key
  raises : Key

abbrev pub opt_key : Option ℕ → Key
opt_key none = no_key
opt_key (some k) = key k

abbrev pub key_of : Numbers → Value → Key
key_of n (int k) = key k
key_of n (bool b) = key (if b then 1 else 0)
key_of n (literal s) = opt_key (n.equals s)
key_of n (arr items) = raises
key_of n (obj fields) = raises
key_of n _ = no_key

-- The reply of a response; `none` is the AttributeError of an error that is no dict.
abbrev pub error_reply : Value → Option Reply
error_reply (obj e) =
    some (acp_error (elim (get_field "message" e) [ none ↦ str "Unknown error" | some v ↦ v ]) e)
error_reply _ = none

abbrev pub reply_of : Fields → Option Reply
reply_of m =
    if has "error" m
    then error_reply (get_or_null "error" m)
    else some (result (elim (get_field "result" m) [ none ↦ obj end | some v ↦ v ]))

abbrev pub settle_reply : ℕ → Option Reply → Transport → Transport
settle_reply k none t = protocol_failure t
settle_reply k (some r) t = record t { replies = t.replies ++ (k, r) ∷ [] }

-- A response that meets no pending future.
unfoldable pub uncorrelated : Transport → Transport
unfolding fail_closed
uncorrelated t =
    if t.strict_response_correlation
    then fail_closed "direct ACP response correlation failure" t
    else t

-- A response whose future is pending and not done.
unfoldable pub deliver : Observers → Fields → ℕ → Transport → Transport
unfolding fail_closed drop_pending
deliver o m k t =
    let seen = if o.revokes_at_response m then fail_closed o.reason t else t in
    if seen.failed
    then seen
    else settle_reply k (reply_of m) (record seen { pending = drop_pending k seen.pending })

abbrev pub deliver_to : Observers → Fields → ℕ → Option Pending → Transport → Transport
unfolding deliver uncorrelated
deliver_to o m k none t = uncorrelated t
deliver_to o m k (some p) t = if p.done then uncorrelated t else deliver o m k t

abbrev pub respond_to : Observers → Fields → Key → Transport → Transport
unfolding deliver_to uncorrelated find_pending
respond_to o m (key k) t = deliver_to o m k (find_pending k t.pending) t
respond_to o m no_key t = uncorrelated t
respond_to o m raises t = protocol_failure t

-- The branch of a response.
unfoldable pub respond : Numbers → Observers → Fields → Transport → Transport
unfolding respond_to valid_strict_response fail_closed
respond n o m t =
    if t.strict_response_correlation && not (valid_strict_response n m)
    then fail_closed "direct ACP response correlation failure" t
    else respond_to o m (key_of n (get_or_null "id" m)) t

-- params.get("sessionId"), where it is a text
abbrev pub session_in : Value → Option String
session_in (obj params) = elim (get_or_null "sessionId" params) [ str s ↦ some s | _ ↦ none ]
session_in _ = none

abbrev pub session_of : Fields → Option String
session_of m = session_in (get_or_null "params" m)

abbrev pub names : Option String → String → Bool
names none t = false
names (some s) t = s is t

-- The branch of an incoming request.
unfoldable pub accept_request : Observers → Fields → Transport → Transport
unfolding fail_closed
accept_request o m t =
    let seen = if o.revokes_at_request m then fail_closed o.reason t else t in
    if seen.failed
    then seen
    else if not o.handles_requests
    then seen
    else if leb max_incoming_request_tasks (length seen.incoming)
    then fail_closed "ACP callback capacity exceeded" seen
    else record seen {
      incoming = seen.incoming ++ record { session_id = session_of m; done = false } ∷ [];
    }

-- A request's task ends, and then its callback drops it.
unfoldable pub finish_request : ℕ → List Incoming → List Incoming
finish_request n [] = []
finish_request zero (i ∷ rest) = record i { done = true } ∷ rest
finish_request (suc n) (i ∷ rest) = i ∷ finish_request n rest

unfoldable pub settle_request : ℕ → List Incoming → List Incoming
settle_request n [] = []
settle_request zero (i ∷ rest) = rest
settle_request (suc n) (i ∷ rest) = i ∷ settle_request n rest

-- has_pending_incoming_requests
abbrev pub awaits : String → Incoming → Bool
awaits s i = names i.session_id s && not i.done

unfoldable pub has_pending_incoming_requests : String → Transport → Bool
has_pending_incoming_requests s t = any (awaits s) t.incoming

-- pending_request_count and has_pending_request
unfoldable pub count_pending : String → List Pending → ℕ
count_pending method [] = 0
count_pending method (p ∷ ps) = (if p.method is method then 1 else 0) + count_pending method ps

unfoldable pub pending_request_count : String → Transport → ℕ
unfolding count_pending
pending_request_count method t = count_pending method t.pending

unfoldable pub has_pending_request : String → Transport → Bool
has_pending_request method t = any (λ p. p.method is method) t.pending

-- _dispatch, with a notification handler
unfoldable pub dispatch : Numbers → Observers → Fields → Transport → Transport
unfolding valid_strict_envelope fail_closed accept_request respond
dispatch n o m t =
    if t.strict_response_correlation && not (valid_strict_envelope n m)
    then fail_closed "direct ACP envelope validation failure" t
    else if has "id" m && has "method" m
    then accept_request o m t
    else if has "id" m
    then respond n o m t
    else record t { notifications = t.notifications ++ m ∷ [] }
