-- ===== src/Server/Body.antt =====
-- src/acp_proxy/direct_server.py, RequestBodyLimitMiddleware: the messages of a request are read up to the
-- limit, and then replayed to the application. The messages that the server will send are a list; a list
-- that ends too early leaves the middleware waiting.
use acp_test.Base.{
  ℕ, zero, suc, length, ◌+◌, ◌≤◌, ◌<◌, String, Bool, true, false, ◌≡◌, refl, ap, ◌∙◌, List, [], ◌∷◌,
  ◌++◌, ltb, if◌then◌else◌, arith,
}
use mathlib.Core.List.{append_assoc}
use Prim.Native.String.{len}

-- An ASGI message: a part of the body and whether more follows, a disconnect, or another type.
pub data Message : Type 0 where
  request : String → Bool → Message
  disconnect : Message
  other : Message

pub data Outcome : Type 0 where
  too_large : Outcome
  passed : List Message → Outcome
  waiting : Outcome

-- The loop, with its `total` and its `messages`.
unfoldable pub receive_body : ℕ → ℕ → List Message → List Message → Outcome
receive_body max_bytes total messages [] = waiting
receive_body max_bytes total messages (request body more ∷ rest) =
    let next =
      receive_body max_bytes (total + len body) (messages ++ request body more ∷ []) rest in
    if ltb max_bytes (total + len body)
    then too_large
    else if more
    then next
    else passed (messages ++ request body more ∷ [])
receive_body max_bytes total messages (disconnect ∷ rest) = passed (messages ++ disconnect ∷ [])
receive_body max_bytes total messages (other ∷ rest) = receive_body max_bytes total messages rest

-- The middleware on an HTTP scope.
unfoldable pub limit_body : ℕ → List Message → Outcome
unfolding receive_body
limit_body max_bytes incoming = receive_body max_bytes 0 [] incoming

-- One call of `replay`: the message, and what is left; a list that is used up is a disconnect.
unfoldable pub replay : List Message → Message × List Message
replay [] = (disconnect, [])
replay (m ∷ ms) = (m, ms)

-- So many calls of `replay`.
unfoldable pub replays : ℕ → List Message → List Message
unfolding replay
replays zero ms = []
replays (suc n) ms = let (m, rest) = replay ms in m ∷ replays n rest

-- The bytes of the bodies of some messages, and the messages without those of another type.
unfoldable pub body_total : List Message → ℕ
body_total [] = 0
body_total (request body more ∷ ms) = len body + body_total ms
body_total (disconnect ∷ ms) = body_total ms
body_total (other ∷ ms) = body_total ms

unfoldable pub known : List Message → List Message
known [] = []
known (request body more ∷ ms) = request body more ∷ known ms
known (disconnect ∷ ms) = disconnect ∷ known ms
known (other ∷ ms) = known ms

-- Whether messages are one request as a whole: parts that announce more, and then the last part or a disconnect.
unfoldable pub is_complete : List Message → Bool
is_complete (request body true ∷ ms) = is_complete ms
is_complete (request body false ∷ []) = true
is_complete (disconnect ∷ []) = true
is_complete _ = false

replays-length : (ms : List Message) → replays (length ms) ms ≡ ms
unfolding replays
replays-length [] = refl
replays-length (m ∷ ms) = ap (◌∷◌ m) (replays-length ms)

-- What the loop has read when it lets a request pass.
abbrev pub Passed : ℕ → ℕ → List Message → List Message → List Message → Type 0
Passed max_bytes total messages incoming ms =
    (read : List Message) × (rest : List Message) × (incoming ≡ read ++ rest)
    × (ms ≡ messages ++ known read)
    × (is_complete (known read) ≡ true)
    × (total + body_total read ≤ max_bytes)

receive_body-Passed :
    (max_bytes total : ℕ) (messages incoming : List Message) {ms : List Message}
    → total ≤ max_bytes
    → receive_body max_bytes total messages incoming ≡ passed ms
    → Passed max_bytes total messages incoming ms
unfolding receive_body body_total known is_complete
receive_body-Passed max_bytes total messages [] h e = cc
receive_body-Passed max_bytes total messages (disconnect ∷ rest) h e =
    (disconnect ∷ [], rest, refl, ground arith, refl, omega arith)
receive_body-Passed max_bytes total messages (other ∷ rest) h e =
    let (read, left, i, same, whole, b) = receive_body-Passed max_bytes total messages rest h e in
    (other ∷ read, left, ap (◌∷◌ other) i, same, whole, b)
receive_body-Passed max_bytes total messages (request body false ∷ rest) h e =
    (request body false ∷ [], rest, refl, ground arith, refl, ground arith)
receive_body-Passed max_bytes total messages (request body true ∷ rest) h e =
    let (read, left, i, same, whole, b) =
      receive_body-Passed max_bytes (total + len body) (messages ++ request body true ∷ []) rest
        (ground arith) (ground arith) in
    (
      request body true ∷ read,
      left,
      ap (◌∷◌ (request body true)) i,
      same ∙ append_assoc messages (request body true ∷ []) (known read),
      whole,
      omega arith,
    )

-- The messages that are read of a request that passes have at most the limit of body bytes. Without those of
-- another type, they are parts that announce more and then the last part or a disconnect, and the application
-- that calls `replay` for them gets them all, in order.
pub limit_body-replays :
    (max_bytes : ℕ) (incoming : List Message) {ms : List Message}
    → limit_body max_bytes incoming ≡ passed ms
    → (read : List Message) × (rest : List Message) × (incoming ≡ read ++ rest)
      × (body_total read ≤ max_bytes)
      × (is_complete (known read) ≡ true)
      × (replays (length ms) ms ≡ known read)
unfolding limit_body
limit_body-replays max_bytes incoming {ms} e =
    let (read, rest, i, same, whole, b) =
      receive_body-Passed max_bytes 0 [] incoming (omega arith) e in
    (read, rest, i, omega arith, whole, replays-length ms ∙ same)

receive_body_large :
    (max_bytes total : ℕ) (messages incoming : List Message)
    → receive_body max_bytes total messages incoming ≡ too_large
    → max_bytes < total + body_total incoming
unfolding receive_body body_total
receive_body_large max_bytes total messages [] e = cc
receive_body_large max_bytes total messages (disconnect ∷ rest) e = cc
receive_body_large max_bytes total messages (other ∷ rest) e =
    receive_body_large max_bytes total messages rest e
receive_body_large max_bytes total messages (request body false ∷ rest) e = ground arith
receive_body_large max_bytes total messages (request body true ∷ rest) e = ground (
  arith,
  receive_body_large max_bytes (total + len body) (messages ++ request body true ∷ []) rest,
)

-- A request is refused as too large only when its body bytes do exceed the limit.
pub limit_body_large :
    (max_bytes : ℕ) (incoming : List Message)
    → limit_body max_bytes incoming ≡ too_large
    → max_bytes < body_total incoming
unfolding limit_body
limit_body_large max_bytes incoming e = omega (arith, receive_body_large max_bytes 0 [] incoming e)
