-- ===== src/Legacy/Agreement.antt =====
-- src/acp_proxy/server.py: the stream of a completion and the response in one piece.
use Prim.Native.String.{◌++◌ as ◌+++◌, count}
use text.Mathlib.TextLemmas.{append_assoc, append-nil, length-append}
use acp_test.Base.{
  ℕ, ◌+◌, ◌≡◌, refl, sym, ap, subst, ◌∙◌, String, Bool, true, false, not, some, List, [], ◌∷◌, ◌++◌,
  map, arith, Bool-cases, inl, inr, if_true, if_false, ◌is◌, eq_iff,
}
use acp_test.Json.{null, bool, int, literal, str, arr, obj, get_or_null, is_truthy}
use acp_test.Legacy.{
  Item, yields, times_out, raises, Piece, says, silent, malformed, piece_of, completed, collect,
  collect_piece, Event, content, finish, done_marker, Streamed, stream, stream_piece, stream_text,
  before, finish_reason,
}

unfoldable pub concat : List String → String
concat [] = ""
concat (s ∷ l) = s +++ concat l

abbrev pub contents : List String → List Event
contents l = map (λ s. content (str s)) l

-- The stream ends with the reason, behind the texts that complete the text so far, all of them counted.
unfoldable pub Agrees : String → ℕ → String → String → Streamed → Type 0
Agrees text chars full reason r =
    (texts : List String) × (r.events ≡ contents texts ++ finish reason ∷ done_marker ∷ [])
    × (text +++ concat texts ≡ full)
    × (r.counted ≡ some (chars + count (concat texts)))

Agrees-before :
    (s text : String) (chars : ℕ) (full reason : String) (r : Streamed)
    → Agrees (text +++ s) (chars + count s) full reason r
    → Agrees text chars full reason (before (content (str s)) r)
unfolding Agrees concat
Agrees-before s text chars full reason r (texts, e, f, g) = (
  s ∷ texts,
  ap (λ l. content (str s) ∷ l) e,
  sym (append_assoc text s (concat texts)) ∙ f,
  g ∙ ap some (omega (arith, length-append s (concat texts))),
)

empty : (s : String) → not (s is "") ≡ false → s ≡ ""
empty s e = ground (arith, eq_iff s "")

ended :
    (text : String) (chars : ℕ) (given full reason : String)
    → completed text given ≡ completed full reason
    → Agrees text chars full reason
        (record { events = finish given ∷ done_marker ∷ []; counted = some chars })
unfolding Agrees concat
ended text chars given full reason e =
    ([], ground arith, append-nil text ∙ ground arith, ap some (omega arith))

module _ (items : List Item) (full reason : String) where
  text-Agrees :
      (s text : String) (chars : ℕ) (b : Bool)
      → (b ≡ false → s ≡ "")
      → ((t : String) (n : ℕ)
          → collect items t ≡ completed full reason
          → Agrees t n full reason (stream items n))
      → collect items (text +++ s) ≡ completed full reason
      → Agrees text chars full reason
          (stream_text (str s) b (some (count s)) chars (λ n. stream items n))
  unfolding stream_text
  text-Agrees s text chars true e next h =
      Agrees-before s text chars full reason _ (next (text +++ s) (chars + count s) h)
  text-Agrees s text chars false e next h =
      subst (λ t. Agrees t chars full reason (stream items chars))
        (ap (λ t. text +++ t) (e refl) ∙ append-nil text) (next (text +++ s) chars h)

  piece-Agrees :
      (p : Piece) (text : String) (chars : ℕ)
      → ((t : String) (n : ℕ)
          → collect items t ≡ completed full reason
          → Agrees t n full reason (stream items n))
      → collect_piece p text (λ t. collect items t) ≡ completed full reason
      → Agrees text chars full reason (stream_piece p chars (λ n. stream items n))
  unfolding collect_piece stream_piece
  piece-Agrees silent text chars next h = next text chars h
  piece-Agrees malformed text chars next h = cc
  piece-Agrees (says null) text chars next h = cc
  piece-Agrees (says (bool b)) text chars next h = cc
  piece-Agrees (says (int n)) text chars next h = cc
  piece-Agrees (says (literal n)) text chars next h = cc
  piece-Agrees (says (arr l)) text chars next h = cc
  piece-Agrees (says (obj d)) text chars next h = cc
  piece-Agrees (says (str s)) text chars next h =
      text-Agrees s text chars (not (s is "")) (empty s) (λ t n e. next t n e) h

-- Where the collected response is complete, the stream has the same text in its events, the same finish reason
-- and the same count of characters.
pub collect-stream :
    (items : List Item) (text : String) (chars : ℕ) (full reason : String)
    → collect items text ≡ completed full reason
    → Agrees text chars full reason (stream items chars)
unfolding collect stream
collect-stream [] text chars full reason h = cc
collect-stream (times_out ∷ items) text chars full reason h = cc
collect-stream (raises ∷ items) text chars full reason h = cc
collect-stream (yields u ∷ items) text chars full reason h =
    elim (Bool-cases (is_truthy (get_or_null "done" u))) [
      | inl e ↦
          subst (Agrees text chars full reason) (sym (if_true _ _ _ e))
            (ended text chars (finish_reason u) full reason (sym (if_true _ _ _ e) ∙ h))
      | inr e ↦ subst (Agrees text chars full reason) (sym (if_false _ _ _ e)) (
          piece-Agrees items full reason (piece_of u) text chars
            (λ t n. collect-stream items t n full reason) (sym (if_false _ _ _ e) ∙ h))
    ]
