-- ===== src/Evidence/Order.antt =====
-- src/acp_proxy/direct_service.py, _normalize_result: the order of the events, and the tool call IDs.
use acp_test.Base.{
  ℕ, suc, String, ◌≡◌, refl, ap, List, [], ◌∷◌, ◌++◌, map, length, arith, Bool, true, false, any,
  ◌is◌, eq_iff, ◌&&◌, not, zero, ◌||◌,
}
use acp_test.Json.{Value, Fields, str_of}
use acp_test.State.{ok, OperationRecord, DirectSession}
use acp_test.Protocol.{PromptRequest}
use acp_test.Evidence.Result.{
  OrderedEvent, ordered, PromptResult, normalize_result, tool_ids, tool_ids_from, add_tool_id,
  select, candidate_id, has_type, tool_types,
}

-- n, n + 1, …: so many numbers.
unfoldable pub count_from : ℕ → ℕ → List ℕ
count_from n zero = []
count_from n (suc m) = n ∷ count_from (suc n) m

ordered_raw :
    (show : Value → String) (n : ℕ) (us : List Fields) → map (λ e. e.raw) (ordered show n us) ≡ us
unfolding ordered
ordered_raw show n [] = refl
ordered_raw show n (u ∷ us) = ap (◌∷◌ u) (ordered_raw show (suc n) us)

ordered_sequence :
    (show : Value → String) (n : ℕ) (us : List Fields)
    → map (λ e. e.sequence) (ordered show n us) ≡ count_from n (length us)
unfolding ordered count_from
ordered_sequence show n [] = refl
ordered_sequence show n (u ∷ us) = ap (◌∷◌ n) (ordered_sequence show (suc n) us)

-- No text of a list is there twice.
unfoldable pub is_unique : List String → Bool
is_unique [] = true
is_unique (s ∷ l) = not (any (λ i. i is s) l) && is_unique l

-- A result that is built holds every update, unchanged and in the order of arrival, and numbers its
-- events from 0 without a gap.
pub normalize_result-ordered :
    (show : Value → String) (generation : String) (rec : OperationRecord) (x : DirectSession)
    (r : PromptRequest) (updates : List Fields) (reason : String) {res : PromptResult}
    → normalize_result show generation rec x r updates reason ≡ ok res
    → (map (λ e. e.raw) res.events ≡ updates)
      × (map (λ e. e.sequence) res.events ≡ count_from 0 (length updates))
unfolding normalize_result
normalize_result-ordered show generation rec x r updates reason {res} e =
    let same : res.events ≡ ordered show 0 updates = ground arith in
    rw same (ordered_raw show 0 updates, ordered_sequence show 0 updates)

any_append :
    (t s : String) (l : List String)
    → any (λ i. i is t) (l ++ s ∷ []) ≡ (any (λ i. i is t) l || (s is t))
any_append t s [] = ground arith
any_append t s (i ∷ l) = ground (arith, any_append t s l)

-- A text that a list does not hold may be added at its end.
is_unique-append :
    (s : String) (l : List String)
    → is_unique l ≡ true
    → any (λ i. i is s) l ≡ false
    → is_unique (l ++ s ∷ []) ≡ true
unfolding is_unique
is_unique-append s [] u n = refl
is_unique-append s (i ∷ l) u n =
    ground (arith, any_append i s l, is_unique-append s l, eq_iff s i, eq_iff i s)

add_tool_id-is_unique :
    (show : Value → String) (ids : List String) (raw : Fields)
    → is_unique ids ≡ true
    → is_unique (add_tool_id show ids raw) ≡ true
unfolding add_tool_id
add_tool_id-is_unique show ids raw u =
    ground (arith, is_unique-append (str_of show (candidate_id raw)) ids)

tool_ids_from-is_unique :
    (show : Value → String) (ids : List String) (es : List OrderedEvent)
    → is_unique ids ≡ true
    → is_unique (tool_ids_from show ids es) ≡ true
unfolding tool_ids_from
tool_ids_from-is_unique show ids [] u = u
tool_ids_from-is_unique show ids (e ∷ es) u =
    tool_ids_from-is_unique show (add_tool_id show ids e.raw) es
      (add_tool_id-is_unique show ids e.raw u)

-- In every result that is built, no tool call ID is listed twice.
pub normalize_result-is_unique :
    (show : Value → String) (generation : String) (rec : OperationRecord) (x : DirectSession)
    (r : PromptRequest) (updates : List Fields) (reason : String) {res : PromptResult}
    → normalize_result show generation rec x r updates reason ≡ ok res
    → is_unique res.tool_call_ids ≡ true
unfolding normalize_result tool_ids
normalize_result-is_unique show generation rec x r updates reason {res} e =
    let same : res.tool_call_ids
        ≡ tool_ids_from show [] (select (has_type tool_types) (ordered show 0 updates)) =
      ground arith in
    rw same (
      tool_ids_from-is_unique show [] (select (has_type tool_types) (ordered show 0 updates))
        (unfold is_unique in refl))
