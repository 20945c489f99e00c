-- ===== src/Evidence/Bounds.antt =====
-- src/acp_proxy/direct_service.py, _collect_prompt: what a collection that ends with a result has read,
-- and how much evidence is retained.
use acp_test.Base.{
  ℕ, ◌+◌, ◌≤◌, String, ◌≡◌, refl, ap, sym, ◌∙◌, Bool, true, false, List, [], ◌∷◌, ◌++◌, map, arith,
  some, Bool-cases, Option-cases, ◌⊎◌, inl, inr,
}
use mathlib.Core.List.{append-nil, append_assoc}
use Prim.Native.String.{len}
use acp_test.Json.{Fields, get_or_null, is_true}
use acp_test.Protocol.{DirectLimits}
use acp_test.Evidence.{
  Python, Item, update, raises, collected, Progress, start, limit_exceeded, chunk, Chunk, text,
  collect_update, retain, retained, collect, collect_prompt,
}

-- The bytes of the updates, and of the text in them.
unfoldable pub event_total : Python → List Fields → ℕ
event_total py [] = 0
event_total py (u ∷ us) = len (py.dumps_update u) + event_total py us

abbrev pub text_size : Chunk → ℕ
text_size (text content t) = len t
text_size _ = 0

unfoldable pub text_total : Python → List Fields → ℕ
unfolding chunk
text_total py [] = 0
text_total py (u ∷ us) = text_size (chunk py.show u) + text_total py us

module _ (py : Python) (limits : DirectLimits) (cancel_ok : Bool) where
  -- Once a limit is exceeded, it stays so.
  collect_update_exceeded :
      (u : Fields) (p q : Progress) {b : Bool}
      → collect_update py limits cancel_ok u p ≡ some (q, b)
      → limit_exceeded q ≡ false
      → limit_exceeded p ≡ false
  unfolding collect_update retain
  collect_update_exceeded u p q e x = ground arith

  -- What a step of a collection that ends with a result has done.
  collect_step :
      (u : Fields) (rest : List Item) (p : Progress) {us : List Fields} {reason : String}
      → collect py limits cancel_ok (update u ∷ rest) p ≡ collected us reason
      → ((is_true (get_or_null "done" u) ≡ true) × (us ≡ p.updates) × (limit_exceeded p ≡ false))
        ⊎ ((q : Progress) × (collect_update py limits cancel_ok u p ≡ some (q, true))
            × (collect py limits cancel_ok rest q ≡ collected us reason))
  unfolding collect
  collect_step u rest p e = elim (Bool-cases (is_true (get_or_null "done" u))) [
    | inl d ↦ inl (d, ground arith, ground arith)
    | inr d ↦ elim (Option-cases (collect_update py limits cancel_ok u p)) [
      | inl n ↦ absurd (ground arith)
      | inr ((q, b), s) ↦ inr (q, ground arith, ground arith)
    ]
  ]

  collect_exceeded :
      (items : List Item) (p : Progress) {us : List Fields} {reason : String}
      → collect py limits cancel_ok items p ≡ collected us reason
      → limit_exceeded p ≡ false
  unfolding collect
  collect_exceeded [] p e = cc
  collect_exceeded (raises ∷ rest) p e = cc
  collect_exceeded (update u ∷ rest) p e = elim (collect_step u rest p e) [
    | inl c ↦ c.2
    | inr (q, s, r) ↦ collect_update_exceeded u p q s (collect_exceeded rest q r)
  ]

  -- An update after which no limit is exceeded is kept as it is.
  collect_update_kept :
      (u : Fields) (p q : Progress) {b : Bool}
      → collect_update py limits cancel_ok u p ≡ some (q, b)
      → limit_exceeded q ≡ false
      → (q.updates ≡ p.updates ++ u ∷ [])
        × (q.event_bytes ≡ p.event_bytes + len (py.dumps_update u))
        × (q.response_bytes ≡ p.response_bytes + text_size (chunk py.show u))
        × (q.event_bytes ≤ limits.max_event_bytes)
        × (p.response_bytes ≤ limits.max_response_bytes
            → q.response_bytes ≤ limits.max_response_bytes)
  unfolding collect_update retain retained
  collect_update_kept u p q e x =
      (ground arith, ground arith, ground arith, ground arith, λ h. ground arith)

  -- What a collection from some progress on has read.
  abbrev pub Read : Progress → List Item → List Fields → Type 0
  Read p items us =
      (vs : List Fields) × (u : Fields) × (rest : List Item) × (items
        ≡ map update vs ++ update u ∷ rest)
      × (is_true (get_or_null "done" u) ≡ true)
      × (us ≡ p.updates ++ vs)
      × (p.event_bytes + event_total py vs ≤ limits.max_event_bytes)
      × (p.response_bytes + text_total py vs ≤ limits.max_response_bytes)

  collect-Read :
      (items : List Item) (p : Progress) {us : List Fields} {reason : String}
      → p.event_bytes ≤ limits.max_event_bytes
      → p.response_bytes ≤ limits.max_response_bytes
      → collect py limits cancel_ok items p ≡ collected us reason
      → Read p items us
  unfolding collect event_total text_total
  collect-Read [] p ev rs e = cc
  collect-Read (raises ∷ rest) p ev rs e = cc
  collect-Read (update u ∷ rest) p ev rs e = elim (collect_step u rest p e) [
    | inl (d, same, c) ↦
        ([], u, rest, refl, d, same ∙ sym (append-nil p.updates), omega arith, omega arith)
    | inr (q, s, r) ↦
        let (kept, evs, rss, ev2, rs2) = collect_update_kept u p q s (collect_exceeded rest q r) in
        let (vs, v, left, items, d, same, es, ts) = collect-Read rest q ev2 (rs2 rs) r in
        (
          u ∷ vs,
          v,
          left,
          ap (◌∷◌ (update u)) items,
          d,
          same ∙ ap (λ l. l ++ vs) kept ∙ append_assoc p.updates (u ∷ []) vs,
          omega (arith, evs, es),
          omega (arith, rss, ts),
        )
  ]

  -- A collection that ends with a result has read the stream up to the update that carries the stop
  -- reason; the result holds every update before it, unchanged, none dropped, and the bytes of the
  -- updates and of the response text are within the limits.
  pub collect_prompt-Read :
      (items : List Item) {us : List Fields} {reason : String}
      → collect_prompt py limits cancel_ok items ≡ collected us reason
      → Read start items us
  unfolding collect_prompt
  collect_prompt-Read items e = collect-Read items start (omega arith) (omega arith) e
