-- ===== src/Discovery/Probe/Loop.antt =====
-- src/acp_proxy/discovery.py, _read_stdout: the loop ends, and it keeps one byte more than the limit at most.
use acp_test.Base.{
  ℕ, zero, suc, ◌+◌, ◌-◌, ◌≤◌, ◌<◌, ◌≡◌, refl, true, false, Option, some, List, [], ◌∷◌, ◌++◌,
  length, length-append, leb, arith, Bool-cases, if_true, if_false, subst, inl, inr, ◌⊎◌, ◌∙◌, sym,
  ap,
}
use mathlib.Core.List.{append-nil, append_assoc}
use acp_test.Discovery.Probe.{
  Read, chunk, fails, Output, output_limit, read_stdout, take, drop, left,
}

length-take : (n : ℕ) (l : List ℕ) → length (take n l) ≤ n
length-take zero l = omega arith
length-take (suc n) [] = omega arith
length-take (suc n) (x ∷ l) = omega (arith, length-take n l)

-- Every round adds a byte, so that the rounds left are more than the bytes that may still be kept.
leb_lt : (n : ℕ) → leb n output_limit ≡ true → 0 < output_limit + 1 - n
leb_lt n e = ground arith

beyond : (n : ℕ) → leb n output_limit ≡ false → 256 < n
beyond n e = ground arith

length-take_more : (n b : ℕ) (l : List ℕ) → 0 < n → 1 ≤ length (take n (b ∷ l))
length-take_more zero b l h = absurd (omega (arith, h))
length-take_more (suc n) b l h = omega arith

-- What the pipe holds up to its end or a failure.
unfoldable pub content : List Read → List ℕ
content [] = []
content (fails ∷ reads) = []
content (chunk [] ∷ reads) = []
content (chunk (b ∷ l) ∷ reads) = (b ∷ l) ++ content reads

content-left : (l : List ℕ) (reads : List Read) → content (left l reads) ≡ l ++ content reads
unfolding content
content-left [] reads = refl
content-left (b ∷ l) reads = refl

take-drop : (n : ℕ) (l : List ℕ) → take n l ++ drop n l ≡ l
take-drop zero l = refl
take-drop (suc n) [] = refl
take-drop (suc n) (x ∷ l) = ap (λ r. x ∷ r) (take-drop n l)

read_on :
    (n b : ℕ) (bytes l : List ℕ) (reads : List Read)
    → (bytes ++ take n (b ∷ l)) ++ content (left (drop n (b ∷ l)) reads)
      ≡ bytes ++ content (chunk (b ∷ l) ∷ reads)
unfolding content
read_on n b bytes l reads =
    append_assoc bytes (take n (b ∷ l)) (content (left (drop n (b ∷ l)) reads))
    ∙ ap (λ r. bytes ++ r)
        (ap (λ r. take n (b ∷ l) ++ r) (content-left (drop n (b ∷ l)) reads)
          ∙ sym (append_assoc (take n (b ∷ l)) (drop n (b ∷ l)) (content reads))
          ∙ ap (λ r. r ++ content reads) (take-drop n (b ∷ l)))

-- The loop ends within the limit and one byte, and within the limit its output is all that the pipe holds.
unfoldable pub Kept : List ℕ → Option Output → Type 0
Kept all r =
    (o : Output) × (r ≡ some o)
    × (length o.bytes ≤ 257)
    × ((o.bytes ≡ all) ⊎ (256 < length o.bytes))

read_stdout-Kept :
    (fuel : ℕ) (reads : List Read) (bytes : List ℕ)
    → length bytes ≤ 257
    → 257 < fuel + length bytes
    → Kept (bytes ++ content reads) (read_stdout fuel reads bytes)
unfolding read_stdout Kept content
read_stdout-Kept zero reads bytes h j = absurd (omega (arith, h, j))
read_stdout-Kept (suc fuel) [] bytes h j = (_, refl, h, inl (sym (append-nil bytes)))
read_stdout-Kept (suc fuel) (fails ∷ reads) bytes h j = (_, refl, h, inl (sym (append-nil bytes)))
read_stdout-Kept (suc fuel) (chunk [] ∷ reads) bytes h j =
    (_, refl, h, inl (sym (append-nil bytes)))
read_stdout-Kept (suc fuel) (chunk (b ∷ l) ∷ reads) bytes h j =
    elim (Bool-cases (leb (length bytes) output_limit)) [
      | inr e ↦ subst (Kept _) (sym (if_false _ _ _ e)) (_, refl, h, inr (beyond (length bytes) e))
      | inl e ↦
          let more = output_limit + 1 - length bytes in
          let grown = length-append bytes (take more (b ∷ l)) in
          let least = length-take_more more b l (leb_lt (length bytes) e) in
          let most = length-take more (b ∷ l) in
          let again =
            read_stdout fuel (left (drop more (b ∷ l)) reads) (bytes ++ take more (b ∷ l)) in
          subst (Kept _) (sym (if_true _ again (some (record { bytes = bytes; failed = false })) e))
            (subst (λ all. Kept all again) (read_on more b bytes l reads)
              (read_stdout-Kept fuel (left (drop more (b ∷ l)) reads) (bytes ++ take more (b ∷ l))
                (omega (arith, grown, most, h)) (omega (arith, grown, least, j))))
    ]

-- On 258 rounds the loop ends for every pipe, its output is within 257 bytes, and within 256 bytes it is all
-- that the pipe holds up to its end or a failure.
pub read_stdout-ends : (reads : List Read) → Kept (content reads) (read_stdout 258 reads [])
read_stdout-ends reads = read_stdout-Kept 258 reads [] (omega arith) (omega arith)
