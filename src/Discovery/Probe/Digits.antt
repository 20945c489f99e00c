-- ===== src/Discovery/Probe/Digits.antt =====
-- src/acp_proxy/discovery.py: the decimal digits of a number, printed and read.
use acp_test.Base.{
  ℕ, zero, suc, ◌+◌, ◌-◌, ◌*◌, ◌/◌, ◌%◌, ◌<◌, ◌≡◌, refl, Bool, true, false, not, ◌&&◌, List, [],
  ◌∷◌, ◌++◌, ltb, ◌==◌, arith, Bool-cases, if_true, if_false, inl, inr, ◌∙◌, ap,
}
use acp_test.Discovery.Probe.{digits, decimal, is_digit, all_digits, is_canonical}

decimal-append : (n c : ℕ) (l : List ℕ) → decimal n (l ++ c ∷ []) ≡ decimal n l * 10 + (c - 48)
unfolding decimal
decimal-append n c [] = refl
decimal-append n c (d ∷ l) = decimal-append (n * 10 + (d - 48)) c l

all_digits-append :
    (l : List ℕ) (c : ℕ) → all_digits l ≡ true → is_digit c ≡ true → all_digits (l ++ c ∷ []) ≡ true
all_digits-append [] c h j = ground arith
all_digits-append (d ∷ l) c h j = ground (arith, all_digits-append l c)

-- A text of digits with a first one other than 0.
pub leads : List ℕ → Bool
leads [] = false
leads (c ∷ l) = is_digit c && not (c == 48) && all_digits l

leads-append :
    (l : List ℕ) (c : ℕ) → leads l ≡ true → is_digit c ≡ true → leads (l ++ c ∷ []) ≡ true
unfolding leads
leads-append [] c h j = cc
leads-append (d ∷ l) c h j = ground (arith, all_digits-append l c)

leads-is_canonical : (l : List ℕ) → leads l ≡ true → is_canonical l ≡ true
unfolding leads
leads-is_canonical [] h = cc
leads-is_canonical (c ∷ []) h = ground arith
leads-is_canonical (c ∷ d ∷ l) h = h

digits_small : (fuel n : ℕ) → ltb n 10 ≡ true → digits (suc fuel) n ≡ (n + 48) ∷ []
unfolding digits
digits_small fuel n e = if_true _ _ _ e

digits_large :
    (fuel n : ℕ)
    → ltb n 10 ≡ false
    → digits (suc fuel) n ≡ digits fuel (n / 10) ++ (n % 10 + 48) ∷ []
unfolding digits
digits_large fuel n e = if_false _ _ _ e

leads_digit : (n : ℕ) → ltb n 10 ≡ true → 0 < n → leads ((n + 48) ∷ []) ≡ true
unfolding leads
leads_digit n e j = ground arith

last_digit : (n : ℕ) → is_digit (n % 10 + 48) ≡ true
last_digit n = ground arith

quotient : (fuel n : ℕ) → ltb n 10 ≡ false → n < suc fuel → ((n / 10) < fuel) × (0 < (n / 10))
quotient fuel n e h = (ground arith, ground arith)

-- The digits of a positive number.
digits-leads : (fuel n : ℕ) → n < fuel → 0 < n → leads (digits fuel n) ≡ true
digits-leads zero n h j = absurd (omega (arith, h))
digits-leads (suc fuel) n h j = elim (Bool-cases (ltb n 10)) [
  | inl e ↦ ap leads (digits_small fuel n e) ∙ leads_digit n e j
  | inr e ↦
      let (less, more) = quotient fuel n e h in
      ap leads (digits_large fuel n e)
      ∙ leads-append (digits fuel (n / 10)) (n % 10 + 48) (digits-leads fuel (n / 10) less more)
          (last_digit n)
]

pub digits-is_canonical : (n : ℕ) → is_canonical (digits (suc n) n) ≡ true
digits-is_canonical n = elim (Bool-cases (ltb 0 n)) [
  | inl e ↦ leads-is_canonical _ (digits-leads (suc n) n (omega arith) (ground arith))
  | inr e ↦ ap is_canonical (digits_small n n (ground arith)) ∙ ground arith
]

digits-decimal : (fuel n : ℕ) → n < fuel → decimal 0 (digits fuel n) ≡ n
unfolding decimal
digits-decimal zero n h = absurd (omega (arith, h))
digits-decimal (suc fuel) n h = elim (Bool-cases (ltb n 10)) [
  | inl e ↦ ap (decimal 0) (digits_small fuel n e) ∙ read_digit n
  | inr e ↦
      let (less, more) = quotient fuel n e h in
      ap (decimal 0) (digits_large fuel n e)
      ∙ decimal-append 0 (n % 10 + 48) (digits fuel (n / 10))
      ∙ ap (λ q. q * 10 + (n % 10 + 48 - 48)) (digits-decimal fuel (n / 10) less)
      ∙ omega arith
]
  where
    read_digit : (n : ℕ) → decimal 0 ((n + 48) ∷ []) ≡ n
    read_digit n = omega arith

pub decimal-digits : (n : ℕ) → decimal 0 (digits (suc n) n) ≡ n
decimal-digits n = digits-decimal (suc n) n (omega arith)
