-- ===== src/Discovery/Probe/RoundTrip.antt =====
-- src/acp_proxy/discovery.py: a version that is printed is read back.
use acp_test.Base.{
  ℕ, suc, ◌≡◌, refl, ◌∙◌, ap, Bool, true, not, ◌&&◌, some, List, [], ◌∷◌, ◌++◌, arith, ◌==◌,
}
use acp_test.Discovery.{Version}
use acp_test.Discovery.Probe.{
  split, is_digit, all_digits, is_canonical, digits, decimal, version_of, parse_version,
  format_version,
}
use acp_test.Discovery.Probe.Digits.{digits-is_canonical, decimal-digits}

is_canonical-all_digits : (l : List ℕ) → is_canonical l ≡ true → all_digits l ≡ true
is_canonical-all_digits [] h = refl
is_canonical-all_digits (c ∷ []) h = ground arith
is_canonical-all_digits (c ∷ d ∷ l) h = first (is_digit c) (not (c == 48)) (all_digits (d ∷ l)) h
  where
    first : (a b k : Bool) → (a && b && k) ≡ true → (a && k) ≡ true
    first a b k h = ground arith

split-append : (l m : List ℕ) → all_digits l ≡ true → split (l ++ 46 ∷ m) ≡ l ∷ split m
unfolding split
split-append [] m h = refl
split-append (c ∷ l) m h = ground (arith, split-append l m)

split_digits : (l : List ℕ) → all_digits l ≡ true → split l ≡ l ∷ []
unfolding split
split_digits [] h = refl
split_digits (c ∷ l) h = ground (arith, split_digits l)

version_of_three :
    (a b c : List ℕ)
    → is_canonical a ≡ true
    → is_canonical b ≡ true
    → is_canonical c ≡ true
    → version_of (a ∷ b ∷ c ∷ [])
      ≡ some (record { major = decimal 0 a; minor = decimal 0 b; patch = decimal 0 c })
unfolding version_of
version_of_three a b c e f g = rw (e, f, g) refl

split_version :
    (a b c : List ℕ)
    → all_digits a ≡ true
    → all_digits b ≡ true
    → all_digits c ≡ true
    → split (a ++ 46 ∷ (b ++ 46 ∷ c)) ≡ a ∷ b ∷ c ∷ []
split_version a b c e f g =
    split-append a (b ++ 46 ∷ c) e
    ∙ ap (λ r. a ∷ r) (split-append b c f ∙ ap (λ r. b ∷ r) (split_digits c g))

same :
    (v : Version)
    → some (record {
      major = decimal 0 (digits (suc v.major) v.major);
      minor = decimal 0 (digits (suc v.minor) v.minor);
      patch = decimal 0 (digits (suc v.patch) v.patch);
    })
      ≡ some v
same v = rw (decimal-digits v.major, decimal-digits v.minor, decimal-digits v.patch) refl

-- Every version that is formatted is parsed to itself.
pub parse_version-format_version : (v : Version) → parse_version (format_version v) ≡ some v
unfolding parse_version format_version
parse_version-format_version v =
    let a = digits (suc v.major) v.major in
    let b = digits (suc v.minor) v.minor in
    let c = digits (suc v.patch) v.patch in
    ap version_of (split_version a b c (plain v.major) (plain v.minor) (plain v.patch))
    ∙ version_of_three a b c (digits-is_canonical v.major) (digits-is_canonical v.minor)
        (digits-is_canonical v.patch)
    ∙ same v
  where
    plain : (n : ℕ) → all_digits (digits (suc n) n) ≡ true
    plain n = is_canonical-all_digits (digits (suc n) n) (digits-is_canonical n)
