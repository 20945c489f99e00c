-- ===== src/Launch/Environment.antt =====
-- src/acp_proxy/config.py, build_subprocess_env: what the configuration may change of the environment.
use acp_test.Base.{
  String, ◌≡◌, refl, sym, ap, ◌∙◌, Bool, true, false, ◌||◌, Option, none, some, List, [], ◌∷◌,
  arith, ◌is◌, ◌⊎◌, inl, inr, Bool-cases, if_true, if_false, eq_iff, Option-cases, is_cases, subst,
}
use acp_test.Dict
use acp_test.Dict.{Dict, is_some, get-put, get-put_own, get-put_other}
use acp_test.Json.{Fields}
use acp_test.Launch.{build_subprocess_env, set_proxies, set_missing, chosen, proxy_vars, one_of}

-- A missing variable is set, and no other one changes.
set_missing-get :
    (k j : String) (o : Option String) (env : Dict String)
    → (Dict.get (set_missing k o env) j ≡ Dict.get env j) ⊎ ((k ≡ j) × (Dict.get env j ≡ none))
unfolding set_missing
set_missing-get k j none env = inl refl
set_missing-get k j (some w) env = elim (Option-cases (Dict.get env k)) [
  | inr (v, there) ↦
      inl (ap (λ e. Dict.get e j) (if_true (is_some (Dict.get env k)) env _ (ap is_some there)))
  | inl missing ↦ elim (is_cases k j) [
    | inl same ↦ inr (same, subst (λ z. Dict.get env z ≡ none) same missing)
    | inr other ↦ inl (
        ap (λ e. Dict.get e j) (if_false (is_some (Dict.get env k)) env _ (ap is_some missing))
        ∙ get-put_other env k j w other)
  ]
]

set_missing-kept :
    (k j : String) (o : Option String) (env : Dict String) {v : String}
    → Dict.get env j ≡ some v
    → Dict.get (set_missing k o env) j ≡ some v
set_missing-kept k j o env h = elim (set_missing-get k j o env) [
  | inl same ↦ same ∙ h
  | inr (e, missing) ↦ cc
]

set_proxies-kept :
    (lower : String → String) (config : Dict String) (ks : List String) (j : String)
    (env : Dict String) {v : String}
    → Dict.get env j ≡ some v
    → Dict.get (set_proxies lower config ks env) j ≡ some v
unfolding set_proxies
set_proxies-kept lower config [] j env h = h
set_proxies-kept lower config (k ∷ ks) j env h =
    set_proxies-kept lower config ks j (set_missing k _ env) (set_missing-kept k j _ env h)

set_proxies-other :
    (lower : String → String) (config : Dict String) (ks : List String) (j : String)
    (env : Dict String)
    → one_of ks j ≡ false
    → Dict.get (set_proxies lower config ks env) j ≡ Dict.get env j
unfolding set_proxies
set_proxies-other lower config [] j env h = refl
set_proxies-other lower config (k ∷ ks) j env h =
    let (other, rest) = both_false (k is j) (one_of ks j) h in
    set_proxies-other lower config ks j (set_missing k _ env) rest
    ∙ elim (set_missing-get k j (chosen (Dict.get config (lower k))) env) [
      | inl same ↦ same
      | inr (e, missing) ↦ absurd (ground (arith, eq_iff k j))
    ]
  where
    both_false : (a b : Bool) → (a || b) ≡ false → (a ≡ false) × (b ≡ false)
    both_false a b h = (ground arith, ground arith)

-- A variable of the agent's environment is what it was, unless it was missing and is one of the six of a proxy.
pub build_subprocess_env-get :
    (lower : String → String) (cfg : Fields) (env : Dict String) (j : String)
    → (Dict.get (build_subprocess_env lower cfg env) j ≡ Dict.get env j)
      ⊎ ((Dict.get env j ≡ none) × (one_of proxy_vars j ≡ true))
unfolding build_subprocess_env
build_subprocess_env-get lower cfg env j = elim (Option-cases (Dict.get env j)) [
  | inr (v, there) ↦ inl (set_proxies-kept lower _ proxy_vars j env there ∙ sym there)
  | inl missing ↦ elim (Bool-cases (one_of proxy_vars j)) [
    | inl known ↦ inr (missing, known)
    | inr other ↦ inl (set_proxies-other lower _ proxy_vars j env other)
  ]
]
