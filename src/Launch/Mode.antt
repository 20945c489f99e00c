-- ===== src/Launch/Mode.antt =====
-- src/acp_proxy/__main__.py: when the direct mode is admitted.
use acp_test.Base.{
  String, ◌≡◌, Bool, true, false, not, ◌||◌, arith, eq_iff, ◌is◌, ◌⊎◌, inl, inr, if◌then◌else◌,
  Bool-cases,
}
use acp_test.Dict.{is_some}
use acp_test.State.{Result, ok, err, fault}
use acp_test.Launch.{
  RunMode, Boundary, CallbackPolicy, direct_deny, legacy_permissive, validate_run_mode,
  check_direct, check_authority, check_container, one_of, loopback_hosts, is_long, is_authority,
}

-- What the direct mode has been admitted with.
unfoldable pub Confined : RunMode → Boundary → Type 0
Confined m b =
    ((is_authority m.execution_authority "trusted-host" ≡ true)
      × (one_of loopback_hosts m.host ≡ true))
    ⊎ ((is_authority m.execution_authority "confined-container" ≡ true)
        × (b.declared ≡ true)
        × (b.observed ≡ true))

check_container-observed :
    (b : Boundary) (host : String)
    → check_container b host ≡ ok direct_deny
    → (b.declared ≡ true) × (b.observed ≡ true)
unfolding check_container
check_container-observed b host e = (ground arith, ground arith)

check_authority-Confined :
    (m : RunMode) (b : Boundary) → check_authority m b ≡ ok direct_deny → Confined m b
unfolding check_authority Confined
check_authority-Confined m b e =
    elim (Bool-cases (is_authority m.execution_authority "trusted-host")) [
      | inl trusted ↦ inl (trusted, ground arith)
      | inr other ↦ elim (Bool-cases (is_authority m.execution_authority "confined-container")) [
        | inl confined ↦
            let (declared, observed) = check_container-observed b m.host (ground arith) in
            inr (confined, declared, observed)
        | inr neither ↦ absurd (ground arith)
      ]
    ]

tested :
    (a o b c d : Bool) (r : Result CallbackPolicy)
    → (if a
        then (if o then err fault else ok legacy_permissive)
        else if b
        then (if c then err fault else if not d then err fault else r)
        else err fault)
      ≡ ok direct_deny
    → (b ≡ true) × (c ≡ false) × (d ≡ true) × (r ≡ ok direct_deny)
tested a o b c d r e = (ground arith, ground arith, ground arith, ground arith)

-- The direct mode is admitted only without a system prompt of the proxy, with a secret of 32 bytes or more,
-- and on a loopback host, or in a container that is both declared and observed.
pub validate_run_mode-Confined :
    (m : RunMode) (b : Boundary)
    → validate_run_mode m b ≡ ok direct_deny
    → (m.consumer_mode ≡ "meadow-direct")
      × (m.has_system_prompt ≡ false)
      × (is_long m.launch_secret ≡ true)
      × Confined m b
unfolding validate_run_mode check_direct
validate_run_mode-Confined m b e =
    let (direct, plain, long, admitted) =
      tested (m.consumer_mode is "opencode-legacy") (is_some m.execution_authority || m.has_limits)
        (m.consumer_mode is "meadow-direct") m.has_system_prompt (is_long m.launch_secret)
        (check_authority m b) e in
    (
      (eq_iff m.consumer_mode "meadow-direct").0 direct,
      plain,
      long,
      check_authority-Confined m b admitted,
    )
