-- ===== src/Server/Routes.antt =====
-- src/acp_proxy/direct_server.py: who may call, and what a client learns of an operation.
use Prim.Native.String.{◌++◌ as ◌+++◌, slice}
use text.Mathlib.Text.{starts_with}
use text.Mathlib.TextPositions.{starts_with-append, len-append, slice-append_right}
use text.Mathlib.TextEquality.{starts_with_iff}
use acp_test.Base.{
  ◌↔◌, sym, ap, ◌∙◌, if_true, if_false, is_cases, is_refl, ℕ, String, ◌≡◌, refl, Bool, true, false,
  not, Option, none, some, arith, ◌is◌, ◌&&◌, if◌then◌else◌, eq_iff, Bool-cases, inl, inr,
}
use acp_test.Dict
use acp_test.State.{
  OperationState, accepted, queued, running, cancelling, completed, failed, cancelled, timed_out,
  in_doubt, terminal, OperationRecord,
}
use acp_test.Protocol.{Wire, DirectLimits}
use acp_test.Service.{Service, Host}
use acp_test.Service.Cancel.{state_value}
use acp_test.Service.Settlement.{Dump}
use acp_test.Service.Step.{Reach, init}
use acp_test.Service.Bounds.{reachable_signals}
use acp_test.Server.{authenticate, supplied, waited, operation_view}

-- The states in which an operation is over, by their values.
abbrev pub is_final : String → Bool
is_final v =
    not (v is "accepted") && not (v is "queued") && not (v is "running") && not (v is "cancelling")

final_value : (s : OperationState) → is_final (state_value s) ≡ terminal s
final_value accepted = refl
final_value queued = refl
final_value running = refl
final_value cancelling = refl
final_value completed = refl
final_value failed = refl
final_value cancelled = refl
final_value timed_out = refl
final_value in_doubt = refl

-- In every reachable state, a handler that waits for an operation answers exactly when the operation's
-- state is terminal, and the answer is the view of the record at that time, under its own ID.
pub waited-terminal :
    (host : Host) (w : Wire) (d : Dump) (workspace : String) (limits : DirectLimits) (id : String)
    (g : ℕ) (op : String) (r : OperationRecord) {t : Service}
    → Reach host w d (init host workspace limits id) t
    → Dict.get (t.store g).ledger.records op ≡ some r
    → (waited r ≡ (if terminal r.state then some (operation_view r) else none))
      × ((operation_view r).operation_id ≡ op)
      × (is_final (operation_view r).state ≡ terminal r.state)
unfolding waited operation_view
waited-terminal host w d workspace limits id g op r run h =
    let (signal, name) = reachable_signals host w d workspace limits id g op r run h in
    (ground arith, name, final_value r.state)

-- What a header with the scheme offers is the rest of it.
supplied_after : (t : String) → supplied (some ("Bearer " +++ t)) ≡ t
supplied_after t =
    if_true _ _ "" (starts_with-append "Bearer " t)
    ∙ ap (slice ("Bearer " +++ t) 7) (len-append "Bearer " t)
    ∙ slice-append_right "Bearer " t

-- A header that offers a text which is not empty is the scheme and that text.
supplied_inv :
    (header t : String) → supplied (some header) ≡ t → (t is "") ≡ false → header ≡ "Bearer " +++ t
supplied_inv header t e n = elim (Bool-cases (starts_with header "Bearer ")) [
  | inl b ↦
      let (rest, same) = (starts_with_iff header "Bearer ").0 b in
      sym same
      ∙ ap (λ u. "Bearer " +++ u) (sym (supplied_after rest) ∙ ap (λ h. supplied (some h)) same ∙ e)
  | inr b ↦ absurd (clash (if_false _ _ "" b))
]
  where
    clash : supplied (some header) ≡ "" → ⊥
    clash f = ground (arith, eq_iff t "")

-- Where `compare_digest` compares two ASCII texts as they are and raises for any other pair: a call without a
-- header is refused, and a call with a header is let through exactly when the header is the scheme, one space
-- and the secret, and the secret is an ASCII text that is not empty.
pub authenticate_secret :
    (compare_digest : String → String → Option Bool) (is_ascii : String → Bool)
    (secret header : String)
    → ((a b : String)
        → compare_digest a b ≡ (if is_ascii a && is_ascii b then some (a is b) else none))
    → (authenticate compare_digest secret none ≡ some false)
      × ((authenticate compare_digest secret (some header) ≡ some true)
          ↔ ((header ≡ "Bearer " +++ secret) × ((secret is "") ≡ false) × (is_ascii secret ≡ true)))
unfolding authenticate
authenticate_secret compare_digest is_ascii secret header same = (refl, (forth, back))
  where
    let_through :
        (t : String)
        → (if t is "" then some false else compare_digest t secret) ≡ some true
        → (t ≡ secret) × ((secret is "") ≡ false) × (is_ascii secret ≡ true)
    let_through t e = elim (is_cases t secret) [
      | inl s ↦ ground (arith, same t secret, s)
      | inr n ↦ ground (arith, same t secret)
    ]

    lets_through :
        (secret is "") ≡ false
        → is_ascii secret ≡ true
        → (if secret is "" then some false else compare_digest secret secret) ≡ some true
    lets_through n a = ground (arith, same secret secret, is_refl secret)

    forth :
        authenticate compare_digest secret (some header) ≡ some true
        → (header ≡ "Bearer " +++ secret) × ((secret is "") ≡ false) × (is_ascii secret ≡ true)
    forth e =
        let (offered, n, a) = let_through (supplied (some header)) e in
        (supplied_inv header secret offered n, n, a)

    back :
        (header ≡ "Bearer " +++ secret) × ((secret is "") ≡ false) × (is_ascii secret ≡ true)
        → authenticate compare_digest secret (some header) ≡ some true
    back (e, n, a) =
        ap (λ t. if t is "" then some false else compare_digest t secret)
          (ap (λ h. supplied (some h)) e ∙ supplied_after secret)
        ∙ lets_through n a
