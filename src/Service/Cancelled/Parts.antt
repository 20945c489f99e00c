-- ===== src/Service/Cancelled/Parts.antt =====
-- src/acp_proxy/direct_service.py, admit_cancel: its checks, and its body on the current generation.
use acp_test.Base.{ℕ, String, ◌≡◌, ap, subst, ◌∙◌, Bool, arith}
use acp_test.State.{ok, ◌>>=◌, >>=-eq-ok, OperationRecord}
use acp_test.Protocol.{CancelRequest, Wire, cancels, canonical_request_digest}
use acp_test.Service.{Generation, Service, AcpClient, on_generation}
use acp_test.Service.Pin.{check_pin, ensure_available, require_current_generation}
use acp_test.Service.Cancel.{cancel_in, admit_cancel}
use acp_test.Service.Invariant.Reach.{store_answer}

check_pin-current :
    (s : Service) (client : AcpClient) (major : ℕ) (id : String) {g : ℕ}
    → check_pin s client major id ≡ ok g
    → g ≡ s.current
unfolding check_pin ensure_available
check_pin-current s client major id e = ground arith

stored_answer :
    (s : Service) (x : OperationRecord × Bool × Generation) {rec : OperationRecord} {b : Bool}
    {u : Service}
    → store_answer s s.current x ≡ ok (rec, b, u)
    → (x ≡ (rec, b, x.2)) × (u ≡ on_generation s s.current (λ _. x.2))
stored_answer s x e = ground arith

-- The service's part of a cancellation.
pub admit_cancel_parts :
    (w : Wire) (s : Service) (client : AcpClient) (r : CancelRequest) {rec : OperationRecord}
    {b : Bool} {u : Service}
    → admit_cancel w s client r ≡ ok (rec, b, u)
    → (h : Generation) × (cancel_in (s.store s.current) (canonical_request_digest w (cancels r)) r
        ≡ ok (rec, b, h))
      × (u ≡ on_generation s s.current (λ _. h))
unfolding admit_cancel
admit_cancel_parts w s client r {rec} {b} {u} e =
    let (g, pin, rest) =
      >>=-eq-ok (check_pin s client r.protocol_major r.continuity_generation_id) _ e in
    let (z, _, chain) = >>=-eq-ok (require_current_generation s g) _ rest in
    let current = check_pin-current s client r.protocol_major r.continuity_generation_id pin in
    in_current (
      subst
        (λ q.
          (cancel_in (s.store q) (canonical_request_digest w (cancels r)) r >>= store_answer s q)
          ≡ ok (rec, b, u))
        current chain)
  where
    in_current :
        (cancel_in (s.store s.current) (canonical_request_digest w (cancels r)) r
            >>= store_answer s s.current)
          ≡ ok (rec, b, u)
        → (h : Generation) × (cancel_in
              (s.store s.current)
              (canonical_request_digest w (cancels r))
              r
            ≡ ok (rec, b, h))
          × (u ≡ on_generation s s.current (λ _. h))
    in_current chain =
        let (x, ex, ey) =
          >>=-eq-ok (cancel_in (s.store s.current) _ r) (store_answer s s.current) chain in
        let (same, stored) = stored_answer s x ey in (x.2, ex ∙ ap ok same, stored)
