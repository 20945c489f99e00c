-- ===== src/Service/Retired.antt =====
-- src/acp_proxy/direct_service.py: the retirement of a session, and the end of its creation.
use acp_test.Base.{String, ◌≡◌, refl, ap, ◌∙◌, true, some, arith, is_refl, Option-cases, inl, inr}
use mathlib.Core.Option
use acp_test.Dict
use acp_test.Dict.{Dict, get-modify-some}
use acp_test.State.{ok, conflict, err, retired, ready, DirectSession, OperationRecord}
use acp_test.Ledger
use acp_test.Service.{Generation, on_session, settle_record}
use acp_test.Protocol.{RetireSessionRequest}
use acp_test.Service.Prompt.{session_for_new_work}
use acp_test.Service.Retire.{retire_in, retire_new, retire_replay, retired_in}
use acp_test.Service.Creation.{complete_create}
use acp_test.Service.Cancelled.{state_of}

-- What a new retirement writes to the sessions.
retire_in_sessions :
    (g : Generation) (digest : String) (r : RetireSessionRequest) {rec : OperationRecord}
    {h : Generation}
    → retire_in g digest r ≡ ok (rec, true, h)
    → (y : DirectSession) × (Dict.get g.sessions r.logical_session_id ≡ some y)
      × (h.sessions
          ≡ Dict.modify g.sessions r.logical_session_id (λ x. record x { state = retired }))
unfolding retire_in retire_new retire_replay retired_in on_session settle_record Ledger.admit
retire_in_sessions g digest r e = elim (Option-cases (Dict.get g.sessions r.logical_session_id)) [
  | inl n ↦ ground arith
  | inr (y, hy) ↦ (y, hy, ground arith)
]

-- The retired session.
retire_in_session :
    (g : Generation) (digest : String) (r : RetireSessionRequest) {rec : OperationRecord}
    {h : Generation}
    → retire_in g digest r ≡ ok (rec, true, h)
    → (y : DirectSession) × (Dict.get h.sessions r.logical_session_id
        ≡ some (record y { state = retired }))
retire_in_session g digest r e =
    let (y, hy, same) = retire_in_sessions g digest r e in
    (
      y,
      ap (λ (d : Dict DirectSession). Dict.get d r.logical_session_id) same
          ∙ get-modify-some g.sessions _ _ _ y hy
          ∙ (ground (arith, is_refl r.logical_session_id)),
    )

-- A retirement that is newly admitted finds a session that is idle and not retired, and leaves it
-- retired: new work on that session is then a conflict.
pub retire_in-session_for_new_work :
    (g : Generation) (digest : String) (r : RetireSessionRequest) {rec : OperationRecord}
    {h : Generation}
    → retire_in g digest r ≡ ok (rec, true, h)
    → (state_of h r.logical_session_id ≡ some retired)
      × (session_for_new_work h r.logical_session_id ≡ err conflict)
unfolding session_for_new_work
retire_in-session_for_new_work g digest r e =
    let (y, h) = retire_in_session g digest r e in
    (ap (Option.map (λ (x : DirectSession). x.state)) h, ground arith)

-- A session that was retired while its creation was under way is ready for new work once the backend
-- has answered: the end of the creation does not keep the retirement.
pub complete_create-retire_in :
    (g : Generation) (digest op backend model : String) (r : RetireSessionRequest)
    (x : DirectSession) {rec : OperationRecord} {h : Generation}
    → retire_in g digest r ≡ ok (rec, true, h)
    → state_of (complete_create x op r.logical_session_id backend model h) r.logical_session_id
      ≡ some ready
unfolding complete_create on_session settle_record
complete_create-retire_in g digest op backend model r x {h = h} e =
    let (y, found) = retire_in_session g digest r e in
    ap (Option.map (λ (z : DirectSession). z.state)) (get-modify-some h.sessions _ _ _ _ found)
    ∙ (rw (is_refl r.logical_session_id) refl)
