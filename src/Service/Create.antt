-- ===== src/Service/Create.antt =====
-- src/acp_proxy/direct_service.py: admit_create. The checks before the state lock are `prepare_create`;
-- the body under the lock, which never awaits, is `commit_create`.
use acp_test.Base.{ℕ, String, Bool, false, not, none, some, leb, any, ◌is◌, if◌then◌else◌}
use acp_test.Dict
use acp_test.Dict.{is_some}
use acp_test.State.{
  conflict, workspace_mismatch, limit_exceeded, Result, ok, raise_if, ◌>>=◌, ◌>>◌, create, creating,
  OperationRecord, DirectSession,
}
use acp_test.Ledger
use acp_test.Ledger.{Ledger, Candidate}
use acp_test.Protocol.{CreateSessionRequest, Wire, creates, canonical_request_digest}
use acp_test.Service.{execute_create, Generation, Service, AcpClient, Host, on_generation, schedule}
use acp_test.Service.Pin.{check_pin, require_current_generation}

unfoldable pub prepare_create :
    Host → Wire → Service → AcpClient → CreateSessionRequest → Result (ℕ × String)
prepare_create host w s client r = do
  g ← check_pin s client r.protocol_major r.continuity_generation_id
  raise_if (not (host.realpath r.expected_canonical_workspace is s.canonical_workspace))
      workspace_mismatch
  raise_if (not (any (λ m. m is r.model_id) client.models)) conflict
  ok (g, canonical_request_digest w (creates r))

abbrev pub new_session : CreateSessionRequest → DirectSession
new_session r = record {
  logical_session_id = r.logical_session_id;
  actor_ref = r.actor_ref;
  title = r.title;
  backend_session_id = none;
  model_id = r.model_id;
  stable_instruction_digest = r.stable_instruction_digest;
  state = creating;
  active_operation_id = none;
  stable_submitted = false;
  active_invocation_id = none;
  invocation_contract_digests = Dict.empty;
  backend_close = "unsupported";
}

abbrev pub create_candidate : String → CreateSessionRequest → Candidate
create_candidate digest r = record {
  digest = digest;
  kind = create;
  logical_session_id = some r.logical_session_id;
  invocation_id = none;
  target_operation_id = none;
}

-- The session table must have room, and no such session, unless the operation is already known.
check_new_session : Generation → ℕ → Bool → String → Result (Unit {0})
check_new_session g max_sessions known k = if known then ok tt else do
  raise_if (is_some (Dict.get g.sessions k)) conflict
  raise_if (leb max_sessions (Dict.size g.sessions)) limit_exceeded

unfoldable pub install_session : CreateSessionRequest → Ledger → Generation → Generation
unfolding schedule
install_session r l g =
    schedule (execute_create r.operation_id r.logical_session_id)
      (record g { ledger = l; sessions = Dict.put g.sessions r.logical_session_id (new_session r) })

-- The lock's body on the generation: the record, whether it was created, and the generation after.
unfoldable pub create_in :
    Generation → ℕ → String → CreateSessionRequest → Result (OperationRecord × Bool × Generation)
unfolding check_new_session install_session
create_in g max_sessions digest r = do
  check_new_session g max_sessions (is_some (Dict.get g.ledger.records r.operation_id))
      r.logical_session_id
  (rec, created, l) ← Ledger.admit g.ledger r.operation_id (create_candidate digest r)
  ok (rec, created, if created then install_session r l g else g)

unfoldable pub commit_create :
    Service → ℕ → String → CreateSessionRequest → Result (OperationRecord × Bool × Service)
commit_create s g digest r = do
  require_current_generation s g
  (rec, created, gen) ← create_in (s.store g) s.limits.max_sessions digest r
  ok (rec, created, on_generation s g (λ _. gen))

unfoldable pub admit_create :
    Host
    → Wire
    → Service
    → AcpClient
    → CreateSessionRequest
    → Result (OperationRecord × Bool × Service)
admit_create host w s client r = do
  (g, digest) ← prepare_create host w s client r
  commit_create s g digest r
