-- ===== src/Service/Retire.antt =====
-- src/acp_proxy/direct_service.py: admit_retire.
use acp_test.Base.{String, Bool, true, false, Option, none, some, [], ◌∷◌, if◌then◌else◌}
use acp_test.Dict
use acp_test.Dict.{is_some}
use acp_test.Json.{Value, str, obj, fields, opt_str}
use acp_test.State.{
  conflict, not_found, fault, Result, ok, raise_if, or_raise, ◌>>=◌, ◌>>◌, retire, completed,
  retired, is_retired, OperationRecord, DirectSession,
}
use acp_test.Ledger
use acp_test.Ledger.{Ledger, Candidate}
use acp_test.Protocol.{RetireSessionRequest, Wire, retires, canonical_request_digest}
use acp_test.Service.{
  Generation, Service, AcpClient, on_generation, on_session, set_session_state, settle_record,
}
use acp_test.Service.Pin.{check_pin, require_current_generation}

abbrev pub retire_candidate : String → RetireSessionRequest → Candidate
retire_candidate digest r = record {
  digest = digest;
  kind = retire;
  logical_session_id = some r.logical_session_id;
  invocation_id = none;
  target_operation_id = none;
}

abbrev pub retire_result : DirectSession → Option Value
retire_result x = some (
    obj (
      fields (
        ("logical_session_id", str x.logical_session_id)
        ∷ ("backend_session_id", opt_str x.backend_session_id)
        ∷ ("backend_close", str x.backend_close)
        ∷ [])))

-- The writes of a retirement.
unfoldable pub retired_in : RetireSessionRequest → DirectSession → Ledger → Generation → Generation
unfolding settle_record on_session
retired_in r x l g =
    settle_record completed (retire_result x) none r.operation_id
      (set_session_state retired r.logical_session_id (record g { ledger = l }))

-- `assert created` is the last test: the operation is known to be new.
unfoldable pub retire_new :
    Generation → String → RetireSessionRequest → Result (OperationRecord × Bool × Generation)
unfolding retired_in
retire_new g digest r = do
  x ← or_raise (Dict.get g.sessions r.logical_session_id) not_found
  raise_if (is_retired x.state) conflict
  raise_if (is_some x.active_operation_id) conflict
  (rec, created, l) ← Ledger.admit g.ledger r.operation_id (retire_candidate digest r)
  raise_if (if created then false else true) fault
  now ← Ledger.get (retired_in r x l g).ledger r.operation_id
  ok (now, true, retired_in r x l g)

unfoldable pub retire_replay :
    Generation → String → RetireSessionRequest → Result (OperationRecord × Bool × Generation)
retire_replay g digest r = do
  (rec, created, l) ← Ledger.admit g.ledger r.operation_id (retire_candidate digest r)
  ok (rec, false, g)

unfoldable pub retire_in :
    Generation → String → RetireSessionRequest → Result (OperationRecord × Bool × Generation)
unfolding retire_new retire_replay
retire_in g digest r =
    if is_some (Dict.get g.ledger.records r.operation_id)
    then retire_replay g digest r
    else retire_new g digest r

unfoldable pub admit_retire :
    Wire → Service → AcpClient → RetireSessionRequest → Result (OperationRecord × Bool × Service)
admit_retire w s client r = do
  g ← check_pin s client r.protocol_major r.continuity_generation_id
  require_current_generation s g
  (rec, created, gen) ← retire_in (s.store g) (canonical_request_digest w (retires r)) r
  ok (rec, created, on_generation s g (λ _. gen))
