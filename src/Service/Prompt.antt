-- ===== src/Service/Prompt.antt =====
-- src/acp_proxy/direct_service.py: admit_prompt with its checks, in the order of the source.
use acp_test.Base.{
  ℕ, ◌+◌, ◌-◌, String, Bool, false, ◌&&◌, ◌||◌, not, Option, none, some, leb, ltb, ◌is◌,
  if◌then◌else◌,
}
use Prim.Native.String.{len}
use acp_test.Dict
use acp_test.Dict.{is_some}
use acp_test.State.{
  DirectError, conflict, not_found, limit_exceeded, fault, Result, ok, raise_if, or_raise, ◌>>=◌,
  ◌>>◌, prompt, queued, SessionState, is_ready, is_busy, OperationRecord, DirectSession,
}
use acp_test.Ledger
use acp_test.Ledger.{Ledger, Candidate}
use acp_test.Protocol.{
  PromptRequest, PromptPhase, initial, invocation, DirectLimits, Wire, prompts, sha256_text,
  canonical_request_digest, render_blocks,
}
use acp_test.Service.{
  execute_prompt, Generation, Service, AcpClient, on_generation, on_session, schedule, set_state,
}
use acp_test.Service.Pin.{check_pin, require_current_generation}

-- _check_prompt_limits
unfoldable pub check_prompt_limits : DirectLimits → PromptRequest → Result (Unit {0})
check_prompt_limits limits r = do
  raise_if (ltb limits.max_execution_timeout r.execution_timeout) limit_exceeded
  text ← render_blocks r
  raise_if (ltb limits.max_prompt_bytes (len text)) limit_exceeded

-- The clauses of _validate_prompt_lifetime, one for each kind of phase.
lifetime_initial : Wire → DirectSession → PromptRequest → Result (Unit {0})
lifetime_initial w x r = do
  raise_if x.stable_submitted conflict
  stable ← or_raise r.stable_instructions fault
  raise_if (not (sha256_text w stable is x.stable_instruction_digest)) conflict
  contract ← or_raise r.output_contract fault
  raise_if (not (sha256_text w contract is r.output_contract_digest)) conflict
  raise_if (is_some x.active_invocation_id) conflict

lifetime_invocation : Wire → DirectSession → PromptRequest → Result (Unit {0})
lifetime_invocation w x r = do
  raise_if (not x.stable_submitted) conflict
  raise_if (is_some (Dict.get x.invocation_contract_digests r.invocation_id)) conflict
  contract ← or_raise r.output_contract fault
  raise_if (not (sha256_text w contract is r.output_contract_digest)) conflict

abbrev pub names : Option String → String → Bool
names none t = false
names (some s) t = s is t

lifetime_delta : DirectSession → PromptRequest → Result (Unit {0})
lifetime_delta x r = do
  raise_if (not x.stable_submitted) conflict
  digest ← or_raise (Dict.get x.invocation_contract_digests r.invocation_id) conflict
  raise_if (not (names x.active_invocation_id r.invocation_id)) conflict
  raise_if (not (digest is r.output_contract_digest)) conflict

lifetime_phase : PromptPhase → Wire → DirectSession → PromptRequest → Result (Unit {0})
lifetime_phase initial w x r = lifetime_initial w x r
lifetime_phase invocation w x r = lifetime_invocation w x r
lifetime_phase _ w x r = lifetime_delta x r

-- _validate_prompt_lifetime
unfoldable pub validate_prompt_lifetime : Wire → DirectSession → PromptRequest → Result (Unit {0})
unfolding lifetime_phase lifetime_initial lifetime_invocation lifetime_delta sha256_text
validate_prompt_lifetime w x r = do
  raise_if (not (r.stable_instruction_digest is x.stable_instruction_digest)) conflict
  lifetime_phase r.phase w x r

-- _session_for_new_work
unfoldable pub session_for_new_work : Generation → String → Result DirectSession
session_for_new_work g k = do
  x ← or_raise (Dict.get g.sessions k) not_found
  raise_if (not (is_ready x.state)) conflict
  ok x

abbrev pub prompt_candidate : String → String → PromptRequest → Candidate
prompt_candidate digest k r = record {
  digest = digest;
  kind = prompt;
  logical_session_id = some k;
  invocation_id = some r.invocation_id;
  target_operation_id = none;
}

-- DirectBusy unless the session is free of a prompt.
unfoldable pub check_free : DirectSession → Result (Unit {0})
check_free x = raise_if (is_some x.active_operation_id || is_busy x.state) DirectError.busy

-- The first prompt reserved is the one that runs; the others wait.
unfoldable pub check_queue : ℕ → Generation → Result (Unit {0})
check_queue max_queued g =
    raise_if (ltb 0 g.prompt_reservations && leb max_queued (g.prompt_reservations - 1))
      limit_exceeded

-- The writes of an admission: the new ledger, the queued state, the reservation, the busy session.
unfoldable pub reserve : String → PromptRequest → Ledger → Generation → Generation
unfolding schedule set_state on_session
reserve k r l g =
    let admitted = record g { ledger = l; prompt_reservations = g.prompt_reservations + 1 } in
    let marked =
      if ltb 0 g.prompt_reservations then set_state queued r.operation_id admitted else admitted in
    schedule (execute_prompt r.operation_id k r) (
      on_session k
        (λ x. record x { active_operation_id = some r.operation_id; state = SessionState.busy })
        marked)

-- The checks of new work and its admission.
unfoldable pub prompt_new :
    Wire
    → Generation
    → ℕ
    → String
    → String
    → PromptRequest
    → Result (OperationRecord × Bool × Generation)
unfolding check_free session_for_new_work check_queue reserve
prompt_new w g max_queued digest k r = do
  candidate_session ← or_raise (Dict.get g.sessions k) not_found
  check_free candidate_session
  session ← session_for_new_work g k
  validate_prompt_lifetime w session r
  check_queue max_queued g
  (rec, created, l) ← Ledger.admit g.ledger r.operation_id (prompt_candidate digest k r)
  now ← Ledger.get (reserve k r l g).ledger r.operation_id
  ok (now, created, reserve k r l g)

-- A known operation is replayed, without the checks of new work.
unfoldable pub prompt_replay :
    Generation → String → String → PromptRequest → Result (OperationRecord × Bool × Generation)
prompt_replay g digest k r = do
  (rec, created, l) ← Ledger.admit g.ledger r.operation_id (prompt_candidate digest k r)
  ok (rec, false, g)

unfoldable pub prompt_in :
    Wire
    → Generation
    → ℕ
    → String
    → String
    → PromptRequest
    → Result (OperationRecord × Bool × Generation)
unfolding prompt_new prompt_replay
prompt_in w g max_queued digest k r =
    if is_some (Dict.get g.ledger.records r.operation_id)
    then prompt_replay g digest k r
    else prompt_new w g max_queued digest k r

unfoldable pub prepare_prompt : Wire → Service → AcpClient → PromptRequest → Result (ℕ × String)
unfolding check_prompt_limits
prepare_prompt w s client r = do
  g ← check_pin s client r.protocol_major r.continuity_generation_id
  check_prompt_limits s.limits r
  ok (g, canonical_request_digest w (prompts r))

unfoldable pub commit_prompt :
    Wire → Service → ℕ → String → String → PromptRequest → Result (OperationRecord × Bool × Service)
commit_prompt w s g digest k r = do
  require_current_generation s g
  (rec, created, gen) ← prompt_in w (s.store g) s.limits.max_queued_prompts digest k r
  ok (rec, created, on_generation s g (λ _. gen))

unfoldable pub admit_prompt :
    Wire → Service → AcpClient → String → PromptRequest → Result (OperationRecord × Bool × Service)
admit_prompt w s client k r = do
  (g, digest) ← prepare_prompt w s client r
  commit_prompt w s g digest k r
