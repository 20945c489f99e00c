-- ===== src/Service/Creation.antt =====
-- src/acp_proxy/direct_service.py: the task _execute_create, cut at its await.
use acp_test.Base.{ℕ, String, Option, none, some, [], ◌∷◌, ◌is◌, if◌then◌else◌}
use acp_test.Json.{Value, str, obj, fields}
use acp_test.State.{running, completed, failed, in_doubt, ready, non_reusable, DirectSession}
use acp_test.Service.{
  Generation, Service, AcpClient, Host, on_generation, on_session, set_state, set_session_state,
  settle_record, error_info,
}
use acp_test.Service.Loss.{mark_generation_lost, quarantine_uncertain}
use acp_test.Service.Cancel.{deferred}

-- What create_session_exact answers: a session bound to a model, nothing in time, a
-- ModelAcknowledgementError, or another exception.
pub data CreateOutcome : Type 0 where
  bound : String → String → CreateOutcome
  create_timeout : CreateOutcome
  rejected : CreateOutcome
  create_raised : CreateOutcome

unfoldable pub begin_create : ℕ → String → Service → Service
unfolding set_state
begin_create g op s = on_generation s g (set_state running op)

abbrev pub create_result : DirectSession → String → String → String → Option Value
create_result x backend model generation = some (
    obj (
      fields (
        ("logical_session_id", str x.logical_session_id)
        ∷ ("backend_session_id", str backend)
        ∷ ("model_id", str model)
        ∷ ("stable_instruction_digest", str x.stable_instruction_digest)
        ∷ ("continuity_generation_id", str generation)
        ∷ [])))

-- The session is bound and ready, whatever its state was.
unfoldable pub complete_create :
    DirectSession → String → String → String → String → Generation → Generation
unfolding on_session settle_record
complete_create x op k backend model g =
    settle_record completed (create_result x backend model g.generation_id) none op
      (on_session k (λ y. record y { backend_session_id = some backend; state = ready }) g)

unfoldable pub reject_create : String → String → Generation → Generation
unfolding on_session settle_record
reject_create op k g =
    settle_record failed none
      (error_info "session_configuration_failed"
        "ACP did not settle the requested session configuration")
      op (set_session_state non_reusable k g)

create_in_doubt : Host → ℕ → String → String → String → Service → Service
create_in_doubt host g op k message s =
    quarantine_uncertain host g
      (deferred op in_doubt none (error_info "session_creation_in_doubt" message) ∷ [])
      (on_generation s g (set_session_state non_reusable k))

-- What follows the answer, for the session object `x` that the task was given, and the client that
-- `_transport_alive` reads.
unfoldable pub settle_create :
    Host → AcpClient → ℕ → String → String → DirectSession → CreateOutcome → Service → Service
unfolding complete_create reject_create create_in_doubt on_session
settle_create host client g op k x (bound backend model) s =
    if model is x.model_id
    then on_generation s g (complete_create x op k backend model)
    else on_generation s g (reject_create op k)
settle_create host client g op k x create_timeout s =
    create_in_doubt host g op k "ACP session creation did not settle before its deadline" s
settle_create host client g op k x rejected s = on_generation s g (reject_create op k)
settle_create host client g op k x create_raised s =
    if client.is_alive
    then create_in_doubt host g op k "ACP session creation outcome is uncertain" s
    else mark_generation_lost host [] s
