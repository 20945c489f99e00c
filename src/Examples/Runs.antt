-- ===== src/Examples/Runs.antt =====
-- Tests and examples of the service: admissions, cancellation, retirement, loss, and a run.
use acp_test.Base.{String, ◌≡◌, refl, true, false, none, some, [], ◌∷◌, arith}
use acp_test.Dict
use acp_test.State.{
  ok, err, conflict, generation_mismatch, OperationRecord, accepted, cancelled, in_doubt, completed,
  ready, creating, retired, non_reusable, settle, DirectSession, SessionState, set_terminal,
}
use acp_test.Ledger
use acp_test.Ledger.{Ledger, admit, admit_new, same_identity, new_record}
use acp_test.Service.{Generation, Service, settle_record, on_session, new_generation}
use acp_test.Service.Pin.{check_pin}
use acp_test.Service.Create.{install_session, create_candidate}
use acp_test.Service.Prompt.{
  prompt_in, commit_prompt, reserve, prompt_candidate, validate_prompt_lifetime,
}
use acp_test.Service.Retire.{retire_in, retired_in, retire_candidate, retire_result}
use acp_test.Service.Cancel.{
  cancel_result, cancel_waiting, cancelled_pre_dispatch, release_prompt_reservation,
}
use acp_test.Service.Loss.{DeferredSettlement, mark_generation_lost, quarantine_uncertain}
use acp_test.Service.Execute.{finalize_prompt, free_session, leave_session}
use acp_test.Service.Creation.{complete_create}
use acp_test.Service.Admitted.{prompt_in-prompt_in}
use acp_test.Service.Continuity.{
  mark_generation_lost-settles, quarantine_uncertain-settles, mark_generation_lost-refuses,
  SettledBut, is_gone,
}
use acp_test.Service.Cancelled.{finalize_prompt-cancel_waiting, state_of}
use acp_test.Service.Retired.{retire_in-session_for_new_work, complete_create-retire_in}
use acp_test.Service.Prompt.{session_for_new_work}
use acp_test.Examples.{
  host, wire, client, create_request, first_prompt, retire_request, prompt_of, session_in,
  with_session, with_prompt, service_of,
}

-- The loss of a generation with an accepted prompt.
abbrev busy_service : Service
busy_service = service_of with_prompt

abbrev doubt : DeferredSettlement
doubt = record { operation_id = "prompt"; state = in_doubt; result = none; error = none }

mark_generation_lost-settles_example :
    SettledBut [] ((mark_generation_lost host [] busy_service).store 0)
    × ((k : String) (x : DirectSession)
        → Dict.get ((mark_generation_lost host [] busy_service).store 0).sessions k ≡ some x
        → is_gone x.state ≡ true)
mark_generation_lost-settles_example =
    mark_generation_lost-settles host [] busy_service refl (omega arith)

quarantine_uncertain-settles_example :
    SettledBut [] ((quarantine_uncertain host 0 (doubt ∷ []) busy_service).store 0)
quarantine_uncertain-settles_example =
    quarantine_uncertain-settles host (doubt ∷ []) busy_service refl (omega arith) (refl, tt)

mark_generation_lost-refuses_example :
    (check_pin (mark_generation_lost host [] busy_service) client 1 "second"
      ≡ err generation_mismatch)
    × (commit_prompt wire
          (mark_generation_lost host [] busy_service)
          0
          "digest"
          "session"
          first_prompt
        ≡ err generation_mismatch)
mark_generation_lost-refuses_example =
    mark_generation_lost-refuses host [] busy_service client wire 1 "second" "digest" "session"
      first_prompt refl (omega arith)

-- What an admission of the first prompt writes.
abbrev reserved : Generation
reserved =
    reserve "session" first_prompt
      (record {
        max_operations = 8;
        records =
            Dict.put Dict.empty "prompt"
              (new_record "prompt" (prompt_candidate "digest" "session" first_prompt));
      })
      (with_session ready)

prompt_in-prompt_in_example :
    prompt_in wire reserved 0 "digest" "session" first_prompt
    ≡ ok (new_record "prompt" (prompt_candidate "digest" "session" first_prompt), false, reserved)
unfolding prompt_in admit Ledger.get reserve validate_prompt_lifetime Dict.get Dict.put Dict.empty
    Dict.size Dict.modify
prompt_in-prompt_in_example =
    prompt_in-prompt_in wire (with_session ready) 4 0 "digest" "session" first_prompt
      {rec = new_record "prompt" (prompt_candidate "digest" "session" first_prompt)}
      {created = true} {h = reserved} refl

abbrev created_generation : Generation
created_generation =
    install_session create_request
      (record {
        max_operations = 8;
        records =
            Dict.put Dict.empty "create"
              (new_record "create" (create_candidate "digest" create_request));
      })
      (new_generation "first" 8)

-- The cancellation of the accepted prompt, and the end of its task.
abbrev after_cancel : Generation
after_cancel =
    settle_record completed (cancel_result "cancelled" false) none "cancel"
      (record (on_session "session" (λ y. record y { active_operation_id = none; state = ready })
        (settle_record cancelled cancelled_pre_dispatch none "prompt" with_prompt)) {
          released_reservations = "prompt" ∷ [];
          prompt_reservations = 0;
        })

abbrev after_task : Generation
after_task =
    leave_session false true "session" (on_session "session" (free_session "prompt") after_cancel)

finalize_prompt-cancel_waiting_example :
    (state_of after_cancel "session" ≡ some ready)
    × (state_of after_task "session" ≡ some non_reusable)
unfolding cancel_waiting release_prompt_reservation Dict.get Dict.put Dict.empty on_session
    settle_record Ledger.update Dict.modify set_terminal finalize_prompt
finalize_prompt-cancel_waiting_example =
    finalize_prompt-cancel_waiting "cancel" (prompt_of accepted) with_prompt {h = after_cancel}
      {i = after_task} refl refl refl refl refl

-- The retirement of a session, ready or still being created.
abbrev retired_from : SessionState → Generation
retired_from state =
    retired_in retire_request (session_in state)
      (record {
        max_operations = 8;
        records =
            Dict.put Dict.empty "retire"
              (new_record "retire" (retire_candidate "digest" retire_request));
      })
      (with_session state)

abbrev retire_done : SessionState → OperationRecord
retire_done state =
    settle completed (retire_result (session_in state)) none
      (new_record "retire" (retire_candidate "digest" retire_request))

retire_in-session_for_new_work_example :
    (state_of (retired_from ready) "session" ≡ some retired)
    × (session_for_new_work (retired_from ready) "session" ≡ err conflict)
unfolding retire_in retired_in Ledger.get admit Dict.get Dict.put Dict.empty Dict.size Ledger.update
    Dict.modify set_terminal
retire_in-session_for_new_work_example =
    retire_in-session_for_new_work (with_session ready) "digest" retire_request
      {rec = retire_done ready} {h = retired_from ready} refl

complete_create-retire_in_example :
    state_of
      (complete_create
        (session_in creating)
        "create"
        "session"
        "backend"
        "model"
        (retired_from creating))
      "session"
    ≡ some ready
unfolding retire_in retired_in Ledger.get admit Dict.get Dict.put Dict.empty Dict.size Ledger.update
    Dict.modify set_terminal
complete_create-retire_in_example =
    complete_create-retire_in (with_session creating) "digest" "create" "backend" "model"
      retire_request (session_in creating) {rec = retire_done creating} {h = retired_from creating}
      refl
