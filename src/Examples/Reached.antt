-- ===== src/Examples/Reached.antt =====
-- A run of the service: a session is created, its creation completes, and a prompt is admitted to it.
use acp_test.Base.{
  false, [], ◌∷◌, ◌==◌, ◌+◌, ◌≤◌, String, ◌≡◌, refl, true, some, none, if◌then◌else◌,
}
use acp_test.Dict
use acp_test.State.{
  completed, cancelled, ready, settle, OperationRecord, running, creating, terminal, set_terminal,
}
use acp_test.Ledger
use acp_test.Ledger.{admit, new_record}
use acp_test.Protocol.{default_limits, CancelRequest, canonical_request_digest}
use acp_test.Server.{waited, operation_view}
use acp_test.Server.Routes.{waited-terminal, is_final}
use acp_test.Service.{Service, Generation, on_generation, settle_record, on_session}
use acp_test.Service.Cancel.{
  admit_cancel, cancel_in, cancel_target, cancel_waiting, release_prompt_reservation,
  cancel_candidate, cancel_result, cancelled_pre_dispatch,
}
use acp_test.Service.Execute.{begin_prompt, unlock}
use acp_test.Service.Frozen.Admissions.{with_new}
use acp_test.Service.Cancelled.{begin_prompt-admit_cancel}
use acp_test.Service.Pin.{require_current_generation, check_pin, ensure_available}
use acp_test.Service.Create.{commit_create, create_in, install_session, create_candidate}
use acp_test.Service.Prompt.{
  commit_prompt, prompt_in, reserve, validate_prompt_lifetime, prompt_candidate,
}
use acp_test.Service.Creation.{bound, begin_create, settle_create}
use acp_test.Service.Step.{
  Reach, init, creates, prompts, starts_create, ends_create, starts_prompt, here, next,
}
use acp_test.Service.Bounds.{reachable_bounds}
use acp_test.Service.Invariant.Reach.{prompt_exclusion}
use acp_test.Examples.{host, wire, dump, client, create_request, first_prompt, session_in}

abbrev start : Service
start = init host "/work" default_limits "first"

abbrev new_create : OperationRecord
new_create = new_record "create" (create_candidate "digest" create_request)

abbrev admitted : Service
admitted = record start {
  store = λ q.
      if q == 0
      then install_session create_request
          (record { max_operations = 4096; records = Dict.put Dict.empty "create" new_create })
          (start.store 0)
      else start.store q;
}

abbrev started : Service
started = begin_create 0 "create" admitted

abbrev created : Service
created =
    settle_create host client 0 "create" "session" (session_in creating) (bound "backend" "model")
      started

abbrev new_prompt : OperationRecord
new_prompt = new_record "prompt" (prompt_candidate "digest" "session" first_prompt)

abbrev prompted : Service
prompted = record created {
  store = λ q.
      if q == 0
      then reserve "session" first_prompt
          (record {
            max_operations = 4096;
            records = Dict.put (created.store 0).ledger.records "prompt" new_prompt;
          })
          (created.store 0)
      else created.store q;
}

run : Reach host wire dump start prompted
unfolding commit_create create_in require_current_generation admit install_session Dict.get Dict.put
    Dict.empty Dict.size Dict.modify Ledger.update begin_create settle_create commit_prompt
    prompt_in reserve validate_prompt_lifetime Ledger.get set_terminal
run =
    next
      (next
        (next
          (next here
            (creates 0 "digest" create_request {rec = new_create} {b = true} {t = admitted} refl))
          (starts_create "create" new_create refl refl refl refl))
        (ends_create client "create" "session" (record new_create { state = running })
          (session_in creating) (bound "backend" "model") refl refl refl refl))
      (prompts 0 "digest" "session" first_prompt {rec = new_prompt} {b = true} {t = prompted} refl)

abbrev prompt_id : String
prompt_id = "prompt"

prompt_exclusion_example : prompt_id ≡ new_prompt.operation_id
unfolding reserve settle_create install_session Dict.get Dict.put Dict.empty Dict.modify
    Ledger.update begin_create set_terminal
prompt_exclusion_example =
    prompt_exclusion host wire dump "/work" default_limits "first" 0 "prompt" "prompt" new_prompt
      new_prompt run refl refl refl refl refl refl refl refl

reachable_bounds_example :
    (Dict.size (prompted.store 0).sessions ≤ 64)
    × ((prompted.store 0).prompt_reservations ≤ 64 + 1)
    × (Dict.size (prompted.store 0).ledger.records ≤ (prompted.store 0).ledger.max_operations)
unfolding settle_create install_session begin_create
reachable_bounds_example = reachable_bounds host wire dump "/work" default_limits "first" 0 run

waited-terminal_example :
    (waited new_prompt
      ≡ (if terminal new_prompt.state then some (operation_view new_prompt) else none))
    × ((operation_view new_prompt).operation_id ≡ "prompt")
    × (is_final (operation_view new_prompt).state ≡ terminal new_prompt.state)
unfolding reserve settle_create install_session Dict.get Dict.put Dict.empty Dict.modify
    Ledger.update begin_create set_terminal
waited-terminal_example =
    waited-terminal host wire dump "/work" default_limits "first" 0 "prompt" new_prompt run refl

-- The prompt is cancelled before its task has the lock, and then the task takes it.
abbrev cancel_request : CancelRequest
cancel_request = record {
  protocol_major = 1;
  continuity_generation_id = "first";
  operation_id = "cancel";
  target_operation_id = "prompt";
}

abbrev settled_cancel : OperationRecord
settled_cancel =
    settle completed (cancel_result "cancelled" false) none
      (new_record "cancel" (cancel_candidate "digest" cancel_request new_prompt))

abbrev with_cancel : Generation
with_cancel =
    with_new (prompted.store 0) "cancel" (cancel_candidate "digest" cancel_request new_prompt)

abbrev cancelled_generation : Generation
cancelled_generation =
    settle_record completed (cancel_result "cancelled" false) none "cancel"
      (record (on_session "session" (λ y. record y { active_operation_id = none; state = ready })
        (settle_record cancelled cancelled_pre_dispatch none "prompt" with_cancel)) {
          released_reservations = "prompt" ∷ [];
          prompt_reservations = 0;
        })

abbrev after_cancel : Service
after_cancel = on_generation prompted 0 (λ _. cancelled_generation)

abbrev settled_prompt : OperationRecord
settled_prompt = settle cancelled cancelled_pre_dispatch none new_prompt

abbrev after_start : Service
after_start = on_generation after_cancel 0 (begin_prompt "prompt")

begin_prompt-admit_cancel_example :
    (Dict.get (after_start.store 0).ledger.records "prompt" ≡ some settled_prompt)
    × (begin_prompt "prompt" (after_start.store 0) ≡ unlock (after_start.store 0))
unfolding admit_cancel cancel_in cancel_target cancel_waiting release_prompt_reservation check_pin
    ensure_available require_current_generation admit Ledger.get Ledger.update settle_record
    on_session set_terminal reserve settle_create install_session begin_create Dict.get Dict.put
    Dict.empty Dict.modify Dict.size canonical_request_digest
begin_prompt-admit_cancel_example =
    begin_prompt-admit_cancel host wire dump "/work" default_limits "first" client cancel_request
      new_prompt {rec = settled_cancel} {u = after_cancel} run refl refl refl
      (next here (starts_prompt "prompt" settled_prompt refl refl refl))
