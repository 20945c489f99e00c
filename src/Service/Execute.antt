-- ===== src/Service/Execute.antt =====
-- src/acp_proxy/direct_service.py: the task _execute_prompt from its start to the wait for its collector,
-- and its last `finally` block.
use acp_test.Base.{String, Bool, true, false, not, Option, none, some, ◌∷◌, ◌is◌, if◌then◌else◌}
use acp_test.Dict
use acp_test.State.{
  Result, OperationState, running, cancelling, cancelled, timed_out, in_doubt, terminal,
  non_reusable, lost, OperationRecord, DirectSession,
}
use acp_test.Ledger
use acp_test.Service.{Generation, on_session, set_session_state}
use acp_test.Service.Cancel.{release_prompt_reservation}

-- The end of `async with generation.prompt_lock`
abbrev pub unlock : Generation → Generation
unlock g = record g { prompt_lock = none }

-- The prompt task takes the lock. A record that was settled meanwhile is not dispatched.
abbrev pub is_dispatched : Option OperationRecord → Bool
is_dispatched none = false
is_dispatched (some r) = not (terminal r.state)

abbrev pub run_unless_cancelling : OperationRecord → OperationRecord
run_unless_cancelling r = record r {
  state = elim r.state [ cancelling ↦ cancelling | _ ↦ running ];
}

unfoldable pub dispatch : String → Generation → Generation
dispatch op g = record g {
  ledger = Ledger.update g.ledger op run_unless_cancelling;
  collector_tasks = op ∷ g.collector_tasks;
}

unfoldable pub begin_prompt : String → Generation → Generation
unfolding dispatch
begin_prompt op g =
    if is_dispatched (Dict.get g.ledger.records op)
    then dispatch op (record g { prompt_lock = some op })
    else unlock g

abbrev pub spoils_session : OperationState → Bool
spoils_session cancelled = true
spoils_session timed_out = true
spoils_session in_doubt = true
spoils_session _ = false

abbrev pub record_spoils : Option OperationRecord → Bool
record_spoils none = false
record_spoils (some r) = spoils_session r.state

abbrev pub free_session : String → DirectSession → DirectSession
free_session op x = record x {
  active_operation_id = elim x.active_operation_id [
    | none ↦ none
    | some a ↦ if a is op then none else some a
  ];
}

-- The state in which a finished prompt leaves its session: lost with its generation, spoilt by how the
-- prompt ended, or as it is.
unfoldable pub leave_session : Bool → Bool → String → Generation → Generation
unfolding on_session
leave_session true spoilt k g = set_session_state lost k g
leave_session false true k g = set_session_state non_reusable k g
leave_session false false k g = g

-- The last `finally` block of _execute_prompt.
unfoldable pub finalize_prompt : String → String → Generation → Result Generation
unfolding leave_session on_session
finalize_prompt op k g = release_prompt_reservation op (
    leave_session g.quarantined (record_spoils (Dict.get g.ledger.records op)) k
      (on_session k (free_session op) g))
