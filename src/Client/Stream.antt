-- ===== src/Client/Stream.antt =====
-- src/acp_proxy/client.py, _prompt_content: a prompt's queue from its registration to its removal, with the
-- observers of the transport that open and close its epoch.
pub mod Bounds
pub mod Follows
use acp_test.Base.{
  ℕ, suc, ◌+◌, String, Bool, true, false, not, ◌&&◌, ◌||◌, Option, none, some, List, [], ◌∷◌, ◌++◌,
  ◌==◌, ◌is◌, any, ltb, if◌then◌else◌,
}
use acp_test.Dict
use acp_test.Dict.{is_some}
use acp_test.Dict.Removal.{remove}
use acp_test.Json.{Value, str, obj, bool, Fields, field, end, get_or_null, is_str}
use acp_test.State.{Result, ok, err, fault}
use acp_test.Evidence.{direct_stop_reasons}
use acp_test.Transport.{has_pending_incoming_requests}
use acp_test.Client.{
  Client, PromptPhase, preparing, active, terminal, Budget, Queue, QueueItem, update,
  terminal_marker, wake, is_full, enqueue, revoke, contains, as_text,
}
use acp_test.Client.Updates.{is_active}

-- prompt_blocks: every block must be a text block, and there must be one.
abbrev pub all_text_blocks : List Fields → Bool
all_text_blocks [] = true
all_text_blocks (b ∷ bs) = is_str (get_or_null "type" b) "text" && all_text_blocks bs

unfoldable pub check_blocks : List Fields → Bool
check_blocks [] = false
check_blocks (b ∷ bs) = all_text_blocks (b ∷ bs)

-- How the start of a prompt ends: it goes on, or it raises.
pub data Start : Type 0 where
  proceeds unknown_session correlation_failure no_bounds : Start

-- phase in {None, "terminal"}
abbrev pub is_free : Option PromptPhase → Bool
is_free none = true
is_free (some terminal) = true
is_free _ = false

abbrev pub queue_for : Option ℕ → Queue
queue_for none = record { items = []; maxsize = 0 }
queue_for (some count_limit) = record { items = []; maxsize = count_limit + 1 }

abbrev pub register : String → Option ℕ → Client → Client
register s count_limit c = record c {
  update_queues = Dict.put c.update_queues s (queue_for count_limit);
}

abbrev pub prepare : String → Client → Client
prepare s c = record c { prompt_phases = Dict.put c.prompt_phases s preparing }

open_budget : String → Option ℕ → Option ℕ → Client → Client × Start
open_budget s (some byte_limit) (some count_limit) c =
    if ltb byte_limit 1 || ltb count_limit 1 then (c, no_bounds) else (
      record c {
        update_budgets =
            Dict.put c.update_budgets s
              (record { bytes = 0; count = 0; byte_limit = byte_limit; count_limit = count_limit });
      },
      proceeds,
    )
open_budget s _ _ c = (c, no_bounds)

-- _prompt_content before its `try`
unfoldable pub start_prompt : String → Option ℕ → Option ℕ → Client → Client × Start
unfolding open_budget revoke
start_prompt s byte_limit count_limit c =
    if not (is_some (Dict.get c.sessions s))
    then (c, unknown_session)
    else if not c.direct
    then (register s count_limit c, proceeds)
    else if not (is_free (Dict.get c.prompt_phases s))
    then (
      revoke "direct ACP prompt correlation protocol failure" (register s count_limit c),
      correlation_failure,
    )
    else open_budget s byte_limit count_limit (prepare s (register s count_limit c))

-- Its `finally` block
unfoldable pub end_prompt : String → Client → Client
end_prompt s c = record c {
  update_queues = remove c.update_queues s;
  update_budgets = remove c.update_budgets s;
}

abbrev pub session_of : Option Fields → Option String
session_of none = none
session_of (some p) = as_text (get_or_null "sessionId" p)

abbrev pub is_preparing : Option PromptPhase → Bool
is_preparing (some preparing) = true
is_preparing _ = false

abbrev pub set_phase : PromptPhase → String → Client → Client
set_phase phase s c = record c { prompt_phases = Dict.put c.prompt_phases s phase }

open_epoch : Option String → Client → Client
open_epoch none c = revoke "direct ACP prompt correlation protocol failure" c
open_epoch (some s) c =
    if is_preparing (Dict.get c.prompt_phases s)
    then set_phase active s c
    else revoke "direct ACP prompt correlation protocol failure" c

-- _observe_request_sent
unfoldable pub observe_request_sent : String → Option Fields → Client → Client
unfolding open_epoch revoke
observe_request_sent method params c =
    if c.direct && (method is "session/prompt") then open_epoch (session_of params) c else c

-- _observe_response, for a prompt
close_queue : String → Queue → Client → Client
close_queue s q c =
    if is_full q
    then revoke "direct ACP evidence stream exceeded reader-side limits" (set_phase terminal s c)
    else set_phase terminal s
        (record c { update_queues = Dict.put c.update_queues s (enqueue terminal_marker q) })

close_found : String → Option Queue → Client → Client
close_found s none c = revoke "direct ACP prompt correlation protocol failure" c
close_found s (some q) c =
    if is_active (Dict.get c.prompt_phases s)
    then close_queue s q c
    else revoke "direct ACP prompt correlation protocol failure" c

close_epoch : Option String → Client → Client
close_epoch none c = revoke "direct ACP prompt correlation protocol failure" c
close_epoch (some s) c =
    if has_pending_incoming_requests s c.transport
    then revoke "direct ACP callback settlement protocol failure" c
    else close_found s (Dict.get c.update_queues s) c

unfoldable pub observe_prompt_response : Option Fields → Client → Client
unfolding close_epoch close_found close_queue revoke
observe_prompt_response params c = close_epoch (session_of params) c

-- One round of the consumer of a direct prompt: what it yields, or that it leaves the loop, or that it polls again.
pub data Round : Type 0 where
  yields : Fields → Round
  leaves polls : Round

abbrev pub round_of : QueueItem → Round
round_of (update u) = yields u
round_of terminal_marker = leaves
round_of wake = leaves

take_item : String → Queue → List QueueItem → Client → Client × Round
take_item s q [] c = (c, polls)
take_item s q (i ∷ rest) c = (
  record c { update_queues = Dict.put c.update_queues s (record q { items = rest }) },
  round_of i,
)

take_from : String → Option Queue → Client → Client × Round
unfolding take_item
take_from s none c = (c, polls)
take_from s (some q) c = take_item s q q.items c

unfoldable pub take_update : String → Client → Client × Round
unfolding take_from
take_update s c = take_from s (Dict.get c.update_queues s) c

-- The drain of the queue once the request is done: whatever is no None is yielded.
abbrev pub drained_item : QueueItem → List Fields
drained_item (update u) = u ∷ []
drained_item terminal_marker = field "__acp_prompt_terminal__" (bool true) end ∷ []
drained_item wake = []

unfoldable pub drain : List QueueItem → List Fields
drain [] = []
drain (i ∷ l) = drained_item i ++ drain l

-- The stop reason of a response: a RuntimeError where a direct prompt has no known one.
unfoldable pub stop_reason : Bool → Value → Result String
stop_reason require_known (str reason) =
    if require_known
    then (if contains direct_stop_reasons reason then ok reason else err fault)
    else ok (if reason is "" then "end_turn" else reason)
stop_reason require_known _ = if require_known then err fault else ok "end_turn"
