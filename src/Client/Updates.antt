-- ===== src/Client/Updates.antt =====
-- src/acp_proxy/client.py: the notifications of the agent. `dumps` is json.dumps of a dict with sorted keys
-- and compact separators; `none` is its TypeError or ValueError.
pub mod Admission
pub mod Bounds
pub mod Follows
use acp_test.Base.{
  ℕ, suc, ◌+◌, String, Bool, true, false, not, ◌&&◌, ◌||◌, Option, none, some, List, [], ◌∷◌, ◌++◌,
  length, leb, ltb, ◌is◌, if◌then◌else◌,
}
use Prim.Native.String.{len}
use acp_test.Dict
use acp_test.Dict.{Dict, is_some}
use acp_test.Json.{
  Value, str, arr, obj, Items, Fields, end, get_field, get_or_null, nil, cons, is_str,
}
use acp_test.Transport.{pending_request_count}
use acp_test.Client.Integrity.{
  Integrity, is_model_option, check_options, bound_model, selected_model, options_of,
  config_options, direct_model_integrity, holds, malformed, drifted, missing,
}
use acp_test.Client.{
  Client, SessionState, PromptPhase, active, Budget, Queue, update, is_full, enqueue, revoke,
  contains, direct_session_update_types, direct_session_state_update_types, as_text, as_dict,
  as_list, is_text, is_nonempty, all_dicts, count_items,
}

-- _is_bounded_direct_state_update
abbrev pub is_commands : Option Items → Bool
is_commands none = false
is_commands (some l) = leb (count_items l) 1024 && all_dicts l

abbrev pub is_options : Option Items → Bool
is_options none = false
is_options (some l) = all_dicts l

abbrev pub is_state_payload : String → Fields → Bool
is_state_payload kind u =
    if kind is "available_commands_update"
    then is_commands (as_list (get_or_null "availableCommands" u))
    else if kind is "config_option_update"
    then is_options (as_list (get_or_null "configOptions" u))
    else if kind is "current_mode_update"
    then is_nonempty (as_text (get_or_null "currentModeId" u))
    else (kind is "usage_update") || (kind is "session_info_update")

unfoldable pub is_bounded_direct_state_update : (Fields → Option String) → String → Fields → Bool
is_bounded_direct_state_update dumps kind u = elim (dumps u) [
  | none ↦ false
  | some encoded ↦ not (ltb 256000 (len encoded)) && is_state_payload kind u
]

abbrev pub is_active : Option PromptPhase → Bool
is_active (some active) = true
is_active _ = false

-- The session, the kind and the update of a state update outside an active prompt.
abbrev pub state_parts : Client → Option String → Option Fields → Option (String × String × Fields)
state_parts c (some s) (some u) = elim (as_text (get_or_null "sessionUpdate" u)) [
  | none ↦ none
  | some kind ↦
      if not (s is "")
        && contains direct_session_state_update_types kind
        && not (is_active (Dict.get c.prompt_phases s))
      then some (s, kind, u)
      else none
]
state_parts c _ _ = none

abbrev pub state_update_of : Client → Value → Value → Option (String × String × Fields)
state_update_of c method (obj p) =
    if is_str method "session/update"
    then state_parts c (as_text (get_or_null "sessionId" p)) (as_dict (get_or_null "update" p))
    else none
state_update_of c method _ = none

-- _admit_provisional_session_id: `none` where the ID is refused.
unfoldable pub admit_provisional_session_id : String → Client → Option Client
admit_provisional_session_id s c =
    if contains c.provisional_session_ids s
    then some c
    else if leb (pending_request_count "session/new" c.transport) (length c.provisional_session_ids)
    then none
    else some (record c { provisional_session_ids = s ∷ c.provisional_session_ids })

-- _handle_direct_state_update: the client after a state update that is taken.
note_state : (Fields → Option String) → Option (String × String × Fields) → Client → Option Client
unfolding is_bounded_direct_state_update admit_provisional_session_id
note_state dumps none c = none
note_state dumps (some (s, kind, u)) c =
    if not (is_bounded_direct_state_update dumps kind u)
    then none
    else if is_some (Dict.get c.sessions s) || contains c.session_new_response_ids s
    then some c
    else admit_provisional_session_id s c

unfoldable pub handle_direct_state_update :
    (Fields → Option String) → Value → Value → Client → Option Client
unfolding note_state
handle_direct_state_update dumps method params c =
    note_state dumps (state_update_of c method params) c

-- _is_valid_direct_session_update, by the kind of the update
abbrev pub is_content : Option Fields → Bool
is_content none = false
is_content (some content) =
    is_nonempty (as_text (get_or_null "type" content))
    && (not (is_str (get_or_null "type" content) "text") || is_text (get_or_null "text" content))

abbrev pub is_update_payload : String → Fields → Bool
is_update_payload kind u =
    if contains ("agent_message_chunk" ∷ "agent_thought_chunk" ∷ "user_message_chunk" ∷ []) kind
    then is_content (as_dict (get_or_null "content" u))
    else if contains ("tool_call" ∷ "tool_call_update" ∷ []) kind
    then is_nonempty (as_text (get_or_null "toolCallId" u))
    else if kind is "plan"
    then is_some (as_list (get_or_null "entries" u))
    else if kind is "available_commands_update"
    then is_some (as_list (get_or_null "availableCommands" u))
    else if kind is "current_mode_update"
    then is_text (get_or_null "currentModeId" u)
    else if kind is "config_option_update"
    then is_some (as_list (get_or_null "configOptions" u))
    else (kind is "usage_update") || (kind is "session_info_update")

abbrev pub is_update_kind : Option String → Fields → Bool
is_update_kind none u = false
is_update_kind (some kind) u = contains direct_session_update_types kind && is_update_payload kind u

abbrev pub valid_parts : Client → Option String → Option Fields → Option (String × Fields)
valid_parts c (some s) (some u) =
    if not (s is "")
      && is_some (Dict.get c.sessions s)
      && is_some (Dict.get c.update_queues s)
      && is_active (Dict.get c.prompt_phases s)
      && is_update_kind (as_text (get_or_null "sessionUpdate" u)) u
    then some (s, u)
    else none
valid_parts c _ _ = none

-- The session and the update of a notification that is valid.
unfoldable pub direct_session_update : Client → Value → Value → Option (String × Fields)
direct_session_update c method (obj p) =
    if is_str method "session/update"
    then valid_parts c (as_text (get_or_null "sessionId" p)) (as_dict (get_or_null "update" p))
    else none
direct_session_update c method _ = none

-- _enqueue_direct_update
abbrev pub charge : ℕ → Budget → Budget
charge n b = record b { bytes = b.bytes + n; count = b.count + 1 }

abbrev pub exceeds : ℕ → Budget → Queue → Bool
exceeds n b q = ltb b.byte_limit (b.bytes + n) || ltb b.count_limit (b.count + 1) || is_full q

abbrev pub retained : String → Fields → ℕ → Budget → Queue → Client → Client
retained s u n b q c = record c {
  update_budgets = Dict.put c.update_budgets s (charge n b);
  update_queues = Dict.put c.update_queues s (enqueue (update u) q);
}

enqueue_sized : String → Fields → Option String → Budget → Queue → Client → Client
enqueue_sized s u none b q c = revoke "direct ACP session update protocol failure" c
enqueue_sized s u (some encoded) b q c =
    if exceeds (len encoded) b q
    then revoke "direct ACP evidence stream exceeded reader-side limits" c
    else retained s u (len encoded) b q c

enqueue_found : String → Fields → Option String → Option Budget → Option Queue → Client → Client
enqueue_found s u encoded (some b) (some q) c = enqueue_sized s u encoded b q c
enqueue_found s u encoded _ _ c = revoke "direct ACP session update protocol failure" c

unfoldable pub enqueue_direct_update : (Fields → Option String) → String → Fields → Client → Client
unfolding enqueue_found enqueue_sized revoke
enqueue_direct_update dumps s u c =
    enqueue_found s u (dumps u) (Dict.get c.update_budgets s) (Dict.get c.update_queues s) c

-- _handle_notification in the direct mode, after the check of the model.
settle_update :
    (Fields → Option String) → Option Client → Option (String × Fields) → Client → Client
unfolding enqueue_direct_update
settle_update dumps (some after) o c = after
settle_update dumps none none c = revoke "direct ACP session update protocol failure" c
settle_update dumps none (some (s, u)) c = enqueue_direct_update dumps s u c

take_update : (Fields → Option String) → Value → Value → Client → Client
unfolding settle_update handle_direct_state_update
take_update dumps method params c =
    settle_update dumps (handle_direct_state_update dumps method params c)
      (direct_session_update c method params) c

-- _direct_model_integrity_holds revokes continuity where it finds a fault.
judge_update : (Fields → Option String) → Value → Value → Client → Integrity → Client
unfolding take_update revoke
judge_update dumps method params c holds = take_update dumps method params c
judge_update dumps method params c malformed = revoke "direct ACP config update malformed" c
judge_update dumps method params c drifted = revoke "direct ACP selected model drifted" c
judge_update dumps method params c missing = revoke "direct ACP selected model state missing" c

unfoldable pub direct_notification : (Fields → Option String) → Value → Value → Client → Client
unfolding judge_update direct_model_integrity
direct_notification dumps method params c =
    judge_update dumps method params c (direct_model_integrity c params)

-- The legacy mode: what raises, the read loop answers by revoking continuity.
abbrev pub update_or_end : Option Value → Option Fields
update_or_end none = some end
update_or_end (some v) = as_dict v

abbrev pub malformed_stream : Client → Client
unfolding revoke
malformed_stream c = revoke "ACP protocol failure" c

-- params.get("sessionId", "")
abbrev pub session_or_empty : Option Value → Value
session_or_empty none = str ""
session_or_empty (some v) = v

-- queue.put_nowait, which raises where the queue is full
unfoldable pub put_update : String → Fields → Option Queue → Client → Client
unfolding revoke
put_update s u none c = c
put_update s u (some q) c =
    if is_full q
    then malformed_stream c
    else record c { update_queues = Dict.put c.update_queues s (enqueue (update u) q) }

-- The key of a list or a dict raises, and so does an update that is no dict.
unfoldable pub put_legacy : Value → Option Fields → Client → Client
unfolding put_update revoke
put_legacy v none c = malformed_stream c
put_legacy (str s) (some u) c = put_update s u (Dict.get c.update_queues s) c
put_legacy (arr l) (some u) c = malformed_stream c
put_legacy (obj o) (some u) c = malformed_stream c
put_legacy _ (some u) c = c

unfoldable pub legacy_params : Value → Client → Client
unfolding put_legacy revoke
legacy_params (obj p) c =
    put_legacy (session_or_empty (get_field "sessionId" p)) (update_or_end (get_field "update" p)) c
legacy_params _ c = malformed_stream c

unfoldable pub legacy_notification : Value → Value → Client → Client
unfolding legacy_params
legacy_notification method params c =
    if is_str method "session/update" then legacy_params params c else c

-- _handle_notification
abbrev pub or_end : Option Value → Value
or_end none = obj end
or_end (some v) = v

unfoldable pub handle_notification : (Fields → Option String) → Fields → Client → Client
unfolding direct_notification legacy_notification
handle_notification dumps m c =
    if c.direct
    then direct_notification dumps (get_or_null "method" m) (or_end (get_field "params" m)) c
    else legacy_notification (get_or_null "method" m) (or_end (get_field "params" m)) c
