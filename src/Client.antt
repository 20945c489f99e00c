-- ===== src/Client.antt =====
-- src/acp_proxy/client.py: the state of AcpClient over its transport. An update queue is the list of what
-- it holds, oldest first, with its maximal size, 0 for none. The coroutines are cut at their awaits; what
-- the agent answers is an argument of the part that follows. Log lines are left out.
pub mod Bounds
pub mod Channel
pub mod Messages
pub mod Stream
pub mod Integrity
pub mod Updates
pub mod Creation
pub mod Binding
pub mod Callbacks
pub mod Selection
pub mod Receive
use acp_test.Base.{
  ℕ, suc, ◌+◌, String, Bool, true, false, not, ◌&&◌, ◌||◌, Option, none, some, List, [], ◌∷◌, ◌++◌,
  length, any, leb, ltb, ◌==◌, ◌is◌, if◌then◌else◌,
}
use acp_test.Dict
use acp_test.Dict.{Dict, is_some}
use acp_test.Dict.Removal.{remove}
use acp_test.Json.{
  Value, null, bool, str, arr, obj, Items, Fields, end, get_field, get_or_null, nil, cons,
}
use acp_test.Transport.{Transport, fail_closed}

-- DIRECT_SESSION_UPDATE_TYPES
abbrev pub direct_session_update_types : List String
direct_session_update_types =
    "agent_message_chunk" ∷ "agent_thought_chunk" ∷ "available_commands_update"
    ∷ "config_option_update" ∷ "current_mode_update" ∷ "plan" ∷ "session_info_update" ∷ "tool_call"
    ∷ "tool_call_update" ∷ "usage_update" ∷ "user_message_chunk" ∷ []

-- _DIRECT_SESSION_STATE_UPDATE_TYPES
abbrev pub direct_session_state_update_types : List String
direct_session_state_update_types =
    "available_commands_update" ∷ "config_option_update" ∷ "current_mode_update"
    ∷ "session_info_update" ∷ "usage_update" ∷ []

abbrev pub contains : List String → String → Bool
contains l s = any (λ t. t is s) l

-- ModelInfo, without its metadata
pub record ModelInfo : Type 0 where
  pub model_id : String
  pub name : Value

pub data DirectModelBindingStrategy : Type 0 where
  standard_config copilot_set_model : DirectModelBindingStrategy

-- SessionState
pub record SessionState : Type 0 where
  pub session_id : String
  pub model_id : Option String
  pub available_model_ids : Option (List String)

-- The phases of a direct prompt.
pub data PromptPhase : Type 0 where
  preparing active terminal : PromptPhase

pub record Budget : Type 0 where
  pub bytes : ℕ
  pub count : ℕ
  pub byte_limit : ℕ
  pub count_limit : ℕ

-- An update, _DIRECT_PROMPT_TERMINAL_MARKER, or the None that wakes a collector.
pub data QueueItem : Type 0 where
  update : Fields → QueueItem
  terminal_marker : QueueItem
  wake : QueueItem

pub record Queue : Type 0 where
  pub items : List QueueItem
  pub maxsize : ℕ

-- queue.full()
abbrev pub is_full : Queue → Bool
is_full q = ltb 0 q.maxsize && leb q.maxsize (length q.items)

-- queue.put_nowait, where the queue is not full
abbrev pub enqueue : QueueItem → Queue → Queue
enqueue i q = record q { items = q.items ++ i ∷ [] }

-- queue.put_nowait: QueueFull is raised where the queue is full, and leaves it as it is.
abbrev pub put_nowait : QueueItem → Queue → Queue
put_nowait i q = if is_full q then q else enqueue i q

-- `direct` is the callback policy; `negotiation` is the object of the negotiation in progress, by a number.
pub record Client : Type 0 where
  pub direct : Bool
  pub transport : Transport
  pub models : List ModelInfo
  pub default_model : Value
  pub strategy : Option DirectModelBindingStrategy
  pub negotiation : Option ℕ
  pub generation : ℕ
  pub sessions : Dict SessionState
  pub update_queues : Dict Queue
  pub prompt_phases : Dict PromptPhase
  pub update_budgets : Dict Budget
  pub expected_model_updates : Dict String
  pub provisional_session_ids : List String
  pub session_new_response_ids : List String

-- AcpClient.__init__
abbrev pub new_client : Bool → Transport → Client
new_client direct transport = record {
  direct = direct;
  transport = transport;
  models = [];
  default_model = null;
  strategy = none;
  negotiation = none;
  generation = 0;
  sessions = Dict.empty;
  update_queues = Dict.empty;
  prompt_phases = Dict.empty;
  update_budgets = Dict.empty;
  expected_model_updates = Dict.empty;
  provisional_session_ids = [];
  session_new_response_ids = [];
}

-- self._transport.fail_closed(message)
unfoldable pub revoke : String → Client → Client
revoke message c = record c { transport = fail_closed message c.transport }

-- set.discard and set.add
unfoldable pub discard : String → List String → List String
discard s [] = []
discard s (t ∷ l) = let rest = discard s l in if t is s then rest else t ∷ rest

abbrev pub add : String → List String → List String
add s l = if contains l s then l else s ∷ l

-- _signal_update_queues: what a queue becomes
abbrev pub woken : Queue → Queue
woken q = record q { items = wake ∷ [] }

unfoldable pub signal_update_queues : Client → Client
signal_update_queues c = record c { update_queues = Dict.modify_all c.update_queues (λ k. woken) }

-- _clear_client_state
unfoldable pub clear_client_state : Client → Client
clear_client_state c = record c {
  update_queues = Dict.empty;
  prompt_phases = Dict.empty;
  update_budgets = Dict.empty;
  expected_model_updates = Dict.empty;
  provisional_session_ids = [];
  session_new_response_ids = [];
  sessions = Dict.empty;
  strategy = none;
  negotiation = none;
  generation = suc c.generation;
}

-- abort, up to the end of the child: the collectors hold the queues that are woken
unfoldable pub abort : Client → Client
unfolding signal_update_queues clear_client_state revoke
abort c = revoke "ACP transport was aborted" (clear_client_state (signal_update_queues c))

-- What a method of the client reads of JSON.
abbrev pub as_text : Value → Option String
as_text (str s) = some s
as_text _ = none

abbrev pub as_dict : Value → Option Fields
as_dict (obj d) = some d
as_dict _ = none

abbrev pub as_list : Value → Option Items
as_list (arr l) = some l
as_list _ = none

abbrev pub is_text : Value → Bool
is_text v = is_some (as_text v)

-- isinstance(value, str) and bool(value)
abbrev pub is_nonempty : Option String → Bool
is_nonempty none = false
is_nonempty (some s) = not (s is "")

abbrev pub all_dicts : Items → Bool
all_dicts nil = true
all_dicts (cons v l) = is_some (as_dict v) && all_dicts l

abbrev pub count_items : Items → ℕ
count_items nil = 0
count_items (cons v l) = suc (count_items l)
