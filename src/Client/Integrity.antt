-- ===== src/Client/Integrity.antt =====
-- src/acp_proxy/client.py, _direct_model_integrity_holds: whether the model options of an update agree with the
-- model that was selected.
use acp_test.Base.{
  String, Bool, true, false, not, ◌&&◌, ◌||◌, Option, none, some, ◌is◌, if◌then◌else◌,
}
use acp_test.Dict
use acp_test.Dict.{Dict, is_some}
use acp_test.Json.{Value, obj, Items, Fields, get_or_null, nil, cons, is_str}
use acp_test.Client.{Client, SessionState, as_text, as_dict, as_list, is_nonempty}

-- What _direct_model_integrity_holds finds of an update.
pub data Integrity : Type 0 where
  holds malformed drifted missing : Integrity

abbrev pub is_model_option : Fields → Bool
is_model_option o = is_str (get_or_null "id" o) "model" || is_str (get_or_null "category" o) "model"

-- The current value of the model option, before the rest of the options.
check_current : Option String → Option String → Integrity → Integrity
check_current selected none rest = malformed
check_current none (some current) rest = if current is "" then malformed else rest
check_current (some model) (some current) rest =
    if current is "" then malformed else if current is model then rest else drifted

-- The loop over the options.
unfoldable pub check_options : Option String → Bool → Items → Integrity
unfolding check_current
check_options selected seen nil = if is_nonempty selected && not seen then missing else holds
check_options selected seen (cons (obj o) l) = elim (is_nonempty (as_text (get_or_null "id" o))) [
  | false ↦ malformed
  | true ↦ elim (is_model_option o) [
    | true ↦
        check_current selected (as_text (get_or_null "currentValue" o))
          (check_options selected true l)
    | false ↦ check_options selected seen l
  ]
]
check_options selected seen (cons _ l) = malformed

abbrev pub bound_model : Option SessionState → Option String
bound_model none = none
bound_model (some x) = x.model_id

-- self._expected_model_updates.get(session_id, session.model_id if session else None)
abbrev pub selected_model : Client → String → Option String
selected_model c s = elim (Dict.get c.expected_model_updates s) [
  | some model ↦ some model
  | none ↦ bound_model (Dict.get c.sessions s)
]

abbrev pub options_of : Option String → Option Fields → Option (String × Items)
options_of (some s) (some u) =
    if is_str (get_or_null "sessionUpdate" u) "config_option_update"
    then elim (as_list (get_or_null "configOptions" u)) [ none ↦ none | some l ↦ some (s, l) ]
    else none
options_of _ _ = none

abbrev pub config_options : Value → Option (String × Items)
config_options (obj p) =
    options_of (as_text (get_or_null "sessionId" p)) (as_dict (get_or_null "update" p))
config_options _ = none

unfoldable pub direct_model_integrity : Client → Value → Integrity
unfolding check_options
direct_model_integrity c params = elim (config_options params) [
  | none ↦ holds
  | some (s, l) ↦ check_options (selected_model c s) false l
]
