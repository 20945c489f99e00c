-- ===== src/Client/Binding.antt =====
-- src/acp_proxy/client.py: the binding of a session to a model. Each request is cut at its wait, with what
-- the agent answers as data: a result, an error with its code, or another exception.
pub mod Unchanged
pub mod Exact
use acp_test.Base.{
  ℕ, suc, String, Bool, true, false, not, ◌&&◌, ◌||◌, Option, none, some, List, [], ◌∷◌, ◌==◌, ◌is◌,
  any, if◌then◌else◌,
}
use acp_test.Dict
use acp_test.Dict.{is_some}
use acp_test.Dict.Removal.{remove}
use acp_test.Json.{Value, literal, arr, obj, Items, nil, cons, Fields, get_or_null}
use acp_test.State.{Result, ok, err, fault}
use acp_test.Client.{
  Client, SessionState, ModelInfo, DirectModelBindingStrategy, standard_config, copilot_set_model,
  as_text, as_dict, as_list, is_nonempty,
}
use acp_test.Client.Integrity.{is_model_option}
use acp_test.Client.Creation.{require_direct_session_catalog}

-- `rejected` is an AcpError, with whether its code is the integer -32601.
pub data Answer : Type 0 where
  answered : Value → Answer
  rejected : Bool → Answer
  lost : Answer

-- ModelAcknowledgementError, an AcpError with its code, or another exception.
pub data BindingError : Type 0 where
  unacknowledged : BindingError
  acp : Bool → BindingError
  broken : BindingError

pub data Bound : Type 0 where
  settled : Bound
  raised : BindingError → Bound

-- _model_from_config_options: `none` is ModelAcknowledgementError.
unfoldable pub model_in_options : Items → Option String
model_in_options nil = none
model_in_options (cons (obj o) l) = elim (is_model_option o) [
  | true ↦
      if is_nonempty (as_text (get_or_null "currentValue" o))
      then as_text (get_or_null "currentValue" o)
      else none
  | false ↦ model_in_options l
]
model_in_options (cons _ l) = model_in_options l

unfoldable pub model_from_config_options : Value → Option String
unfolding model_in_options
model_from_config_options (obj result) = elim (as_list (get_or_null "configOptions" result)) [
  | none ↦ none
  | some l ↦ model_in_options l
]
model_from_config_options _ = none

-- Both methods name the expected model while they wait.
unfoldable pub expect_model : String → String → Client → Client
expect_model s model c = record c {
  expected_model_updates = Dict.put c.expected_model_updates s model;
}

abbrev pub unexpect : String → Client → Client
unexpect s c = record c { expected_model_updates = remove c.expected_model_updates s }

abbrev pub set_session_model : String → Option String → Client → Client
set_session_model s model c = record c {
  sessions = Dict.modify c.sessions s (λ x. record x { model_id = model });
}

-- _set_config_option_exact from its answer on
check_observed : String → String → Option String → Client → Client × Bound
check_observed s model none c = (c, raised unacknowledged)
check_observed s model (some observed) c =
    if observed is model
    then (set_session_model s (some observed) c, settled)
    else (set_session_model s none c, raised unacknowledged)

unfoldable pub finish_set_config_option : String → String → Answer → Client → Client × Bound
unfolding check_observed
finish_set_config_option s model (answered result) c =
    check_observed s model (model_from_config_options result) (unexpect s c)
finish_set_config_option s model (rejected unknown) c = (unexpect s c, raised (acp unknown))
finish_set_config_option s model lost c = (unexpect s c, raised broken)

-- _set_copilot_model_settled from its answer on
unfoldable pub finish_set_model : String → String → Answer → Client → Client × Bound
finish_set_model s model (answered result) c =
    (set_session_model s (some model) (unexpect s c), settled)
finish_set_model s model (rejected unknown) c = (unexpect s c, raised (acp unknown))
finish_set_model s model lost c = (unexpect s c, raised broken)

-- An AcpError of the frozen strategy is a ModelAcknowledgementError.
abbrev pub acknowledged : Client × Bound → Client × Bound
acknowledged (c, raised (acp unknown)) = (c, raised unacknowledged)
acknowledged r = r

-- _bind_direct_model from its answer on, under the strategy that it has read before
unfoldable pub finish_bind_direct_model :
    DirectModelBindingStrategy → String → String → Answer → Client → Client × Bound
unfolding finish_set_config_option finish_set_model
finish_bind_direct_model standard_config s model answer c =
    acknowledged (finish_set_config_option s model answer c)
finish_bind_direct_model copilot_set_model s model answer c =
    acknowledged (finish_set_model s model answer c)

-- The check that ends create_session_exact reads the session object `x` that it has held since the catalog:
-- a write goes to the object that the dict holds, and a teardown meanwhile leaves it as it was.
abbrev pub held : SessionState → Option SessionState → SessionState
held x none = x
held x (some y) = y

check_model : String → Option String → Client → Client × Bound
check_model model none c = (c, raised unacknowledged)
check_model model (some bound) c =
    if bound is model then (c, settled) else (c, raised unacknowledged)

check_bound : String → String → SessionState → Client × Bound → Client × Bound
unfolding check_model
check_bound s model x (c, raised e) = (c, raised e)
check_bound s model x (c, settled) = check_model model (held x (Dict.get c.sessions s)).model_id c

-- create_session_exact of the direct mode, from the session that create_session has stored to the request
-- that binds it: the session object, the strategy, and the client that waits.
wait_for :
    String
    → String
    → Result SessionState
    → Option DirectModelBindingStrategy
    → Client
    → Result (SessionState × DirectModelBindingStrategy × Client)
unfolding expect_model
wait_for s model (err e) o c = err e
wait_for s model (ok x) none c = err fault
wait_for s model (ok x) (some strategy) c = ok (x, strategy, expect_model s model c)

unfoldable pub begin_bind :
    String → String → Client → Result (SessionState × DirectModelBindingStrategy × Client)
unfolding wait_for require_direct_session_catalog
begin_bind s model c = wait_for s model (require_direct_session_catalog c s model) c.strategy c

-- From the answer on
unfoldable pub finish_create_session_exact :
    SessionState → DirectModelBindingStrategy → String → String → Answer → Client → Client × Bound
unfolding check_bound finish_bind_direct_model
finish_create_session_exact x strategy s model answer c =
    check_bound s model x (finish_bind_direct_model strategy s model answer c)

-- The checks of create_session_exact before it asks the agent.
unfoldable pub may_create_exact : Client → String → Bool
may_create_exact c model =
    not (c.direct && not (is_some c.strategy)) && any (λ m. m.model_id is model) c.models

-- negotiate_direct_model_binding: its first checks and the negotiation that it opens
unfoldable pub begin_negotiation : ℕ → String → String → Client → Result Client
begin_negotiation token s model c =
    if not c.direct
    then err fault
    else if is_some c.strategy
    then err fault
    else if is_some c.negotiation
    then err fault
    else elim (require_direct_session_catalog c s model) [
      | err e ↦ err e
      | ok x ↦ ok (record c { negotiation = some token })
    ]

abbrev pub holds_token : Option ℕ → ℕ → Bool
holds_token none token = false
holds_token (some t) token = t == token

-- Its end: the strategy is frozen if the child is still the one that it was negotiated with.
freeze : ℕ → ℕ → DirectModelBindingStrategy → Client → Client × Bound
freeze token generation strategy c =
    if (c.generation == generation) && holds_token c.negotiation token
    then (record c { strategy = some strategy }, settled)
    else (c, raised unacknowledged)

abbrev pub close_negotiation : ℕ → Client × Bound → Client × Bound
close_negotiation token (c, r) =
    (if holds_token c.negotiation token then record c { negotiation = none } else c, r)

-- After the standard method: the strategy is settled, or the other method is tried, or it raises.
pub data Negotiated : Type 0 where
  finished : Client × Bound → Negotiated
  falls_back : Client → Negotiated

after_standard : ℕ → ℕ → Client × Bound → Negotiated
unfolding freeze
after_standard token generation (c, settled) =
    finished (close_negotiation token (freeze token generation standard_config c))
after_standard token generation (c, raised (acp true)) = falls_back c
after_standard token generation (c, raised (acp false)) =
    finished (close_negotiation token (c, raised unacknowledged))
after_standard token generation (c, raised e) = finished (close_negotiation token (c, raised e))

unfoldable pub negotiate_standard : ℕ → ℕ → String → String → Answer → Client → Negotiated
unfolding after_standard finish_set_config_option
negotiate_standard token generation s model answer c =
    after_standard token generation (finish_set_config_option s model answer c)

after_copilot : ℕ → ℕ → Client × Bound → Client × Bound
unfolding freeze
after_copilot token generation (c, settled) =
    close_negotiation token (freeze token generation copilot_set_model c)
after_copilot token generation (c, raised e) = close_negotiation token (acknowledged (c, raised e))

unfoldable pub negotiate_copilot : ℕ → ℕ → String → String → Answer → Client → Client × Bound
unfolding after_copilot finish_set_model
negotiate_copilot token generation s model answer c =
    after_copilot token generation (finish_set_model s model answer c)
