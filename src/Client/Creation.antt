-- ===== src/Client/Creation.antt =====
-- src/acp_proxy/client.py: the creation of a session. `create_session` is cut at its request: what comes
-- before sends `session/new`, what follows takes its result.
pub mod Unchanged
use acp_test.Base.{
  ℕ, suc, ◌+◌, ◌-◌, String, Bool, true, false, not, ◌&&◌, ◌||◌, Option, none, some, List, [], ◌∷◌,
  ◌++◌, ◌==◌, ◌is◌, any, length, ◌≡◌, refl, ap, sym, ◌∙◌, arith, ltb, leb, if◌then◌else◌,
}
use acp_test.Dict
use acp_test.Dict.{is_some}
use acp_test.Json.{Value, null, str, arr, obj, Items, nil, cons, Fields, get_field, get_or_null}
use acp_test.State.{Result, ok, err, fault, raise_if, ◌>>=◌}
use acp_test.Transport.{pending_request_count}
use acp_test.Transport.Envelope.{has}
use acp_test.Client.{
  Client, ModelInfo, SessionState, revoke, discard, add, contains, as_text, as_dict, as_list,
  is_nonempty,
}

-- _observe_session_new_response
abbrev pub forget : Client → Client
forget c = record c { provisional_session_ids = []; session_new_response_ids = [] }

abbrev pub mismatch : Client → Client
mismatch c = revoke "direct ACP provisional session identity mismatch" (forget c)

respond_new : String → ℕ → Client → Client
respond_new s remaining c =
    if is_some (Dict.get c.sessions s) || contains c.session_new_response_ids s
    then revoke "direct ACP session/new response identity failure" c
    else if ltb remaining (length (discard s c.provisional_session_ids))
    then mismatch (record c { provisional_session_ids = discard s c.provisional_session_ids })
    else record c {
      provisional_session_ids = discard s c.provisional_session_ids;
      session_new_response_ids = s ∷ c.session_new_response_ids;
    }

respond_unnamed : Bool → ℕ → Client → Client
respond_unnamed has_error remaining c =
    if not has_error
    then revoke "direct ACP session/new response identity failure" (forget c)
    else if ltb remaining (length c.provisional_session_ids)
    then mismatch c
    else c

respond_with : Option String → Bool → ℕ → Client → Client
respond_with none has_error remaining c = respond_unnamed has_error remaining c
respond_with (some s) has_error remaining c =
    if s is "" then respond_unnamed has_error remaining c else respond_new s remaining c

-- result.get("sessionId") of a response, where it is a text
abbrev pub new_session_id : Fields → Option String
new_session_id m = elim (as_dict (get_or_null "result" m)) [
  | none ↦ none
  | some result ↦ as_text (get_or_null "sessionId" result)
]

unfoldable pub observe_session_new_response : Fields → Client → Client
unfolding respond_with respond_new respond_unnamed revoke discard
observe_session_new_response m c =
    if leb (pending_request_count "session/new" c.transport) 0
    then revoke "direct ACP session/new response correlation failure" c
    else respond_with (new_session_id m) (has "error" m)
        (pending_request_count "session/new" c.transport - 1) c

-- _bind_provisional_session: `true` where it raises ConnectionError
bind_rest : String → Client → Client × Bool
bind_rest s c =
    if contains c.provisional_session_ids s
    then (record c { provisional_session_ids = discard s c.provisional_session_ids }, false)
    else if ltb 0 (length c.provisional_session_ids)
        && (pending_request_count "session/new" c.transport == 0)
    then (mismatch c, true)
    else (c, false)

unfoldable pub bind_provisional_session : String → Client → Client × Bool
unfolding bind_rest revoke discard
bind_provisional_session s c =
    bind_rest s (record c { session_new_response_ids = discard s c.session_new_response_ids })

-- _extract_models; an entry without a "modelId" is a KeyError
model_info : Value → Option ModelInfo
model_info (obj m) = elim (get_field "modelId" m) [
  | some (str id) ↦
      some
        (record { model_id = id; name = elim (get_field "name" m) [ none ↦ str id | some n ↦ n ] })
  | _ ↦ none
]
model_info _ = none

-- The entries before the first that raises, and whether none does.
unfoldable pub model_infos : Items → List ModelInfo × Bool
unfolding model_info
model_infos nil = ([], true)
model_infos (cons v l) = elim (model_info v) [
  | none ↦ ([], false)
  | some i ↦ (i ∷ (model_infos l).0, (model_infos l).1)
]

abbrev pub catalog_of : Option Value → Option Items
catalog_of none = some nil
catalog_of (some v) = as_list v

-- What a catalog that is read sets; one that raises leaves the models that it has read.
set_models : Value → List ModelInfo × Bool → Client → Client × Bool
set_models current (infos, true) c = (record c { models = infos; default_model = current }, true)
set_models current (infos, false) c = (record c { models = infos }, false)

unfoldable pub extract_models : Fields → Client → Client × Bool
unfolding model_infos set_models
extract_models listed c = elim (catalog_of (get_field "availableModels" listed)) [
  | none ↦ (record c { models = [] }, false)
  | some l ↦ set_models (get_or_null "currentModelId" listed) (model_infos l) c
]

-- The model IDs that a session's own catalog lists.
abbrev pub nonempty_text : Option String → Option String
nonempty_text none = none
nonempty_text (some s) = if s is "" then none else some s

unfoldable pub model_ids : Items → List String
model_ids nil = []
model_ids (cons (obj m) l) = elim (nonempty_text (as_text (get_or_null "modelId" m))) [
  | none ↦ model_ids l
  | some id ↦ id ∷ model_ids l
]
model_ids (cons _ l) = model_ids l

abbrev pub catalog_ids : Option Items → Option (List String)
unfolding model_ids
catalog_ids none = none
catalog_ids (some l) = some (model_ids l)

abbrev pub session_with : Client → String → Option Fields → SessionState
session_with c s none = record {
  session_id = s;
  model_id = if c.direct then none else as_text c.default_model;
  available_model_ids = none;
}
session_with c s (some listed) = record {
  session_id = s;
  model_id =
      if c.direct
      then nonempty_text (as_text (get_or_null "currentModelId" listed))
      else as_text c.default_model;
  available_model_ids = catalog_ids (as_list (get_or_null "availableModels" listed));
}

abbrev pub has_no_session : Client → Bool
has_no_session c = Dict.size c.sessions == 0

-- The catalog of all models is taken of any legacy session, and of a generation's first direct one.
take_catalog : Option Fields → Client → Client × Bool
unfolding extract_models
take_catalog none c = (c, true)
take_catalog (some listed) c =
    if not c.direct || has_no_session c then extract_models listed c else (c, true)

store_session : String → Option Fields → Client × Bool → Client × Result String
store_session s listed (c, true) =
    (record c { sessions = Dict.put c.sessions s (session_with c s listed) }, ok s)
store_session s listed (c, false) = (c, err fault)

-- "models" in result, which must be a dict
abbrev pub models_of : Fields → Result (Option Fields)
models_of result = elim (get_field "models" result) [
  | none ↦ ok none
  | some v ↦ elim (as_dict v) [ none ↦ err fault | some d ↦ ok (some d) ]
]

-- create_session from its result on, without the selection of a model; `bound` is what
-- _bind_provisional_session left.
after_binding : String → Fields → Client × Bool → Client × Result String
unfolding take_catalog store_session
after_binding s result (c, true) = (c, err fault)
after_binding s result (c, false) = elim (models_of result) [
  | err e ↦ (c, err e)
  | ok listed ↦ store_session s listed (take_catalog listed c)
]

registered : Option String → Fields → Client → Client × Result String
registered none result c = (c, err fault)
registered (some s) result c =
    after_binding s result (if c.direct then bind_provisional_session s c else (c, false))

unfoldable pub finish_create_session : Fields → Client → Client × Result String
unfolding registered after_binding bind_provisional_session
finish_create_session result c = registered (as_text (get_or_null "sessionId" result)) result c

-- _require_direct_session_catalog
abbrev pub is_consistent : SessionState → Bool
is_consistent x = elim x.model_id [
  | none ↦ false
  | some model ↦ elim x.available_model_ids [
    | none ↦ false
    | some ids ↦ not (model is "") && contains ids model
  ]
]

abbrev pub advertises : SessionState → String → Bool
advertises x model = elim x.available_model_ids [ none ↦ false | some ids ↦ contains ids model ]

unfoldable check_catalog : String → Option SessionState → Result SessionState
check_catalog model none = err fault
check_catalog model (some x) =
    if not (is_consistent x)
    then err fault
    else if not (advertises x model)
    then err fault
    else ok x

unfoldable pub require_direct_session_catalog : Client → String → String → Result SessionState
unfolding check_catalog
require_direct_session_catalog c s model = check_catalog model (Dict.get c.sessions s)

pub require_direct_session_catalog-advertises :
    (c : Client) (s model : String) {x : SessionState}
    → require_direct_session_catalog c s model ≡ ok x
    → (advertises x model ≡ true) × (Dict.get c.sessions s ≡ some x)
unfolding require_direct_session_catalog check_catalog
require_direct_session_catalog-advertises c s model e = found (Dict.get c.sessions s) refl e
  where
    tested :
        (a b : Bool) (x : SessionState) {y : SessionState}
        → (if not a then err fault else if not b then err fault else ok x) ≡ ok y
        → (b ≡ true) × (x ≡ y)
    tested a b x e = (ground arith, ground arith)

    found :
        (o : Option SessionState) {x : SessionState}
        → Dict.get c.sessions s ≡ o
        → check_catalog model o ≡ ok x
        → (advertises x model ≡ true) × (Dict.get c.sessions s ≡ some x)
    found none g e = cc
    found (some y) g e =
        let (listed, same) = tested (is_consistent y) (advertises y model) y e in
        (ap (λ z. advertises z model) (sym same) ∙ listed, g ∙ ap some same)
