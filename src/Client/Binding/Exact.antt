-- ===== src/Client/Binding/Exact.antt =====
-- src/acp_proxy/client.py, create_session_exact: what a session is that it returns.
use acp_test.Base.{◌≡◌, refl, String, true, Option, none, some, arith, eq_iff, ap, sym, ◌∙◌}
use acp_test.Dict
use acp_test.Dict.{get-modify, is_some}
use acp_test.Json.{Value}
use acp_test.State.{Result, ok, err}
use acp_test.Client.{
  Client, SessionState, DirectModelBindingStrategy, standard_config, copilot_set_model,
}
use acp_test.Client.Creation.{
  require_direct_session_catalog, advertises, require_direct_session_catalog-advertises,
}
use acp_test.Client.Binding.{
  wait_for, acknowledged, unacknowledged, acp, broken, check_model, Answer, answered, rejected,
  lost, Bound, settled, raised, begin_bind, finish_create_session_exact, check_bound,
  finish_bind_direct_model, finish_set_config_option, finish_set_model, check_observed,
  model_from_config_options, held,
}

begin_bind-advertises :
    (s model : String) (c : Client) {waiting : Client} {x : SessionState}
    {strategy : DirectModelBindingStrategy}
    → begin_bind s model c ≡ ok (x, strategy, waiting)
    → (advertises x model ≡ true) × (Dict.get c.sessions s ≡ some x) × (c.strategy ≡ some strategy)
unfolding begin_bind wait_for
begin_bind-advertises s model c {waiting} {x} {strategy} e =
    listed (require_direct_session_catalog c s model) c.strategy refl refl e
  where
    listed :
        (r : Result SessionState) (o : Option DirectModelBindingStrategy)
        → require_direct_session_catalog c s model ≡ r
        → c.strategy ≡ o
        → wait_for s model r o c ≡ ok (x, strategy, waiting)
        → (advertises x model ≡ true)
          × (Dict.get c.sessions s ≡ some x)
          × (c.strategy ≡ some strategy)
    listed (err i) o g h e = cc
    listed (ok y) none g h e = cc
    listed (ok y) (some t) g h e =
        let same : some t ≡ some strategy = ground arith in
        let (advertised, found) =
          require_direct_session_catalog-advertises c s model (g ∙ ground arith) in
        (advertised, found, h ∙ same)

acknowledged-settled :
    (r : Client × Bound) {after : Client} → acknowledged r ≡ (after, settled) → r ≡ (after, settled)
acknowledged-settled (c, settled) e = e
acknowledged-settled (c, raised (acp b)) e = cc
acknowledged-settled (c, raised unacknowledged) e = cc
acknowledged-settled (c, raised broken) e = cc

check_model-settled :
    (model : String) (o : Option String) (c : Client) {after : Client}
    → check_model model o c ≡ (after, settled)
    → (c ≡ after) × (o ≡ some model)
unfolding check_model
check_model-settled model none c e = cc
check_model-settled model (some bound) c e = (ground arith, ground (arith, eq_iff bound model))

check_bound-settled :
    (s model : String) (x : SessionState) (r : Client × Bound) {after : Client}
    → check_bound s model x r ≡ (after, settled)
    → (r ≡ (after, settled)) × ((held x (Dict.get after.sessions s)).model_id ≡ some model)
unfolding check_bound
check_bound-settled s model x (c, raised e) h = cc
check_bound-settled s model x (c, settled) h =
    let (same, bound) = check_model-settled model _ c h in
    (
      ap (λ k. (k, settled)) same,
      ap (λ k. (held x (Dict.get k.sessions s)).model_id) (sym same) ∙ bound,
    )

-- The strategy's request was answered, under the standard one with the requested model itself.
pub Acknowledged : DirectModelBindingStrategy → String → Answer → Type 0
Acknowledged standard_config model answer =
    (result : Value) × (answer ≡ answered result) × (model_from_config_options result ≡ some model)
Acknowledged copilot_set_model model answer = (result : Value) × (answer ≡ answered result)

check_observed-settled :
    (s model : String) (o : Option String) (c : Client) {after : Client}
    → check_observed s model o c ≡ (after, settled)
    → o ≡ some model
unfolding check_observed
check_observed-settled s model none c e = cc
check_observed-settled s model (some observed) c e = ground (arith, eq_iff observed model)

finish_bind_direct_model-settled :
    (strategy : DirectModelBindingStrategy) (s model : String) (answer : Answer) (c : Client)
    {after : Client}
    → finish_bind_direct_model strategy s model answer c ≡ (after, settled)
    → Acknowledged strategy model answer
unfolding finish_bind_direct_model finish_set_config_option finish_set_model Acknowledged
finish_bind_direct_model-settled standard_config s model (answered result) c e =
    (result, refl, check_observed-settled s model _ _ (acknowledged-settled _ e))
finish_bind_direct_model-settled standard_config s model (rejected b) c e = cc
finish_bind_direct_model-settled standard_config s model lost c e = cc
finish_bind_direct_model-settled copilot_set_model s model (answered result) c e = (result, refl)
finish_bind_direct_model-settled copilot_set_model s model (rejected b) c e = cc
finish_bind_direct_model-settled copilot_set_model s model lost c e = cc

-- A session that create_session_exact returns was created with a catalog that lists the requested model, the
-- agent has acknowledged the binding by the frozen strategy, and the session is bound to that model; `during`
-- is the client when the answer arrives.
pub begin_bind-finish_create_session_exact :
    (s model : String) (answer : Answer) (c waiting during : Client) {after : Client}
    {x : SessionState} {strategy : DirectModelBindingStrategy}
    → begin_bind s model c ≡ ok (x, strategy, waiting)
    → finish_create_session_exact x strategy s model answer during ≡ (after, settled)
    → (Dict.get c.sessions s ≡ some x)
      × (advertises x model ≡ true)
      × (c.strategy ≡ some strategy)
      × Acknowledged strategy model answer
      × ((held x (Dict.get after.sessions s)).model_id ≡ some model)
unfolding finish_create_session_exact
begin_bind-finish_create_session_exact s model answer c waiting during e f =
    let (listed, found, frozen) = begin_bind-advertises s model c e in
    let (bound, same) = check_bound-settled s model _ _ f in
    (found, listed, frozen, finish_bind_direct_model-settled _ s model answer during bound, same)
