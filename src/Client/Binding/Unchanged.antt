-- ===== src/Client/Binding/Unchanged.antt =====
-- src/acp_proxy/client.py: the binding of a model leaves the queues, the budgets and the
-- phases of a client as they are.
use acp_test.Base.{refl, String, arith}
use acp_test.Client.{Client, SessionState, DirectModelBindingStrategy}
use acp_test.Client.Bounds.{Same, Same-trans}
use acp_test.Client.Binding.{
  Answer, Bound, expect_model, finish_create_session_exact, check_bound, check_model,
  finish_bind_direct_model, finish_set_config_option, finish_set_model, check_observed,
}

pub expect_model-Same : (s model : String) (c : Client) → Same c (expect_model s model c)
unfolding expect_model Same
expect_model-Same s model c = (refl, refl, refl, refl)

finish_bind_direct_model-Same :
    (strategy : DirectModelBindingStrategy) (s model : String) (answer : Answer) (c : Client)
    → Same c (finish_bind_direct_model strategy s model answer c).0
unfolding finish_bind_direct_model finish_set_config_option finish_set_model check_observed Same
finish_bind_direct_model-Same strategy s model answer c =
    (ground arith, ground arith, ground arith, ground arith)

check_bound-Same :
    (s model : String) (x : SessionState) (r : Client × Bound)
    → Same r.0 (check_bound s model x r).0
unfolding check_bound check_model Same
check_bound-Same s model x r = (ground arith, ground arith, ground arith, ground arith)

pub finish_create_session_exact-Same :
    (x : SessionState) (strategy : DirectModelBindingStrategy) (s model : String) (answer : Answer)
    (c : Client)
    → Same c (finish_create_session_exact x strategy s model answer c).0
unfolding finish_create_session_exact
finish_create_session_exact-Same x strategy s model answer c =
    let r = finish_bind_direct_model strategy s model answer c in
    Same-trans c r.0 (check_bound s model x r).0
      (finish_bind_direct_model-Same strategy s model answer c) (check_bound-Same s model x r)
