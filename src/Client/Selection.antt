-- ===== src/Client/Selection.antt =====
-- src/acp_proxy/client.py: the selection of a model outside the direct mode, and the compatibility calls. Each
-- request is cut at its wait.
use acp_test.Base.{String, Bool, true, false, Option, some, List, [], ◌∷◌}
use acp_test.Dict
use acp_test.Dict.{is_some}
use acp_test.Client.{Client}
use acp_test.Client.Integrity.{bound_model}
use acp_test.Client.Binding.{
  Answer, Bound, settled, raised, unacknowledged, acp, broken, finish_set_config_option,
  finish_set_model, set_session_model, acknowledged,
}

-- acknowledge_session_model from its answer on, for a session that was known when it asked
unfoldable pub may_acknowledge : Client → String → Bool
may_acknowledge c s = is_some (Dict.get c.sessions s)

unfoldable pub finish_acknowledge : String → String → Answer → Client → Client × Bound
unfolding finish_set_config_option
finish_acknowledge s model answer c = acknowledged (finish_set_config_option s model answer c)

-- _settle_compatibility_model after its first request: it is over, or the other method is asked, with the
-- model that the session had.
pub data Settlement : Type 0 where
  over : Client × Bound → Settlement
  asks_again : Option String → Client → Settlement

unfoldable pub settle_first : String → Client × Bound → Settlement
settle_first s (c, raised (acp true)) = asks_again (bound_model (Dict.get c.sessions s)) c
settle_first s (c, raised (acp false)) = over (c, raised unacknowledged)
settle_first s (c, raised unacknowledged) = over (c, raised unacknowledged)
settle_first s (c, raised broken) = over (c, raised broken)
settle_first s (c, settled) = over (c, settled)

unfoldable pub begin_compatibility : String → String → Answer → Client → Settlement
unfolding settle_first finish_set_model
begin_compatibility s model answer c = settle_first s (finish_set_model s model answer c)

-- After its second request: a model that is not acknowledged leaves the prior one.
unfoldable pub settle_second : String → Option String → Client × Bound → Client × Bound
settle_second s prior (c, raised unacknowledged) =
    (set_session_model s prior c, raised unacknowledged)
settle_second s prior (c, raised (acp unknown)) = (c, raised unacknowledged)
settle_second s prior (c, raised broken) = (c, raised broken)
settle_second s prior (c, settled) = (c, settled)

unfoldable pub finish_compatibility :
    String → String → Option String → Answer → Client → Client × Bound
unfolding settle_second finish_set_config_option
finish_compatibility s model prior answer c =
    settle_second s prior (finish_set_config_option s model answer c)

-- _try_set_model: what each of its two methods gives.
pub data Attempt : Type 0 where
  accepted not_found refused interrupted : Attempt

pub data Tried : Type 0 where
  selected : Client → Tried
  rejected unsupported cut : Tried

unfoldable pub try_set_model : String → String → List Attempt → Client → Tried
try_set_model s model [] c = unsupported
try_set_model s model (accepted ∷ rest) c = selected (set_session_model s (some model) c)
try_set_model s model (not_found ∷ rest) c = try_set_model s model rest c
try_set_model s model (refused ∷ rest) c = rejected
try_set_model s model (interrupted ∷ rest) c = cut
