-- ===== src/Legacy/Sessions.antt =====
-- src/acp_proxy/server.py, _get_session: the sessions of conversations. The dict with the key of a model and a
-- hash is a dict by model of dicts by hash. The coroutine is cut at its two waits: for the new session, and
-- for the system prompt.
pub mod Reuse
use Prim.Native.String.{count}
use acp_test.Base.{
  ℕ, ◌+◌, String, Bool, true, false, not, ◌&&◌, ◌||◌, Option, none, some, List, [], ◌∷◌, length,
  ◌==◌, if◌then◌else◌,
}
use acp_test.Dict
use acp_test.Dict.{Dict}
use acp_test.Json.{Fields}
use acp_test.State.{Result, ok, err, fault, ◌>>=◌}
use acp_test.Client.{contains, add}
use acp_test.Client.Messages.{extract_first_user_message}
use acp_test.Legacy.{Tokens, estimate_tokens}

pub record Sessions : Type 0 where
  pub sessions : Dict (Dict String)
  pub initialized : List String
  pub active : List String
  pub tokens : Dict Tokens

abbrev pub no_sessions : Sessions
no_sessions = record { sessions = Dict.empty; initialized = []; active = []; tokens = Dict.empty }

abbrev pub of_model : Option (Dict String) → Dict String
of_model none = Dict.empty
of_model (some d) = d

-- _sessions.get(key)
unfoldable pub lookup : Sessions → String → String → Option String
lookup st model hash = Dict.get (of_model (Dict.get st.sessions model)) hash

-- _sessions[key] = session_id
unfoldable pub assign : String → String → String → Sessions → Sessions
assign model hash s st = record st {
  sessions = Dict.put st.sessions model (Dict.put (of_model (Dict.get st.sessions model)) hash s);
}

pub data Route : Type 0 where
  reuses : String → Route
  creates : Route

route_for : Sessions → Bool → Option String → Route
route_for st single none = creates
route_for st single (some s) = if single && contains st.active s then creates else reuses s

-- Before the first wait; `sha256` gives the hex digest of a text.
unfoldable pub choose_session : (String → String) → Sessions → String → List Fields → Result Route
unfolding route_for lookup extract_first_user_message
choose_session sha256 st model ms = do
  first ← extract_first_user_message ms
  ok (route_for st (length ms == 1) (lookup st model (sha256 first)))

-- With the new session: whether the system prompt is sent to it.
abbrev pub with_prompt : Option String → Bool
with_prompt none = false
with_prompt (some p) = not (count p == 0)

abbrev pub prompt_tokens : Option String → ℕ
prompt_tokens none = 0
prompt_tokens (some p) = estimate_tokens (count p)

abbrev initialize : String → Option String → Sessions → Sessions
initialize s system_prompt st = record st {
  initialized = s ∷ st.initialized;
  tokens = Dict.put st.tokens s (record { prompt = prompt_tokens system_prompt; completion = 0 });
}

unfoldable pub register_session :
    Option String → String → String → String → Sessions → Sessions × Bool
unfolding assign
register_session system_prompt model hash s st =
    if with_prompt system_prompt && not (contains st.initialized s)
    then (initialize s system_prompt (assign model hash s st), true)
    else (
      record (assign model hash s st) {
        tokens = Dict.put st.tokens s (record { prompt = 0; completion = 0 });
      },
      false,
    )

-- The end, after the second wait or without one
activate : Option String → Sessions → Sessions × Result String
activate none st = (st, err fault)
activate (some s) st = (record st { active = add s st.active }, ok s)

unfoldable pub finish_session : String → String → Sessions → Sessions × Result String
unfolding activate lookup
finish_session model hash st = activate (lookup st model hash) st
