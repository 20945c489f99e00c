-- ===== src/Examples/Legacy.antt =====
-- Examples of the probe of a version, of a completion, of the sessions of conversations and of the launch.
use acp_test.Base.{
  String, ◌≡◌, refl, true, false, none, some, List, [], ◌∷◌, length, ◌==◌, if◌then◌else◌, ◌⊎◌,
}
use acp_test.Json.{str, bool, arr, obj, items, Fields, fields}
use acp_test.State.{ok, err, fault}
use acp_test.Dict
use acp_test.Launch.{
  RunMode, Boundary, validate_run_mode, is_long, build_subprocess_env, one_of, proxy_vars,
  extract_oauth_token,
}
use acp_test.Launch.Mode.{Confined, validate_run_mode-Confined}
use acp_test.Launch.Environment.{build_subprocess_env-get}
use acp_test.Discovery.{Version}
use acp_test.Discovery.Probe.{
  Read, chunk, read_stdout, parse_version, format_version, probe_binary_version,
}
use acp_test.Discovery.Probe.Loop.{Kept, content, read_stdout-ends}
use acp_test.Discovery.Probe.RoundTrip.{parse_version-format_version}
use acp_test.Client.Messages.{extract_first_user_message, extract_text}
use acp_test.Legacy.{Item, yields, collect, stream}
use acp_test.Legacy.Agreement.{Agrees, collect-stream}
use acp_test.Legacy.Sessions.{
  Sessions, no_sessions, choose_session, register_session, finish_session, reuses, creates,
}
use acp_test.Legacy.Sessions.Reuse.{choose_session-finish_session, choose_session-register_session}

abbrev two_reads : List Read
two_reads = chunk (49 ∷ 46 ∷ 53 ∷ []) ∷ chunk (49 ∷ 56 ∷ 46 ∷ 51 ∷ 10 ∷ []) ∷ []

read_stdout-ends_example : Kept (content two_reads) (read_stdout 258 two_reads [])
read_stdout-ends_example = read_stdout-ends two_reads

abbrev newer : Version
newer = record { major = 1; minor = 520; patch = 0 }

parse_version-format_version_example : parse_version (format_version newer) ≡ some newer
parse_version-format_version_example = parse_version-format_version newer

-- A version with a leading zero is refused.
leading_zero : parse_version (48 ∷ 49 ∷ 46 ∷ 50 ∷ 46 ∷ 51 ∷ []) ≡ none
unfolding parse_version
leading_zero = refl

printed_version :
    probe_binary_version
      (record { starts = true; reads = two_reads; closes_in_time = true; return_code = some 0 })
    ≡ some (record { major = 1; minor = 518; patch = 3 })
unfolding probe_binary_version
printed_version = refl

abbrev says_hello : Fields
says_hello = fields (
    ("sessionUpdate", str "agent_message_chunk")
    ∷ ("content", obj (fields (("type", str "text") ∷ ("text", str "hello") ∷ [])))
    ∷ [])

abbrev last_of_turn : Fields
last_of_turn = fields (("done", bool true) ∷ ("stopReason", str "max_tokens") ∷ [])

abbrev turn : List Item
turn = yields says_hello ∷ yields says_hello ∷ yields last_of_turn ∷ []

collect-stream_example : Agrees "" 0 "hellohello" "length" (stream turn 0)
unfolding collect
collect-stream_example = collect-stream turn "" 0 "hellohello" "length" refl

abbrev question : List Fields
question = fields (("role", str "user") ∷ ("content", str "a") ∷ []) ∷ []

abbrev given : Sessions
given = (register_session none "m" "a" "s" no_sessions).0

choose_session-finish_session_example :
    ((finish_session "m" "a" given).1 ≡ ok "s")
    × (choose_session (λ t. t) (finish_session "m" "a" given).0 "m" question
        ≡ ok (if length question == 1 then creates else reuses "s"))
unfolding extract_first_user_message extract_text
choose_session-finish_session_example =
    choose_session-finish_session (λ t. t) none no_sessions "m" "s" question refl

choose_session-register_session_example :
    ((register_session (some "Be brief.") "m" "a" "s" no_sessions).1 ≡ true)
    × (choose_session
          (λ t. t)
          (register_session (some "Be brief.") "m" "a" "s" no_sessions).0
          "m"
          question
        ≡ ok (reuses "s"))
unfolding extract_first_user_message extract_text
choose_session-register_session_example =
    choose_session-register_session (λ t. t) (some "Be brief.") no_sessions "m" "s" question refl
      refl refl refl

abbrev direct_mode : RunMode
direct_mode = record {
  consumer_mode = "meadow-direct";
  host = "127.0.0.1";
  launch_secret = some "0123456789abcdef0123456789abcdef";
  execution_authority = some "trusted-host";
  has_system_prompt = false;
  has_limits = false;
}

abbrev no_container : Boundary
no_container = record { declared = false; observed = false }

validate_run_mode-Confined_example :
    (direct_mode.consumer_mode ≡ "meadow-direct")
    × (direct_mode.has_system_prompt ≡ false)
    × (is_long direct_mode.launch_secret ≡ true)
    × Confined direct_mode no_container
unfolding validate_run_mode
validate_run_mode-Confined_example = validate_run_mode-Confined direct_mode no_container refl

-- An open host is refused to a trusted one.
open_host : validate_run_mode (record direct_mode { host = "0.0.0.0" }) no_container ≡ err fault
unfolding validate_run_mode
open_host = refl

abbrev proxy_config : Fields
proxy_config = fields (("https_proxy", str "proxy") ∷ [])

build_subprocess_env-get_example :
    (Dict.get (build_subprocess_env (λ k. "https_proxy") proxy_config Dict.empty) "HTTPS_PROXY"
      ≡ Dict.get (Dict.empty {V = String}) "HTTPS_PROXY")
    ⊎ ((Dict.get (Dict.empty {V = String}) "HTTPS_PROXY" ≡ none)
        × (one_of proxy_vars "HTTPS_PROXY" ≡ true))
build_subprocess_env-get_example =
    build_subprocess_env-get (λ k. "https_proxy") proxy_config Dict.empty "HTTPS_PROXY"

-- One account alone has the token.
one_account :
    extract_oauth_token (
      obj (fields (("host", arr (items (obj (fields (("accessToken", str "t") ∷ [])) ∷ []))) ∷ [])))
    ≡ some "t"
unfolding extract_oauth_token
one_account = refl
