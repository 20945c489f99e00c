-- ===== src/Examples/Parts.antt =====
-- Tests and examples of the retention of evidence, of the HTTP surface and of the choice of a binary.
use Prim.Native.String.{◌++◌ as ◌+++◌}
use acp_test.Base.{
  Bool, Option, ◌↔◌, if◌then◌else◌, ◌≤◌, String, ◌≡◌, refl, true, false, none, some, List, [], ◌∷◌,
  ◌++◌, map, length, ◌is◌,
}
use acp_test.Json.{str, bool, obj, fields, Fields}
use acp_test.Protocol.{default_limits}
use acp_test.State.{ready, accepted, DirectSession}
use acp_test.Evidence.{
  collect_update, Python, Item, update, raises, collect_prompt, start, utf8_prefix,
}
use acp_test.Evidence.Bounds.{Read, collect_prompt-Read}
use acp_test.Evidence.Result.{response_text, add_tool_id, PromptResult, normalize_result}
use acp_test.Evidence.Order.{
  normalize_result-ordered, normalize_result-is_unique, is_unique, count_from,
}
use acp_test.Server.{authenticate}
use acp_test.Server.Body.{
  Message, request, disconnect, limit_body, limit_body-replays, body_total, known, is_complete,
  replays,
}
use acp_test.Server.Routes.{authenticate_secret}
use acp_test.Discovery.{
  inspect_binary, best, better, Platform, select_best_binary, BinaryAdmission, version_lt, admitted,
  canonical_paths,
}
use acp_test.Discovery.Best.{select_best_binary-Observed, In, Observed}
use acp_test.Examples.{prompt_of, session_in, first_prompt}

abbrev python : Python
python = record { dumps_update = λ u. "{}"; show = λ v. "value" }

abbrev message_update : Fields
message_update = fields (
    ("sessionUpdate", str "agent_message_chunk")
    ∷ ("content", obj (fields (("type", str "text") ∷ ("text", str "hello") ∷ [])))
    ∷ [])

abbrev tool_update : Fields
tool_update = fields (("sessionUpdate", str "tool_call") ∷ ("toolCallId", str "call") ∷ [])

abbrev last_update : Fields
last_update = fields (("done", bool true) ∷ ("stopReason", str "end_turn") ∷ [])

abbrev updates : List Fields
updates = message_update ∷ tool_update ∷ tool_update ∷ []

abbrev stream : List Item
stream = update message_update ∷ update tool_update ∷ update last_update ∷ raises ∷ []

collect_prompt-Read_example :
    Read python default_limits true start stream (message_update ∷ tool_update ∷ [])
unfolding collect_prompt collect_update
collect_prompt-Read_example = collect_prompt-Read python default_limits true stream refl

-- A character of two bytes is not cut.
prefix_whole : utf8_prefix "aé" 2 ≡ "a"
unfolding utf8_prefix
prefix_whole = refl

abbrev bound_session : DirectSession
bound_session = record (session_in ready) { backend_session_id = some "backend" }

abbrev built : PromptResult
built = record {
  logical_session_id = "session";
  backend_session_id = "backend";
  invocation_id = "invocation";
  operation_id = "prompt";
  continuity_generation_id = "first";
  model_id = "model";
  response_text = "hello";
  acp_stop_reason = "end_turn";
  events =
      record { sequence = 0; update_type = "agent_message_chunk"; raw = message_update }
      ∷ record { sequence = 1; update_type = "tool_call"; raw = tool_update }
      ∷ record { sequence = 2; update_type = "tool_call"; raw = tool_update }
      ∷ [];
  tool_call_ids = "call" ∷ [];
  tool_events =
      record { sequence = 1; update_type = "tool_call"; raw = tool_update }
      ∷ record { sequence = 2; update_type = "tool_call"; raw = tool_update }
      ∷ [];
  permission_events = [];
  effect_evidence = "unavailable";
  usage_availability = "unavailable";
  instruction_submission = "submitted_once";
  stable_instruction_digest = "stable";
  output_contract_digest = "contract";
}

normalize_result-ordered_example :
    (map (λ e. e.raw) built.events ≡ updates)
    × (map (λ e. e.sequence) built.events ≡ count_from 0 (length updates))
unfolding normalize_result response_text add_tool_id
normalize_result-ordered_example =
    normalize_result-ordered (λ v. "value") "first" (prompt_of accepted) bound_session first_prompt
      updates "end_turn" {res = built} refl

normalize_result-is_unique_example : is_unique built.tool_call_ids ≡ true
unfolding normalize_result response_text add_tool_id
normalize_result-is_unique_example =
    normalize_result-is_unique (λ v. "value") "first" (prompt_of accepted) bound_session
      first_prompt updates "end_turn" {res = built} refl

abbrev body : List Message
body = request "abc" true ∷ request "de" false ∷ disconnect ∷ []

limit_body-replays_example :
    (read : List Message) × (rest : List Message) × (body ≡ read ++ rest)
    × (body_total read ≤ 5)
    × (is_complete (known read) ≡ true)
    × (replays 2 (request "abc" true ∷ request "de" false ∷ []) ≡ known read)
unfolding limit_body
limit_body-replays_example =
    limit_body-replays 5 body {ms = request "abc" true ∷ request "de" false ∷ []} refl

abbrev compare_text : String → String → Option Bool
compare_text a b = some (a is b)

authenticate_secret_example :
    (authenticate compare_text "secret" none ≡ some false)
    × ((authenticate compare_text "secret" (some "Bearer secret") ≡ some true)
        ↔ (("Bearer secret" ≡ "Bearer " +++ "secret") × (("secret" is "") ≡ false) × (true ≡ true)))
authenticate_secret_example =
    authenticate_secret compare_text (λ s. true) "secret" "Bearer secret" (λ a b. refl)

abbrev platform : Platform
platform = record {
  canonical = λ p. some p;
  is_executable = λ p. true;
  probe = λ p.
      if p is "/new"
      then some (record { major = 1; minor = 600; patch = 0 })
      else if p is "/floor"
      then some (record { major = 1; minor = 518; patch = 3 })
      else some (record { major = 1; minor = 518; patch = 2 });
}

abbrev paths : List String
paths = "/old" ∷ "/floor" ∷ "/new" ∷ "/floor" ∷ []

select_best_binary-Observed_example :
    (a : BinaryAdmission) × (a.path ≡ "/new")
    × Observed platform a
    × ((b : BinaryAdmission)
        → In b (admitted platform (canonical_paths platform paths))
        → version_lt a.version b.version ≡ false)
unfolding select_best_binary canonical_paths admitted inspect_binary version_lt best better
select_best_binary-Observed_example = select_best_binary-Observed platform paths true "/new" refl
