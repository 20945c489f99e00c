-- ===== src/Evidence/Excess.antt =====
-- src/acp_proxy/direct_service.py, _overflow_evidence: what is kept of a prompt that exceeded a limit.
use acp_test.Base.{String, not, [], ◌∷◌, map}
use acp_test.Json.{Value, bool, int, str, arr, obj, Fields, fields, items, opt_str}
use acp_test.State.{DirectSession}
use acp_test.Protocol.{PromptRequest}
use acp_test.Evidence.{Overflow}
use acp_test.Evidence.Result.{OrderedEvent, ordered, has_type, tool_types, tool_ids, select}

-- event.model_dump(mode="json")
abbrev pub dump_event : OrderedEvent → Value
dump_event e = obj (
    fields
      (("sequence", int e.sequence) ∷ ("update_type", str e.update_type) ∷ ("raw", obj e.raw) ∷ []))

unfoldable pub retained_evidence : (Value → String) → Overflow → Fields
unfolding ordered tool_ids
retained_evidence show o = fields (
    ("ordered_events", arr (items (map dump_event (ordered show 0 o.retained_updates))))
    ∷ ("events_complete", bool (not o.event_limit_exceeded))
    ∷ (
      "observed_tool_call_ids",
      arr (
          items (
            map str
              (tool_ids show (select (has_type tool_types) (ordered show 0 o.retained_updates))))),
    )
    ∷ ("tool_activity_complete", bool (not o.event_limit_exceeded))
    ∷ ("effect_evidence", str "unavailable")
    ∷ ("usage_evidence", str "unavailable")
    ∷ [])

unfoldable pub overflow_counts : Overflow → Fields
overflow_counts o = fields (
    ("event_bytes", int o.event_bytes)
    ∷ ("response_bytes", int o.response_bytes)
    ∷ ("event_limit_exceeded", bool o.event_limit_exceeded)
    ∷ ("response_limit_exceeded", bool o.response_limit_exceeded)
    ∷ [])

unfoldable pub overflow_evidence :
    (Value → String) → DirectSession → PromptRequest → String → Overflow → Value
unfolding retained_evidence overflow_counts
overflow_evidence show s r generation_id o = obj (
    fields (
      ("logical_session_id", str s.logical_session_id)
      ∷ ("backend_session_id", opt_str s.backend_session_id)
      ∷ ("invocation_id", str r.invocation_id)
      ∷ ("continuity_generation_id", str generation_id)
      ∷ ("retained_evidence", obj (retained_evidence show o))
      ∷ ("overflow", obj (overflow_counts o))
      ∷ []))
