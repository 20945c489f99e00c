-- ===== src/Examples/Messages.antt =====
-- Examples of the transport: one request, its response, and a malformed message.
use acp_test.Base.{◌≡◌, ◌⊎◌, refl, true, false, none, [], ◌∷◌}
use acp_test.Json.{str, int, obj, end, Fields, fields}
use acp_test.Transport.{Transport, Reply, acp_error, fail_closed, Observers, dispatch, send_request}
use acp_test.Transport.Envelope.{Numbers, valid_strict_envelope, valid_strict_response}
use acp_test.Transport.Correlation.{Answers, dispatch-send_request}

abbrev pub idle : Transport
idle = record {
  started = true;
  next_id = 1;
  pending = [];
  replies = [];
  incoming = [];
  closed = false;
  failed = false;
  strict_response_correlation = true;
  close_notices = 0;
  notifications = [];
}

abbrev pub numbers : Numbers
numbers = record { is_integer = λ s. false; equals = λ s. none }

abbrev observers : Observers
observers = record {
  handles_requests = true;
  revokes_at_request = λ m. false;
  revokes_at_response = λ m. false;
  reason = "revoked";
}

abbrev response : Fields
response = fields (("jsonrpc", str "2.0") ∷ ("id", int 1) ∷ ("result", obj end) ∷ [])

abbrev malformed_message : Fields
malformed_message = fields (("id", int 1) ∷ ("result", obj end) ∷ [])

abbrev asked : Transport
asked = send_request "session/new" none idle

-- The response with an error, and the one with a result.
abbrev error_response : Fields
error_response = fields (("jsonrpc", str "2.0") ∷ ("id", int 1) ∷ ("error", obj (fields [])) ∷ [])

settled_by_error :
    (dispatch numbers observers error_response asked).replies
    ≡ (1, acp_error (str "Unknown error") end) ∷ []
unfolding dispatch send_request valid_strict_envelope valid_strict_response
settled_by_error = refl

dispatch-send_request_example :
    ((observers.revokes_at_response response ≡ true)
      × (dispatch numbers observers response asked ≡ fail_closed "revoked" asked))
    ⊎ ((observers.revokes_at_response response ≡ false)
        × ((r : Reply) × Answers response r
            × (dispatch numbers observers response asked
                ≡ record idle { next_id = 2; replies = (1, r) ∷ [] })))
unfolding valid_strict_envelope valid_strict_response
dispatch-send_request_example =
    dispatch-send_request numbers observers response idle "session/new" none refl refl refl refl
      refl refl refl
