-- ===== src/Service/Pin.antt =====
-- src/acp_proxy/direct_service.py: the pin of a request to a continuity generation.
use acp_test.Base.{ℕ, String, ◌||◌, not, ◌==◌, ◌is◌}
use acp_test.State.{generation_mismatch, Result, ok, raise_if, ◌>>◌}
use acp_test.Protocol.{direct_protocol_major}
use acp_test.Service.{Service, AcpClient}

-- _transport_alive and _ensure_available
unfoldable pub ensure_available : Service → AcpClient → Result (Unit {0})
ensure_available s client = raise_if (not s.available || not client.is_alive) generation_mismatch

-- _check_pin: the reference to the current generation
unfoldable pub check_pin : Service → AcpClient → ℕ → String → Result ℕ
unfolding ensure_available
check_pin s client major id = do
  raise_if (not (major == direct_protocol_major)) generation_mismatch
  raise_if (not (id is (s.store s.current).generation_id)) generation_mismatch
  ensure_available s client
  ok s.current

-- _require_current_generation
unfoldable pub require_current_generation : Service → ℕ → Result (Unit {0})
require_current_generation s g =
    raise_if (not (g == s.current) || (s.store g).quarantined) generation_mismatch
