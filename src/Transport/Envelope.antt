-- ===== src/Transport/Envelope.antt =====
-- src/acp_proxy/transport.py: the validation of an incoming message, _valid_strict_envelope and
-- _valid_strict_response.
use acp_test.Base.{ℕ, String, Bool, true, false, not, ◌&&◌, ◌||◌, Option, ◌is◌, if◌then◌else◌}
use acp_test.Dict.{is_some}
use acp_test.Json.{Value, int, literal, str, obj, Fields, get_field, get_or_null, is_str}

-- Python's numbers that are no natural: whether the text is an integer's, and the natural that it equals.
pub record Numbers : Type 0 where
  pub is_integer : String → Bool
  pub equals : String → Option ℕ

abbrev pub has : String → Fields → Bool
has k m = is_some (get_field k m)

-- type(value) is int
abbrev pub is_int : Numbers → Value → Bool
is_int n (int k) = true
is_int n (literal s) = n.is_integer s
is_int n _ = false

abbrev pub is_dict : Value → Bool
is_dict (obj fields) = true
is_dict _ = false

abbrev pub is_nonempty_str : Value → Bool
is_nonempty_str (str s) = not (s is "")
is_nonempty_str _ = false

-- _valid_strict_response
unfoldable pub valid_strict_response : Numbers → Fields → Bool
valid_strict_response n m =
    is_str (get_or_null "jsonrpc" m) "2.0"
    && is_int n (get_or_null "id" m)
    && (if has "result" m
        then not (has "error" m)
        else has "error" m && is_dict (get_or_null "error" m))

-- _valid_strict_envelope
unfoldable pub valid_strict_envelope : Numbers → Fields → Bool
unfolding valid_strict_response
valid_strict_envelope n m =
    is_str (get_or_null "jsonrpc" m) "2.0"
    && (if not (has "method" m)
        then has "id" m && valid_strict_response n m
        else is_nonempty_str (get_or_null "method" m)
          && not (has "result" m || has "error" m)
          && (not (has "params" m) || is_dict (get_or_null "params" m))
          && (not (has "id" m)
              || is_int n (get_or_null "id" m)
              || is_nonempty_str (get_or_null "id" m)))
