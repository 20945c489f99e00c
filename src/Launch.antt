-- ===== src/Launch.antt =====
-- src/acp_proxy/__main__.py, src/acp_proxy/config.py and src/acp_proxy/copilot_auth.py: what is decided before
-- the agent starts. The environment is a dict; what files hold is an argument.
pub mod Mode
pub mod Environment
pub mod Credentials
use Prim.Native.String.{◌++◌ as ◌+++◌, len}
use acp_test.Base.{
  ℕ, String, Bool, true, false, not, ◌&&◌, ◌||◌, Option, none, some, List, [], ◌∷◌, ◌++◌, map, ltb,
  ◌is◌, any, if◌then◌else◌,
}
use acp_test.Dict
use acp_test.Dict.{Dict, is_some}
use acp_test.Json.{
  Value, str, arr, obj, Items, nil, cons, Fields, end, field, get_field, get_or_null,
}
use acp_test.State.{Result, ok, err, fault, raise_if, ◌>>=◌, ◌>>◌}
use acp_test.Client.{as_text, as_dict, as_list}
use acp_test.Client.Messages.{join}

pub data CallbackPolicy : Type 0 where
  legacy_permissive direct_deny : CallbackPolicy

pub record RunMode : Type 0 where
  pub consumer_mode : String
  pub host : String
  pub launch_secret : Option String
  pub execution_authority : Option String
  pub has_system_prompt : Bool
  pub has_limits : Bool

-- Whether ACP_PROXY_CONTAINER_BOUNDARY is 1, and whether a container is observed.
pub record Boundary : Type 0 where
  pub declared : Bool
  pub observed : Bool

abbrev pub one_of : List String → String → Bool
one_of l s = any (λ t. t is s) l

abbrev pub loopback_hosts : List String
loopback_hosts = "127.0.0.1" ∷ "::1" ∷ "localhost" ∷ []

abbrev pub is_long : Option String → Bool
is_long none = false
is_long (some s) = not (ltb (len s) 32)

abbrev pub is_authority : Option String → String → Bool
is_authority none a = false
is_authority (some b) a = b is a

check_container : Boundary → String → Result CallbackPolicy
check_container b host = do
  raise_if (not b.declared) fault
  raise_if (not b.observed) fault
  raise_if (not (one_of (loopback_hosts ++ "0.0.0.0" ∷ "::" ∷ []) host)) fault
  ok direct_deny

check_authority : RunMode → Boundary → Result CallbackPolicy
unfolding check_container
check_authority m b =
    if is_authority m.execution_authority "trusted-host"
    then (if one_of loopback_hosts m.host then ok direct_deny else err fault)
    else if is_authority m.execution_authority "confined-container"
    then check_container b m.host
    else err fault

check_direct : RunMode → Boundary → Result CallbackPolicy
unfolding check_authority
check_direct m b =
    if m.has_system_prompt
    then err fault
    else if not (is_long m.launch_secret)
    then err fault
    else check_authority m b

-- _validate_run_mode
unfoldable pub validate_run_mode : RunMode → Boundary → Result CallbackPolicy
unfolding check_direct
validate_run_mode m b =
    if m.consumer_mode is "opencode-legacy"
    then (if is_some m.execution_authority || m.has_limits then err fault else ok legacy_permissive)
    else if m.consumer_mode is "meadow-direct"
    then check_direct m b
    else err fault

-- _validate_mode_options: the secret of the direct mode; `secret` is what the environment has.
abbrev pub mode_of : RunMode → Option String → RunMode
mode_of m secret = record m {
  launch_secret = if m.consumer_mode is "meadow-direct" then secret else none;
  has_limits = false;
}

unfoldable pub validate_mode_options :
    RunMode → Bool → Option String → Boundary → Result (Option String)
unfolding validate_run_mode
validate_mode_options m has_context_files secret b =
    if (m.consumer_mode is "meadow-direct") && has_context_files
    then err fault
    else (validate_run_mode (mode_of m secret) b >>= λ policy. ok (mode_of m secret).launch_secret)

-- build_subprocess_env
abbrev pub proxy_vars : List String
proxy_vars =
    "HTTP_PROXY" ∷ "http_proxy" ∷ "HTTPS_PROXY" ∷ "https_proxy" ∷ "NO_PROXY" ∷ "no_proxy" ∷ []

-- {k.lower(): v …}: of two keys that agree the later one counts; `lower` is str.lower.
unfoldable pub text_entries : (String → String) → Fields → Dict String → Dict String
text_entries lower end d = d
text_entries lower (field k (str v) l) d = text_entries lower l (Dict.put d (lower k) v)
text_entries lower (field k _ l) d = text_entries lower l d

abbrev pub chosen : Option String → Option String
chosen none = none
chosen (some v) = if v is "" then none else some v

set_missing : String → Option String → Dict String → Dict String
set_missing k none env = env
set_missing k (some v) env = if is_some (Dict.get env k) then env else Dict.put env k v

unfoldable pub set_proxies :
    (String → String) → Dict String → List String → Dict String → Dict String
unfolding set_missing
set_proxies lower config [] env = env
set_proxies lower config (k ∷ ks) env =
    set_proxies lower config ks (set_missing k (chosen (Dict.get config (lower k))) env)

unfoldable pub build_subprocess_env : (String → String) → Fields → Dict String → Dict String
unfolding set_proxies text_entries
build_subprocess_env lower cfg env =
    set_proxies lower (text_entries lower cfg Dict.empty) proxy_vars env

-- get_context_files
abbrev pub default_context_files : List String
default_context_files = "AGENTS.md" ∷ "CLAUDE.md" ∷ "COPILOT-INSTRUCTIONS.md" ∷ []

unfoldable pub texts_of : Items → List String
texts_of nil = []
texts_of (cons (str s) l) = s ∷ texts_of l
texts_of (cons _ l) = texts_of l

abbrev pub files_or_default : Option Items → List String
unfolding texts_of
files_or_default none = default_context_files
files_or_default (some l) = texts_of l

unfoldable pub get_context_files : Fields → List String
unfolding files_or_default
get_context_files cfg = files_or_default (as_list (get_or_null "context_files" cfg))

-- load_context_files: `read` gives the text of a file that is there and can be read, and `is_blank` is that
-- nothing is left of a text by str.strip.
unfoldable pub load_context_files :
    (String → Option String) → (String → Bool) → List String → List (String × String)
load_context_files read is_blank [] = []
load_context_files read is_blank (name ∷ names) =
    let rest = load_context_files read is_blank names in
    elim (read name) [
      | none ↦ rest
      | some content ↦ if is_blank content then rest else (name, content) ∷ rest
    ]

abbrev pub titled : String × String → String
titled (name, content) = "# " +++ name +++ "\n\n" +++ content

abbrev pub composed : List String → Option String
unfolding join
composed [] = none
composed (s ∷ l) = some (join "\n\n---\n\n" (s ∷ l))

-- compose_system_prompt
unfoldable pub compose_system_prompt :
    (String → Option String) → (String → Bool) → Option String → Fields → Option String
unfolding composed load_context_files get_context_files
compose_system_prompt read is_blank explicit cfg = composed (
    elim (chosen explicit) [ none ↦ [] | some s ↦ s ∷ [] ]
    ++ map titled (load_context_files read is_blank (get_context_files cfg)))

-- _extract_oauth_token: `none` is CopilotOAuthCredentialError.
abbrev pub also : Option (List String) → Option (List String) → Option (List String)
also none rest = none
also (some l) none = none
also (some l) (some m) = some (l ++ m)

abbrev pub access_token : Option Fields → Option (List String)
access_token none = none
access_token (some account) = elim (chosen (as_text (get_or_null "accessToken" account))) [
  | none ↦ none
  | some t ↦ some (t ∷ [])
]

unfoldable pub account_tokens : Items → Option (List String)
account_tokens nil = some []
account_tokens (cons v l) = also (access_token (as_dict v)) (account_tokens l)

abbrev pub authority_tokens : Option Items → Option (List String)
unfolding account_tokens
authority_tokens none = none
authority_tokens (some l) = account_tokens l

unfoldable pub document_tokens : Fields → Option (List String)
unfolding authority_tokens
document_tokens end = some []
document_tokens (field k v l) = also (authority_tokens (as_list v)) (document_tokens l)

abbrev pub only : Option (List String) → Option String
only (some (t ∷ [])) = some t
only _ = none

unfoldable pub extract_oauth_token : Value → Option String
unfolding document_tokens
extract_oauth_token (obj d) = only (document_tokens d)
extract_oauth_token _ = none
