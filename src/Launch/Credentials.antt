-- ===== src/Launch/Credentials.antt =====
-- src/acp_proxy/copilot_auth.py and src/acp_proxy/__main__.py: where a prior credential stands and when it is
-- given to the agent, and the environment of the agent in the direct mode. `Paths` is posixpath and ntpath;
-- `upper` is str.upper.
use acp_test.Base.{
  String, Bool, false, not, ◌&&◌, ◌||◌, Option, none, some, List, [], ◌∷◌, any, ◌is◌, if◌then◌else◌,
}
use acp_test.Dict
use acp_test.Dict.{Dict}
use acp_test.Json.{Value}
use acp_test.Launch.{chosen, one_of, extract_oauth_token}

pub record Paths : Type 0 where
  pub is_absolute : String → Bool
  pub posix_join : String → List String → String
  pub nt_join : String → List String → String

pub data System : Type 0 where
  windows darwin posix other : System

abbrev pub absolute : Paths → Option String → Option String
absolute p none = none
absolute p (some s) = if s is "" then none else if p.is_absolute s then some s else none

abbrev pub joined : (String → List String → String) → Option String → List String → Option String
joined join none parts = none
joined join (some root) parts = some (join root parts)

abbrev pub first_of : Option String → Option String → Option String
first_of none o = o
first_of (some s) o = some s

abbrev pub in_copilot : List String
in_copilot = "github-copilot" ∷ "oauth.json" ∷ []

-- copilot_oauth_path: `none` is CopilotOAuthCredentialError.
unfoldable pub copilot_oauth_path : Paths → Dict String → System → Option String
copilot_oauth_path p env posix =
    joined p.posix_join (absolute p (Dict.get env "XDG_CONFIG_HOME")) in_copilot
copilot_oauth_path p env other = none
copilot_oauth_path p env darwin =
    joined p.posix_join
      (first_of (absolute p (Dict.get env "XDG_CONFIG_HOME"))
        (joined p.posix_join (chosen (Dict.get env "HOME")) (".config" ∷ [])))
      in_copilot
copilot_oauth_path p env windows =
    joined p.nt_join
      (first_of (chosen (Dict.get env "LOCALAPPDATA"))
        (joined p.nt_join (chosen (Dict.get env "USERPROFILE")) ("AppData" ∷ "Local" ∷ [])))
      in_copilot

abbrev pub token_names : List String
token_names = "GH_COPILOT_TOKEN" ∷ "GITHUB_COPILOT_TOKEN" ∷ []

abbrev pub is_token_name : (String → String) → System → String → Bool
is_token_name upper windows k = one_of token_names (upper k)
is_token_name upper _ k = one_of token_names k

abbrev pub has_token : (String → String) → System → List (String × String) → Bool
has_token upper system [] = false
has_token upper system ((k, v) ∷ entries) =
    (is_token_name upper system k && not (v is "")) || has_token upper system entries

-- inject_prior_copilot_oauth: `document` is what the file at a path holds, `none` where it cannot be read.
given : Dict String → Option String → Option (Dict String)
given env none = none
given env (some token) = some (Dict.put env "GITHUB_COPILOT_TOKEN" token)

abbrev pub token_of : Option Value → Option String
unfolding extract_oauth_token
token_of none = none
token_of (some v) = extract_oauth_token v

abbrev pub loaded : (String → Option Value) → Option String → Option String
loaded document none = none
loaded document (some path) = token_of (document path)

unfoldable pub inject_prior_copilot_oauth :
    (String → String)
    → Paths
    → System
    → (String → Option Value)
    → Option String
    → Dict String
    → Option (Dict String)
unfolding given copilot_oauth_path
inject_prior_copilot_oauth upper p system document path env =
    if has_token upper system (Dict.items env)
    then some env
    else given env (loaded document (first_of path (copilot_oauth_path p env system)))

-- _direct_child_env: the entries that are kept; `starts` is str.startswith.
abbrev pub direct_child_env_keys : List String
direct_child_env_keys =
    "PATH" ∷ "HOME" ∷ "USER" ∷ "LOGNAME" ∷ "SHELL" ∷ "TMPDIR" ∷ "TMP" ∷ "TEMP" ∷ "LANG"
    ∷ "XDG_CONFIG_HOME" ∷ "XDG_CACHE_HOME" ∷ "XDG_DATA_HOME" ∷ "XDG_STATE_HOME" ∷ "XDG_RUNTIME_DIR"
    ∷ "SSL_CERT_FILE" ∷ "SSL_CERT_DIR" ∷ "NODE_EXTRA_CA_CERTS" ∷ "REQUESTS_CA_BUNDLE"
    ∷ "CURL_CA_BUNDLE" ∷ "HTTP_PROXY" ∷ "http_proxy" ∷ "HTTPS_PROXY" ∷ "https_proxy" ∷ "NO_PROXY"
    ∷ "no_proxy" ∷ "APPDATA" ∷ "LOCALAPPDATA" ∷ "USERPROFILE" ∷ "SYSTEMROOT" ∷ "WINDIR" ∷ "COMSPEC"
    ∷ "PATHEXT" ∷ "GITHUB_COPILOT_ENTERPRISE_URI" ∷ []

abbrev pub direct_child_env_prefixes : List String
direct_child_env_prefixes = "LC_" ∷ "GH" ∷ "GITHUB" ∷ []

abbrev pub is_kept : (String → String) → (String → String → Bool) → String → Bool
is_kept upper starts k =
    one_of direct_child_env_keys (upper k)
    || any (λ p. starts (upper k) p) direct_child_env_prefixes

unfoldable pub direct_child_env :
    (String → String) → (String → String → Bool) → List (String × String) → List (String × String)
direct_child_env upper starts [] = []
direct_child_env upper starts ((k, v) ∷ entries) =
    let rest = direct_child_env upper starts entries in
    if is_kept upper starts k then (k, v) ∷ rest else rest
