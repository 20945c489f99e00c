-- ===== src/Discovery/Processes.antt =====
-- src/acp_proxy/discovery.py: the candidates that the lines of a process list name. What Python's str and
-- os.path do of a text is the record `Lines`.
use acp_test.Base.{
  String, Bool, not, ◌&&◌, ◌||◌, Option, none, some, List, [], ◌∷◌, ◌++◌, ◌is◌, if◌then◌else◌,
}
use acp_test.Discovery.{Platform, Selection, insert, insert_option, find_binary}

-- `mentions line text` is `text in line`, `before line separator` is line.split(separator)[0], `strip` is
-- str.strip, `file_name` the base name of a normal path, and `canonical` os.path.realpath.
pub record Lines : Type 0 where
  pub mentions : String → String → Bool
  pub before : String → String → String
  pub strip : String → String
  pub file_name : String → String
  pub canonical : String → String
  pub binary_name : String

-- _has_language_server_name
abbrev pub has_language_server_name : Lines → String → Bool
has_language_server_name p path = p.file_name path is p.binary_name

abbrev pub path_in : Lines → Option String → String → String
path_in p none line = p.strip line
path_in p (some separator) line = p.strip (p.before line separator)

abbrev pub is_relevant : Lines → String → Bool
is_relevant p line =
    (p.mentions line p.binary_name || p.mentions line "copilot-language-server")
    && not (p.mentions line "grep")

-- The canonical path of a line that names a candidate
unfoldable pub candidate_in : Lines → Option String → String → Option String
candidate_in p separator line =
    if not (is_relevant p line)
    then none
    else if path_in p separator line is ""
    then none
    else if has_language_server_name p (path_in p separator line)
    then some (p.canonical (path_in p separator line))
    else none

-- _collect_process_paths
unfoldable pub collect_process_paths : Lines → Option String → List String → List String
unfolding candidate_in insert
collect_process_paths p separator [] = []
collect_process_paths p separator (line ∷ lines) =
    insert_option (candidate_in p separator line) (collect_process_paths p separator lines)

-- What the query of a platform gives: the lines of `ps`, or those of PowerShell and of wmic.
pub data Query : Type 0 where
  unix : Option (List String) → Query
  windows : Option (List String) → Option (List String) → Query

abbrev pub or_else : Option (List String) → Option (List String) → Option (List String)
or_else none o = o
or_else (some l) o = some l

abbrev pub collected : Lines → Option String → Option (List String) → List String
unfolding collect_process_paths
collected p separator none = []
collected p separator (some lines) = collect_process_paths p separator lines

-- _candidate_paths_from_processes
unfoldable pub candidate_paths_from_processes : Lines → Query → List String
unfolding collected
candidate_paths_from_processes p (unix lines) = collected p (some " --") lines
candidate_paths_from_processes p (windows powershell wmic) =
    collected p none (or_else powershell wmic)

-- find_binary, over the processes and the named files below the JetBrains directory
unfoldable pub find_running_binary : Platform → Lines → Query → List String → Selection
unfolding candidate_paths_from_processes find_binary
find_running_binary platform p query files =
    find_binary platform (candidate_paths_from_processes p query ++ files)
