-- ===== src/Discovery.antt =====
-- src/acp_proxy/discovery.py: the admission of a language-server binary and the choice among candidates,
-- with the floor of src/acp_proxy/application_policy.py. The file system and the bounded run of `--version`
-- are the record `Platform`: the canonical path, `none` where it raises; whether a path is an executable
-- file; and the version that the probe parses, `none` for every BinaryCompatibilityError of the probe.
pub mod Best
pub mod Probe
pub mod Processes
use acp_test.Base.{
  ℕ, String, Bool, true, false, not, ◌&&◌, ◌||◌, Option, none, some, List, [], ◌∷◌, ltb, ◌==◌, ◌is◌,
  if◌then◌else◌,
}
use Prim.Native.String.{compare}
use text.Mathlib.Text.{is_lt}
use acp_test.Dict.{is_some}

pub record Version : Type 0 where
  pub major : ℕ
  pub minor : ℕ
  pub patch : ℕ

-- MIN_COPILOT_LANGUAGE_SERVER_VERSION
abbrev pub min_version : Version
min_version = record { major = 1; minor = 518; patch = 3 }

-- version < other, as tuples
unfoldable pub version_lt : Version → Version → Bool
version_lt a b =
    ltb a.major b.major
    || ((a.major == b.major)
        && (ltb a.minor b.minor || ((a.minor == b.minor) && ltb a.patch b.patch)))

-- text < other, by code points
abbrev pub text_lt : String → String → Bool
text_lt a b = is_lt (compare a b)

pub record BinaryAdmission : Type 0 where
  pub path : String
  pub version : Version

pub record Platform : Type 0 where
  pub canonical : String → Option String
  pub is_executable : String → Bool
  pub probe : String → Option Version

-- _inspect_binary from the canonical path on
admit_version : String → Option Version → Option BinaryAdmission
admit_version path none = none
admit_version path (some v) =
    if version_lt v min_version then none else some (record { path = path; version = v })

inspect_canonical : Platform → Option String → Option BinaryAdmission
inspect_canonical p none = none
inspect_canonical p (some path) =
    if p.is_executable path then admit_version path (p.probe path) else none

-- _inspect_binary; `none` is BinaryCompatibilityError.
unfoldable pub inspect_binary : Platform → String → Option BinaryAdmission
unfolding inspect_canonical admit_version
inspect_binary p path = inspect_canonical p (p.canonical path)

-- sorted(set(…)): a text is put in its place, and not twice.
unfoldable pub insert : String → List String → List String
insert s [] = s ∷ []
insert s (t ∷ l) =
    let rest = insert s l in if s is t then t ∷ l else if text_lt s t then s ∷ t ∷ l else t ∷ rest

abbrev pub insert_option : Option String → List String → List String
insert_option none l = l
insert_option (some s) l = insert s l

unfoldable pub canonical_paths : Platform → List String → List String
unfolding insert
canonical_paths p [] = []
canonical_paths p (path ∷ paths) = insert_option (p.canonical path) (canonical_paths p paths)

abbrev pub keep : Option BinaryAdmission → List BinaryAdmission → List BinaryAdmission
keep none l = l
keep (some a) l = a ∷ l

unfoldable pub admitted : Platform → List String → List BinaryAdmission
admitted p [] = []
admitted p (path ∷ paths) = keep (inspect_binary p path) (admitted p paths)

-- The key of one candidate is smaller than that of the other: a higher version, or the same and a path
-- that comes first.
unfoldable pub better : BinaryAdmission → BinaryAdmission → Bool
unfolding version_lt
better a b =
    version_lt b.version a.version
    || (not (version_lt a.version b.version) && text_lt a.path b.path)

-- min: the first of the candidates with the smallest key
unfoldable pub best : BinaryAdmission → List BinaryAdmission → BinaryAdmission
best a [] = a
best a (b ∷ l) = best (if better b a then b else a) l

pub data Selection : Type 0 where
  selected : String → Selection
  no_binary : Selection
  candidates_rejected : Selection

abbrev pub is_empty {ℓ} : {A : Type ℓ} → List A → Bool
is_empty [] = true
is_empty (a ∷ l) = false

select_admitted : Bool → List BinaryAdmission → Selection
select_admitted fails [] = if fails then candidates_rejected else no_binary
select_admitted fails (a ∷ l) = selected (best a l).path

-- _select_best_binary
unfoldable pub select_best_binary : Platform → List String → Bool → Selection
unfolding select_admitted
select_best_binary p paths fail_if_candidates_rejected =
    select_admitted (fail_if_candidates_rejected && not (is_empty (canonical_paths p paths)))
      (admitted p (canonical_paths p paths))

-- find_binary, for what the process list and the JetBrains directory offer.
unfoldable pub find_binary : Platform → List String → Selection
unfolding select_best_binary
find_binary p candidates = select_best_binary p candidates true
