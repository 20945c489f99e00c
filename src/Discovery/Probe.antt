-- ===== src/Discovery/Probe.antt =====
-- src/acp_proxy/discovery.py: the version that a binary prints. A text is the list of its character codes.
-- The process is what its pipe gives, one read after the other, and how it exits; every
-- BinaryCompatibilityError is `none`.
pub mod Digits
pub mod RoundTrip
pub mod Loop
use acp_test.Base.{
  ℕ, zero, suc, ◌+◌, ◌-◌, ◌*◌, ◌/◌, ◌%◌, Bool, true, false, not, ◌&&◌, Option, none, some, List, [],
  ◌∷◌, ◌++◌, length, leb, ltb, ◌==◌, if◌then◌else◌,
}
use acp_test.Discovery.{Version}

-- One read of the pipe: some bytes, none of them at its end, or OSError.
pub data Read : Type 0 where
  chunk : List ℕ → Read
  fails : Read

pub record Output : Type 0 where
  pub bytes : List ℕ
  pub failed : Bool

abbrev pub output_limit : ℕ
output_limit = 256

abbrev pub take : ℕ → List ℕ → List ℕ
take zero l = []
take (suc n) [] = []
take (suc n) (x ∷ l) = x ∷ take n l

abbrev pub drop : ℕ → List ℕ → List ℕ
drop zero l = l
drop (suc n) [] = []
drop (suc n) (x ∷ l) = drop n l

-- What a read of n bytes leaves in the pipe.
abbrev pub left : List ℕ → List Read → List Read
left [] rest = rest
left (b ∷ l) rest = chunk (b ∷ l) ∷ rest

-- _read_stdout: a round reads what is missing to one byte beyond the limit.
unfoldable pub read_stdout : ℕ → List Read → List ℕ → Option Output
read_stdout zero reads bytes = none
read_stdout (suc fuel) [] bytes = some (record { bytes = bytes; failed = false })
read_stdout (suc fuel) (fails ∷ reads) bytes =
    some (record { bytes = bytes; failed = leb (length bytes) output_limit })
read_stdout (suc fuel) (chunk [] ∷ reads) bytes = some (record { bytes = bytes; failed = false })
read_stdout (suc fuel) (chunk (b ∷ l) ∷ reads) bytes =
    let more = output_limit + 1 - length bytes in
    let rest = read_stdout fuel (left (drop more (b ∷ l)) reads) (bytes ++ take more (b ∷ l)) in
    if leb (length bytes) output_limit
    then rest
    else some (record { bytes = bytes; failed = false })

-- How the process ends: its code, or none within the time.
pub record Process : Type 0 where
  pub starts : Bool
  pub reads : List Read
  pub closes_in_time : Bool
  pub return_code : Option ℕ

abbrev pub succeeded : Option ℕ → Bool
succeeded none = false
succeeded (some code) = code == 0

accepted_output : Process → Option Output → Option (List ℕ)
accepted_output p none = none
accepted_output p (some o) =
    if ltb output_limit (length o.bytes)
    then none
    else if o.failed
    then none
    else if succeeded p.return_code
    then some o.bytes
    else none

-- _read_bounded_version_output, with a round for each byte that it may keep
unfoldable pub read_bounded_version_output : Process → Option (List ℕ)
unfolding read_stdout accepted_output
read_bounded_version_output p =
    if not p.starts
    then none
    else if not p.closes_in_time
    then none
    else accepted_output p (read_stdout (output_limit + 2) p.reads [])

abbrev pub is_digit : ℕ → Bool
is_digit c = leb 48 c && leb c 57

abbrev pub all_digits : List ℕ → Bool
all_digits [] = true
all_digits (c ∷ l) = is_digit c && all_digits l

-- 0|[1-9][0-9]*
abbrev pub is_canonical : List ℕ → Bool
is_canonical [] = false
is_canonical (c ∷ []) = is_digit c
is_canonical (c ∷ d ∷ l) = is_digit c && not (c == 48) && all_digits (d ∷ l)

abbrev pub first_with : ℕ → List (List ℕ) → List (List ℕ)
first_with c [] = (c ∷ []) ∷ []
first_with c (part ∷ parts) = (c ∷ part) ∷ parts

-- value.split(".")
unfoldable pub split : List ℕ → List (List ℕ)
split [] = [] ∷ []
split (c ∷ l) = let rest = split l in if c == 46 then [] ∷ rest else first_with c rest

-- int(part)
unfoldable pub decimal : ℕ → List ℕ → ℕ
decimal n [] = n
decimal n (c ∷ l) = decimal (n * 10 + (c - 48)) l

abbrev pub version_of : List (List ℕ) → Option Version
unfolding decimal
version_of (a ∷ b ∷ c ∷ []) =
    if is_canonical a && is_canonical b && is_canonical c
    then some (record { major = decimal 0 a; minor = decimal 0 b; patch = decimal 0 c })
    else none
version_of _ = none

-- parse_copilot_language_server_version
unfoldable pub parse_version : List ℕ → Option Version
unfolding split version_of
parse_version l = version_of (split l)

-- str(n), on as many digits as n allows
unfoldable pub digits : ℕ → ℕ → List ℕ
digits zero n = []
digits (suc fuel) n =
    let front = digits fuel (n / 10) in
    if ltb n 10 then (n + 48) ∷ [] else front ++ (n % 10 + 48) ∷ []

-- _format_version
unfoldable pub format_version : Version → List ℕ
unfolding digits
format_version v =
    digits (suc v.major) v.major
    ++ 46 ∷ (digits (suc v.minor) v.minor ++ 46 ∷ digits (suc v.patch) v.patch)

abbrev pub is_ascii : List ℕ → Bool
is_ascii [] = true
is_ascii (c ∷ l) = ltb c 128 && is_ascii l

-- One line end, "\r\n" or "\n", is taken off.
abbrev is_line_end : List ℕ → Bool
is_line_end (c ∷ []) = c == 10
is_line_end (c ∷ d ∷ []) = (c == 13) && (d == 10)
is_line_end _ = false

unfoldable pub without_line_end : List ℕ → List ℕ
without_line_end [] = []
without_line_end (c ∷ l) =
    let rest = without_line_end l in if is_line_end (c ∷ l) then [] else c ∷ rest

decoded : List ℕ → Option Version
unfolding parse_version without_line_end
decoded l = if is_ascii l then parse_version (without_line_end l) else none

-- _probe_binary_version
unfoldable pub probe_binary_version : Process → Option Version
unfolding read_bounded_version_output decoded
probe_binary_version p = elim (read_bounded_version_output p) [ none ↦ none | some l ↦ decoded l ]
