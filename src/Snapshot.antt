-- ===== src/Snapshot.antt =====
-- internal/config/applied_tfvars.go and internal/orchestration/applied_replay.go: the snapshot of the variables that
-- an apply used, and the file that is replayed from it. A file is its text; a map is the list of its entries in the
-- order of their keys, which is the order in which both writers print them.
pub mod Writing
pub mod Store
pub mod Lines
pub mod Values
pub mod Maps
pub mod Blocks
pub mod Recorded
pub mod Entries
pub mod RoundTrip
pub mod Replay
pub mod Rendered
pub mod Sections
pub mod Merged
mod Tests
use roksbnkctl.Prelude.{
  ℕ, zero, suc, ◌+◌, ◌≡◌, Bool, true, false, not, ◌&&◌, ◌||◌, Option, none, some, List, [], ◌∷◌,
  ◌++◌, ltb, leb, eqb, if◌then◌else◌, is_nil, any, Text, lit, empty, ◌==◌, trim_space, has_prefix,
}
use roksbnkctl.Prelude.Int.{ℤ, pos, negsuc, ◌+ℤ◌, is_negative, is_zero}

abbrev onto : ℕ → List Text → List Text
onto c [] = (c ∷ []) ∷ []
onto c (l ∷ ls) = (c ∷ l) ∷ ls

-- `strings.Split(s, "\n")`.
unfoldable pub split_lines : Text → List Text
split_lines [] = [] ∷ []
split_lines (c ∷ s) = let rest = split_lines s in if eqb c b'\n' then [] ∷ rest else onto c rest

-- `strings.TrimRight(s, "\r")`.
unfoldable pub trim_cr : Text → Text
trim_cr [] = []
trim_cr (c ∷ s) = let rest = trim_cr s in if is_nil rest && eqb c b'\r' then [] else c ∷ rest

-- The whitespace of a regular expression.
abbrev pub is_re_space : ℕ → Bool
is_re_space c = eqb c b'\t' || eqb c b'\n' || eqb c 12 || eqb c b'\r' || eqb c b' '

abbrev pub starts_name : ℕ → Bool
starts_name c = (leb b'A' c && leb c b'Z') || (leb b'a' c && leb c b'z') || eqb c b'_'

abbrev pub is_name_char : ℕ → Bool
is_name_char c = starts_name c || (leb b'0' c && leb c b'9')

-- The longest run of the characters of a name, and what follows.
unfoldable pub span_name : Text → Text × Text
span_name [] = ([], [])
span_name (c ∷ s) =
    let (name, rest) = span_name s in if is_name_char c then (c ∷ name, rest) else ([], c ∷ s)

unfoldable pub skip_spaces : Text → Text
skip_spaces [] = []
skip_spaces (c ∷ s) = let rest = skip_spaces s in if is_re_space c then rest else c ∷ s

abbrev pub assigned : Text → Text → Option (Text × Text)
assigned name [] = none
assigned name (c ∷ s) = some (name, c ∷ s)

abbrev pub after_name : Text → Text → Option (Text × Text)
after_name name [] = none
after_name name (c ∷ s) = if eqb c b'=' then assigned name (skip_spaces s) else none

-- The submatches of `tfvarsAssignmentRE` in a line that is trimmed.
unfoldable pub assignment : Text → Option (Text × Text)
assignment [] = none
assignment (c ∷ s) =
    let (name, rest) = span_name (c ∷ s) in
    if starts_name c then after_name name (skip_spaces rest) else none

abbrev pub starts_with : ℕ → Text → Bool
starts_with d [] = false
starts_with d (c ∷ s) = eqb c d

-- What `tfvarsCommentRE` leaves of the value of a line.
unfoldable pub strip_comment : Text → Text
strip_comment [] = []
strip_comment (c ∷ s) =
    let rest = strip_comment s in
    if is_re_space c && starts_with b'#' (skip_spaces s) then [] else c ∷ rest

-- Where `blockDepthDelta` stands in its loop.
pub data Place : Type 0 where
  in_code : Place
  in_string : Place
  in_escape : Place
  in_comment : Place

abbrev pub step_place : Place → ℕ → Text → Place
step_place in_escape c s = in_string
step_place in_string c s =
    if eqb c b'\\' then in_escape else if eqb c b'"' then in_code else in_string
step_place in_comment c s = if eqb c b'\n' then in_code else in_comment
step_place in_code c s =
    if eqb c b'"'
    then in_string
    else if eqb c b'#' || (eqb c b'/' && starts_with b'/' s)
    then in_comment
    else in_code

abbrev pub bracket : ℕ → ℤ
bracket c =
    if eqb c b'{' || eqb c b'[' || eqb c b'('
    then pos 1
    else if eqb c b'}' || eqb c b']' || eqb c b')'
    then negsuc 0
    else pos 0

abbrev pub weight : Place → ℕ → ℤ
weight in_code c = bracket c
weight in_string c = pos 0
weight in_escape c = pos 0
weight in_comment c = pos 0

unfoldable pub depth_from : Place → Text → ℤ
depth_from place [] = pos 0
depth_from place (c ∷ s) = weight place c +ℤ depth_from (step_place place c s) s

-- `blockDepthDelta`.
unfoldable pub block_depth_delta : Text → ℤ
block_depth_delta v = depth_from in_code v

-- `HCLValueIsUnbalanced`.
unfoldable pub hcl_value_is_unbalanced : Text → Bool
hcl_value_is_unbalanced v = not (is_zero (block_depth_delta v))

abbrev pub one_more : Option (Text × ℕ) → Option (Text × ℕ)
one_more none = none
one_more (some (block, n)) = some (block, suc n)

-- `consumeBlock` on the lines behind the opener: the block and how many of the lines it takes.
unfoldable pub consume_block : List Text → Text → ℤ → Option (Text × ℕ)
consume_block [] block depth = none
consume_block (l ∷ ls) block depth =
    let after = depth +ℤ block_depth_delta l in
    let longer = block ++ (b'\n' ∷ trim_cr l) in
    let rest = one_more (consume_block ls longer after) in
    if is_zero after then some (longer, 1) else if is_negative after then none else rest

-- `unclosedBlockTrailer`'s second result, for the depth that it has found.
abbrev pub is_open : ℤ → Bool
is_open depth = not (is_negative depth) && not (is_zero depth)

abbrev pub named : Text → Option (Text × ℕ) → Option (Text × Text × ℕ)
named name none = none
named name (some (block, n)) = some (name, block, n)

-- The assignment that starts at a line, and how many of the following lines belong to it.
unfoldable pub parse_entry : Text → List Text → Option (Text × Text × ℕ)
parse_entry line ls =
    if line == empty || has_prefix line (lit "#") || has_prefix line (lit "//")
    then none
    else elim (assignment line) [
      | none ↦ none
      | some (name, raw) ↦
          let value = strip_comment raw in
          let block = named name (consume_block ls value (block_depth_delta value)) in
          if is_open (block_depth_delta value) then block else some (name, value, 0)
    ]

-- The order of `sort.Strings`.
unfoldable pub precedes : Text → Text → Bool
precedes [] [] = false
precedes [] (d ∷ t) = true
precedes (c ∷ s) [] = false
precedes (c ∷ s) (d ∷ t) = ltb c d || (eqb c d && precedes s t)

-- `m[key] = value`.
unfoldable pub put : Text → Text → List (Text × Text) → List (Text × Text)
put key value [] = (key, value) ∷ []
put key value ((k, v) ∷ m) =
    let rest = put key value m in
    if key == k
    then (key, value) ∷ m
    else if precedes key k
    then (key, value) ∷ (k, v) ∷ m
    else (k, v) ∷ rest

-- The loop of `readTFVarsAssignments`; the number is that of the lines that a block has taken.
unfoldable pub read_from : ℕ → List Text → List (Text × Text) → List (Text × Text)
read_from skip [] out = out
read_from (suc skip) (l ∷ ls) out = read_from skip ls out
read_from zero (l ∷ ls) out = elim (parse_entry (trim_space l) ls) [
  | none ↦ read_from zero ls out
  | some (name, value, n) ↦ read_from n ls (put name value out)
]

-- `readTFVarsAssignments` on the text of a file.
unfoldable pub read_assignments : Text → List (Text × Text)
read_assignments text = read_from 0 (split_lines text) []

abbrev pub redacted_var_names : List Text
redacted_var_names =
    lit "ibmcloud_api_key" ∷ lit "bigip_password" ∷ lit "registry_mirror_password" ∷ []

abbrev pub is_redacted : Text → Bool
is_redacted name = any (λ k. k == name) redacted_var_names
