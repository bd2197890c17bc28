-- ===== src/Naming.antt =====
-- internal/naming/naming.go: the names that a workspace's prefix gives its cloud resources. The patterns
-- are matched by recursion; after sanitising, a name has only ASCII characters, so its length in bytes is
-- that of the list.
pub mod Sanitized
pub mod Idempotent
pub mod Derived
mod Tests
use roksbnkctl.Prelude.{
  ℕ, zero, suc, ◌-◌, Bool, true, false, not, ◌&&◌, ◌||◌, Option, none, some, List, [], ◌∷◌, ◌++◌,
  ltb, leb, eqb, if◌then◌else◌, length, take, is_nil, Text, lit, to_lower,
}

abbrev pub is_letter : ℕ → Bool
is_letter c = leb b'a' c && leb c b'z'

abbrev pub is_alnum : ℕ → Bool
is_alnum c = is_letter c || (leb b'0' c && leb c b'9')

abbrev pub is_dash : ℕ → Bool
is_dash c = eqb c b'-'

abbrev pub is_label_char : ℕ → Bool
is_label_char c = is_alnum c || is_dash c

-- The rest of a label after its first letter: `[-a-z0-9]*[a-z0-9]`, or nothing.
unfoldable pub label_rest : Text → Bool
label_rest [] = true
label_rest (c ∷ s) = if is_nil s then is_alnum c else is_label_char c && label_rest s

-- `labelCharset.MatchString`.
unfoldable pub label_charset : Text → Bool
label_charset [] = false
label_charset (c ∷ s) = is_letter c && label_rest s

pub data Kind : Type 0 where
  cluster_name : Kind
  is_name : Kind
  cos_name : Kind

-- The `maxLen` of the constraints.
unfoldable pub max_len : Kind → ℕ
max_len cluster_name = 35
max_len is_name = 63
max_len cos_name = 180

-- `derivedName` with `effective` as its parts: the prefix stands before `suffix` and `zone_extra`.
pub record DerivedName : Type 0 where
  pub value : Text
  pub effective : Text
  pub kind : Kind
  pub suffix : Text
  pub zone_extra : Text

unfoldable pub derived : Kind → Text → Text → Text → DerivedName
derived kind prefix suffix zone = record {
  value = prefix ++ suffix;
  effective = prefix ++ (suffix ++ zone);
  kind = kind;
  suffix = suffix;
  zone_extra = zone;
}

-- `derivedNames` over `Derive`.
unfoldable pub derived_names : Text → List DerivedName
unfolding derived
derived_names prefix =
    derived cluster_name prefix [] []
    ∷ derived is_name prefix (lit "-cluster-vpc") []
    ∷ derived cos_name prefix (lit "-registry-cos") []
    ∷ derived is_name prefix (lit "-tgw") []
    ∷ derived is_name prefix (lit "-client-vpc") []
    ∷ derived is_name prefix (lit "-jh-tgw") []
    ∷ derived is_name prefix (lit "-jh") (lit "-us-south-1")
    ∷ []

-- The loop of `maxPrefixLen`; `none` is the -1 of `best`.
unfoldable pub least_budget : Option ℕ → List DerivedName → ℕ
least_budget none [] = 0
least_budget (some best) [] = best
least_budget none (d ∷ ds) =
    least_budget (some (max_len d.kind - length d.suffix - length d.zone_extra)) ds
least_budget (some best) (d ∷ ds) =
    let budget = max_len d.kind - length d.suffix - length d.zone_extra in
    least_budget (some (if ltb budget best then budget else best)) ds

unfoldable pub max_prefix_len : ℕ
max_prefix_len = least_budget none (derived_names [])

pub data Invalid : Type 0 where
  empty_prefix : Invalid
  bad_characters : Invalid
  too_long : DerivedName → Invalid

unfoldable pub first_long : List DerivedName → Option Invalid
first_long [] = none
first_long (d ∷ ds) =
    let rest = first_long ds in
    if ltb (max_len d.kind) (length d.effective) then some (too_long d) else rest

-- `ValidatePrefix`; `none` is a nil error.
unfoldable pub validate_prefix : Text → Option Invalid
validate_prefix prefix =
    if is_nil prefix
    then some empty_prefix
    else if not (label_charset prefix)
    then some bad_characters
    else first_long (derived_names prefix)

-- The two `ReplaceAll`.
unfoldable pub dash_separators : Text → Text
dash_separators [] = []
dash_separators (c ∷ s) = (if eqb c b'_' || eqb c b'.' then b'-' else c) ∷ dash_separators s

-- `sanitizeStripRE`: each run of other characters becomes one dash; the flag says that one is running.
unfoldable pub strip_others : Bool → Text → Text
strip_others running [] = []
strip_others running (c ∷ s) =
    let kept = strip_others false s in
    let skipped = strip_others true s in
    if is_label_char c then c ∷ kept else if running then skipped else b'-' ∷ skipped

unfoldable pub starts_dash : Text → Bool
starts_dash [] = false
starts_dash (c ∷ s) = is_dash c

unfoldable pub collapse_dashes : Text → Text
collapse_dashes [] = []
collapse_dashes (c ∷ s) =
    let rest = collapse_dashes s in if is_dash c && starts_dash s then rest else c ∷ rest

unfoldable pub drop_leading : Text → Text
drop_leading [] = []
drop_leading (c ∷ s) = let rest = drop_leading s in if is_letter c then c ∷ s else rest

-- `strings.TrimRight(s, "-")`.
unfoldable pub trim_dashes : Text → Text
trim_dashes [] = []
trim_dashes (c ∷ s) = let rest = trim_dashes s in if is_dash c && is_nil rest then [] else c ∷ rest

abbrev pub max_label_len : ℕ
max_label_len = 64

-- `SanitizeToPrefix`.
unfoldable pub sanitize_to_prefix : Text → Text
sanitize_to_prefix name =
    let stripped = strip_others false (dash_separators (to_lower name)) in
    let s = trim_dashes (drop_leading (collapse_dashes stripped)) in
    if ltb max_label_len (length s) then trim_dashes (take max_label_len s) else s
