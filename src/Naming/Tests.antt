-- ===== src/Naming/Tests.antt =====
-- Runs of the prefix checks, and the theorems at concrete names.
use roksbnkctl.Prelude.{◌≡◌, ◌≤◌, ◌↔◌, ◌⊎◌, refl, true, none, some, [], length, All, lit, to_lower}
use roksbnkctl.Naming.{
  label_rest, label_charset, derived_names, max_prefix_len, least_budget, derived, max_len,
  validate_prefix, first_long, bad_characters, dash_separators, strip_others, starts_dash,
  collapse_dashes, drop_leading, trim_dashes, sanitize_to_prefix,
}
use roksbnkctl.Naming.Derived.{validate_prefix_iff, IsValidName, derived_names-IsValidName}
use roksbnkctl.Naming.Idempotent.{sanitize_to_prefix_idem, sanitize_to_prefix-label_charset}

names : Unit {0}
unfolding lit to_lower label_rest label_charset derived_names max_prefix_len least_budget derived
    max_len validate_prefix first_long dash_separators strip_others starts_dash collapse_dashes
    drop_leading trim_dashes sanitize_to_prefix
names = tt

prefix_tests :
    (sanitize_to_prefix (lit "2_My..Lab (v2)-") ≡ lit "my-lab-v2")
    × (validate_prefix (lit "my-lab-") ≡ some bad_characters)
    × (validate_prefix (lit "my-lab") ≡ none)
unfolding names
prefix_tests = (refl, refl, refl)

my_lab-accepted : validate_prefix (lit "my-lab") ≡ none
unfolding names
my_lab-accepted = refl

derived_names-IsValidName_example : All IsValidName (derived_names (lit "my-lab"))
derived_names-IsValidName_example = derived_names-IsValidName (lit "my-lab") my_lab-accepted

validate_prefix_iff_example :
    (validate_prefix (lit "my-lab") ≡ none)
    ↔ ((label_charset (lit "my-lab") ≡ true) × (length (lit "my-lab") ≤ max_prefix_len))
validate_prefix_iff_example = validate_prefix_iff (lit "my-lab")

sanitize_to_prefix_idem_example :
    sanitize_to_prefix (sanitize_to_prefix (lit "2_My..Lab (v2)-"))
    ≡ sanitize_to_prefix (lit "2_My..Lab (v2)-")
sanitize_to_prefix_idem_example = sanitize_to_prefix_idem (lit "2_My..Lab (v2)-")

sanitize_to_prefix-label_charset_example :
    (sanitize_to_prefix (lit "2_My..Lab (v2)-") ≡ [])
    ⊎ (label_charset (sanitize_to_prefix (lit "2_My..Lab (v2)-")) ≡ true)
sanitize_to_prefix-label_charset_example = sanitize_to_prefix-label_charset (lit "2_My..Lab (v2)-")
