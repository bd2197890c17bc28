-- ===== src/Naming/Derived.antt =====
-- internal/naming/naming.go: the names derived from a prefix that ValidatePrefix accepts.
use roksbnkctl.Prelude.{
  ◌≡◌, ◌≤◌, ◌↔◌, inl, inr, true, false, none, List, [], ◌∷◌, ◌++◌, refl, ap, ◌∙◌, arith, ltb,
  length, is_nil, All, Text, lit, Bool-cases, length-append,
}
use roksbnkctl.Naming.{
  label_rest, label_charset, Kind, is_name, cos_name, DerivedName, derived, derived_names, max_len,
  first_long, validate_prefix, max_prefix_len, least_budget,
}

-- The name is within its limit.
Fits : DerivedName → Type 0
Fits d = length d.effective ≤ max_len d.kind

first_long-All : (ds : List DerivedName) → (first_long ds ≡ none) ↔ All Fits ds
unfolding first_long Fits
first_long-All [] = (λ e. tt, λ h. refl)
first_long-All (d ∷ ds) =
    let rest = first_long-All ds in
    elim (Bool-cases (ltb (max_len d.kind) (length d.effective))) [
      | inl long ↦ (λ e. ground arith, λ h. ground (arith, h.0))
      | inr short ↦ rw short (λ e. (ground arith, rest.0 e), λ h. rest.1 h.1)
    ]

derived_names-Fits : (prefix : Text) → length prefix ≤ 35 → All Fits (derived_names prefix)
unfolding derived_names derived max_len lit Fits
derived_names-Fits prefix h = (
  omega (arith, length-append prefix []),
  (
    omega (arith, length-append prefix (lit "-cluster-vpc" ++ [])),
    (
      omega (arith, length-append prefix (lit "-registry-cos" ++ [])),
      (
        omega (arith, length-append prefix (lit "-tgw" ++ [])),
        (
          omega (arith, length-append prefix (lit "-client-vpc" ++ [])),
          (
            omega (arith, length-append prefix (lit "-jh-tgw" ++ [])),
            (omega (arith, length-append prefix (lit "-jh" ++ lit "-us-south-1")), tt),
          ),
        ),
      ),
    ),
  ),
)

Fits-length : (prefix : Text) → All Fits (derived_names prefix) → length prefix ≤ 35
unfolding derived_names derived max_len Fits
Fits-length prefix h = omega (arith, h.0, length-append prefix [])

max_prefix_len_lem : max_prefix_len ≡ 35
unfolding max_prefix_len least_budget derived_names derived max_len lit
max_prefix_len_lem = refl

label_charset-is_nil : (s : Text) → label_charset s ≡ true → is_nil s ≡ false
unfolding label_charset
label_charset-is_nil [] h = ground arith
label_charset-is_nil (c ∷ s) h = refl

-- ValidatePrefix accepts a prefix exactly when it matches the pattern of a label and is no longer
-- than MaxPrefixLen, the least of the lengths that the derived names leave.
pub validate_prefix_iff :
    (prefix : Text)
    → (validate_prefix prefix ≡ none)
      ↔ ((label_charset prefix ≡ true) × (length prefix ≤ max_prefix_len))
unfolding validate_prefix
validate_prefix_iff prefix = (
  λ e.
      let long_ok : first_long (derived_names prefix) ≡ none = ground arith in
      let fits = (first_long-All (derived_names prefix)).0 long_ok in
      (ground arith, rw max_prefix_len_lem (Fits-length prefix fits)),
  λ h.
      let short : length prefix ≤ 35 = omega (arith, h.1, max_prefix_len_lem) in
      rw (label_charset-is_nil prefix h.0, h.0)
        ((first_long-All (derived_names prefix)).1 (derived_names-Fits prefix short)),
)

label_rest-append :
    (s t : Text)
    → label_rest s ≡ true
    → is_nil t ≡ false
    → label_rest t ≡ true
    → label_rest (s ++ t) ≡ true
unfolding label_rest
label_rest-append [] t h n k = k
label_rest-append (c ∷ []) [] h n k = ground arith
label_rest-append (c ∷ []) (d ∷ t) h n k = ground (arith, h, k)
label_rest-append (c ∷ d ∷ s) t h n k =
    let rest : label_rest (d ∷ (s ++ t)) ≡ true = label_rest-append (d ∷ s) t (ground arith) n k in
    ground (arith, rest)

label_charset-append :
    (s t : Text)
    → label_charset s ≡ true
    → is_nil t ≡ false
    → label_rest t ≡ true
    → label_charset (s ++ t) ≡ true
unfolding label_charset
label_charset-append [] t h n k = ground arith
label_charset-append (c ∷ s) t h n k = ground (arith, label_rest-append s t (ground arith) n k)

pub IsValidName : DerivedName → Type 0
IsValidName d = (label_charset d.effective ≡ true) × (length d.effective ≤ max_len d.kind)

append_nil : (s : Text) → s ++ [] ≡ s
append_nil [] = refl
append_nil (c ∷ s) = ap (λ t. c ∷ t) (append_nil s)

derived-IsValidName :
    (prefix : Text)
    → label_charset prefix ≡ true
    → (kind : Kind) (suffix zone : Text) → is_nil (suffix ++ zone) ≡ false
    → label_rest (suffix ++ zone) ≡ true
    → Fits (derived kind prefix suffix zone)
    → IsValidName (derived kind prefix suffix zone)
unfolding derived Fits IsValidName
derived-IsValidName prefix label kind suffix zone present rest fits =
    (label_charset-append prefix (suffix ++ zone) label present rest, fits)

-- When ValidatePrefix accepts a prefix, every name derived from it, with what is appended to it later,
-- matches the pattern of a label and is within the limit of its kind.
pub derived_names-IsValidName :
    (prefix : Text) → validate_prefix prefix ≡ none → All IsValidName (derived_names prefix)
unfolding derived_names derived label_rest lit Fits IsValidName
derived_names-IsValidName prefix ok =
    let (label, short) = (validate_prefix_iff prefix).0 ok in
    let fits = derived_names-Fits prefix (omega (arith, short, max_prefix_len_lem)) in
    let valid = derived-IsValidName prefix label in
    (
      (ap label_charset (append_nil prefix) ∙ label, fits.0),
      (
        valid is_name (lit "-cluster-vpc") [] refl refl fits.1.0,
        (
          valid cos_name (lit "-registry-cos") [] refl refl fits.1.1.0,
          (
            valid is_name (lit "-tgw") [] refl refl fits.1.1.1.0,
            (
              valid is_name (lit "-client-vpc") [] refl refl fits.1.1.1.1.0,
              (
                valid is_name (lit "-jh-tgw") [] refl refl fits.1.1.1.1.1.0,
                (valid is_name (lit "-jh") (lit "-us-south-1") refl refl fits.1.1.1.1.1.1.0, tt),
              ),
            ),
          ),
        ),
      ),
    )
