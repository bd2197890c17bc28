-- ===== src/Naming/Idempotent.antt =====
-- internal/naming/naming.go: SanitizeToPrefix run on its own result, and its result as a label.
use roksbnkctl.Prelude.{
  ℕ, ◌≡◌, ◌⊎◌, inl, inr, true, false, ◌&&◌, [], ◌∷◌, refl, ap, ap₂, arith, ltb, length, is_nil,
  Text, to_lower, Bool-cases,
}
use roksbnkctl.Naming.{
  is_dash, label_rest, label_charset, dash_separators, strip_others, collapse_dashes, drop_leading,
  trim_dashes, max_label_len, sanitize_to_prefix,
}
use roksbnkctl.Naming.Sanitized.{smooth, led, smooth_parts, IsClean, sanitize_to_prefix-IsClean}

to_lower-smooth : (s : Text) → smooth s ≡ true → to_lower s ≡ s
unfolding to_lower
to_lower-smooth [] h = refl
to_lower-smooth (c ∷ s) h =
    let (label, single, tail) = smooth_parts c s h in
    ap₂ (λ a t. a ∷ t) (ground (arith, label)) (to_lower-smooth s tail)

dash_separators-smooth : (s : Text) → smooth s ≡ true → dash_separators s ≡ s
unfolding dash_separators
dash_separators-smooth [] h = refl
dash_separators-smooth (c ∷ s) h =
    let (label, single, tail) = smooth_parts c s h in
    ap₂ (λ a t. a ∷ t) (ground (arith, label)) (dash_separators-smooth s tail)

strip_others-smooth : (s : Text) → smooth s ≡ true → strip_others false s ≡ s
unfolding strip_others
strip_others-smooth [] h = refl
strip_others-smooth (c ∷ s) h =
    let (label, single, tail) = smooth_parts c s h in
    rw label (ap (λ t. c ∷ t) (strip_others-smooth s tail))

collapse_dashes-smooth : (s : Text) → smooth s ≡ true → collapse_dashes s ≡ s
unfolding collapse_dashes
collapse_dashes-smooth [] h = refl
collapse_dashes-smooth (c ∷ s) h =
    let (label, single, tail) = smooth_parts c s h in
    rw single (ap (λ t. c ∷ t) (collapse_dashes-smooth s tail))

drop_leading-led : (s : Text) → led s ≡ true → drop_leading s ≡ s
unfolding drop_leading led
drop_leading-led [] h = refl
drop_leading-led (c ∷ s) h = rw h refl

sanitize_to_prefix-fixed : (s : Text) → IsClean s → sanitize_to_prefix s ≡ s
unfolding sanitize_to_prefix
sanitize_to_prefix-fixed s h =
    let long : ltb max_label_len (length s) ≡ false = ground (arith, h.is_short) in
    rw
      (
        to_lower-smooth s h.is_smooth,
        dash_separators-smooth s h.is_smooth,
        strip_others-smooth s h.is_smooth,
        collapse_dashes-smooth s h.is_smooth,
        drop_leading-led s h.is_led,
        h.is_trimmed,
        long,
      )
      refl

-- Sanitising a sanitised name changes nothing.
pub sanitize_to_prefix_idem :
    (name : Text) → sanitize_to_prefix (sanitize_to_prefix name) ≡ sanitize_to_prefix name
sanitize_to_prefix_idem name =
    sanitize_to_prefix-fixed (sanitize_to_prefix name) (sanitize_to_prefix-IsClean name)

trim_dashes-tail : (c : ℕ) (s : Text) → trim_dashes (c ∷ s) ≡ c ∷ s → trim_dashes s ≡ s
unfolding trim_dashes
trim_dashes-tail c s t = elim (Bool-cases (is_dash c && is_nil (trim_dashes s))) [
  | inl cut ↦ ground arith
  | inr kept ↦ ground arith
]

trim_dashes-last : (c : ℕ) → trim_dashes (c ∷ []) ≡ c ∷ [] → is_dash c ≡ false
unfolding trim_dashes
trim_dashes-last c t = ground arith

label_rest-smooth : (s : Text) → smooth s ≡ true → trim_dashes s ≡ s → label_rest s ≡ true
unfolding label_rest
label_rest-smooth [] h t = refl
label_rest-smooth (c ∷ []) h t =
    let (label, single, tail) = smooth_parts c [] h in ground (arith, label, trim_dashes-last c t)
label_rest-smooth (c ∷ d ∷ s) h t =
    let (label, single, tail) = smooth_parts c (d ∷ s) h in
    ap₂ (λ a b. a && b) label (label_rest-smooth (d ∷ s) tail (trim_dashes-tail c (d ∷ s) t))

clean-label_charset : (s : Text) → IsClean s → (s ≡ []) ⊎ (label_charset s ≡ true)
unfolding label_charset led label_rest
clean-label_charset [] h = inl refl
clean-label_charset (c ∷ []) h = inr (ap₂ (λ a b. a && b) h.is_led refl)
clean-label_charset (c ∷ d ∷ s) h =
    let (label, single, tail) = smooth_parts c (d ∷ s) h.is_smooth in
    inr (
      ap₂ (λ a b. a && b) h.is_led
        (label_rest-smooth (d ∷ s) tail (trim_dashes-tail c (d ∷ s) h.is_trimmed)))

-- A sanitised name is empty, or it matches the pattern of a label.
pub sanitize_to_prefix-label_charset :
    (name : Text)
    → (sanitize_to_prefix name ≡ []) ⊎ (label_charset (sanitize_to_prefix name) ≡ true)
sanitize_to_prefix-label_charset name =
    clean-label_charset (sanitize_to_prefix name) (sanitize_to_prefix-IsClean name)
