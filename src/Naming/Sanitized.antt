-- ===== src/Naming/Sanitized.antt =====
-- internal/naming/naming.go: what SanitizeToPrefix makes of a workspace's name.
use roksbnkctl.Prelude.{
  ℕ, zero, suc, ◌≡◌, ◌≤◌, inl, inr, Bool, true, false, not, ◌&&◌, [], ◌∷◌, refl, ap, ap₂, ◌∙◌,
  arith, ltb, length, take, is_nil, all, Text, to_lower, Bool-cases,
}
use roksbnkctl.Naming.{
  is_letter, is_dash, is_label_char, dash_separators, strip_others, starts_dash, collapse_dashes,
  drop_leading, trim_dashes, max_label_len, sanitize_to_prefix,
}

-- Only characters of a label, and no two dashes in a row.
unfoldable pub smooth : Text → Bool
smooth [] = true
smooth (c ∷ s) = (is_label_char c && not (is_dash c && starts_dash s)) && smooth s

unfoldable pub led : Text → Bool
led [] = true
led (c ∷ s) = is_letter c

all-strip_others : (running : Bool) (s : Text) → all is_label_char (strip_others running s) ≡ true
unfolding strip_others
all-strip_others running [] = refl
all-strip_others running (c ∷ s) = elim (Bool-cases (is_label_char c)) [
  | inl kept ↦ rw kept (ground (arith, kept, all-strip_others false s))
  | inr other ↦ elim (Bool-cases running) [
    | inl run ↦ rw (other, run) (all-strip_others true s)
    | inr fresh ↦ rw (other, fresh) (all-strip_others true s)
  ]
]

starts_dash-collapse_dashes : (s : Text) → starts_dash (collapse_dashes s) ≡ starts_dash s
unfolding collapse_dashes starts_dash
starts_dash-collapse_dashes [] = refl
starts_dash-collapse_dashes (c ∷ s) = ground (arith, starts_dash-collapse_dashes s)

smooth-collapse_dashes : (s : Text) → all is_label_char s ≡ true → smooth (collapse_dashes s) ≡ true
unfolding smooth collapse_dashes
smooth-collapse_dashes [] h = refl
smooth-collapse_dashes (c ∷ s) h =
    let rest : smooth (collapse_dashes s) ≡ true = smooth-collapse_dashes s (ground arith) in
    ground (arith, starts_dash-collapse_dashes s)

smooth-drop_leading : (s : Text) → smooth s ≡ true → smooth (drop_leading s) ≡ true
unfolding smooth drop_leading
smooth-drop_leading [] h = refl
smooth-drop_leading (c ∷ s) h =
    let rest : smooth (drop_leading s) ≡ true = smooth-drop_leading s (ground arith) in
    elim (Bool-cases (is_letter c)) [ inl letter ↦ rw letter h | inr skipped ↦ rw skipped rest ]

led-drop_leading : (s : Text) → led (drop_leading s) ≡ true
unfolding led drop_leading
led-drop_leading [] = refl
led-drop_leading (c ∷ s) = elim (Bool-cases (is_letter c)) [
  | inl letter ↦ rw letter letter
  | inr skipped ↦ rw skipped (led-drop_leading s)
]

starts_dash-trim_dashes :
    (s : Text) → starts_dash (trim_dashes s) ≡ (starts_dash s && not (is_nil (trim_dashes s)))
unfolding trim_dashes starts_dash
starts_dash-trim_dashes [] = refl
starts_dash-trim_dashes (c ∷ s) = ground arith

pub smooth_parts :
    (c : ℕ) (s : Text)
    → smooth (c ∷ s) ≡ true
    → (is_label_char c ≡ true) × ((is_dash c && starts_dash s) ≡ false) × (smooth s ≡ true)
unfolding smooth
smooth_parts c s h = parts (is_label_char c) (is_dash c && starts_dash s) (smooth s) h
  where
    parts : (a b x : Bool) → ((a && not b) && x) ≡ true → (a ≡ true) × (b ≡ false) × (x ≡ true)
    parts a b x e = ground arith

smooth-cons :
    (c : ℕ) (s : Text)
    → is_label_char c ≡ true
    → (is_dash c && starts_dash s) ≡ false
    → smooth s ≡ true
    → smooth (c ∷ s) ≡ true
unfolding smooth
smooth-cons c s label single h = ap₂ (λ x y. x && y) (ap₂ (λ x y. x && not y) label single) h

and_false : (a b x : Bool) → (a && b) ≡ false → (a && (b && x)) ≡ false
and_false true true x h = ground arith
and_false true false x h = refl
and_false false b x h = refl

smooth-trim_dashes : (s : Text) → smooth s ≡ true → smooth (trim_dashes s) ≡ true
unfolding trim_dashes smooth
smooth-trim_dashes [] h = refl
smooth-trim_dashes (c ∷ s) h =
    let (label, single, tail) = smooth_parts c s h in
    let rest : smooth (trim_dashes s) ≡ true = smooth-trim_dashes s tail in
    elim (Bool-cases (is_dash c && is_nil (trim_dashes s))) [
      | inl cut ↦ rw cut refl
      | inr kept ↦ rw kept (
          smooth-cons c (trim_dashes s) label
            (ap (λ b. is_dash c && b) (starts_dash-trim_dashes s)
              ∙ and_false (is_dash c) (starts_dash s) (not (is_nil (trim_dashes s))) single)
            rest)
    ]

led-trim_dashes : (s : Text) → led s ≡ true → led (trim_dashes s) ≡ true
unfolding led trim_dashes
led-trim_dashes [] h = refl
led-trim_dashes (c ∷ s) h = ground arith

trim_dashes-trim_dashes : (s : Text) → trim_dashes (trim_dashes s) ≡ trim_dashes s
unfolding trim_dashes
trim_dashes-trim_dashes [] = refl
trim_dashes-trim_dashes (c ∷ s) = elim (Bool-cases (is_dash c && is_nil (trim_dashes s))) [
  | inl cut ↦ rw cut refl
  | inr kept ↦ rw (kept, trim_dashes-trim_dashes s, kept) refl
]

length-trim_dashes : (s : Text) → length (trim_dashes s) ≤ length s
unfolding trim_dashes
length-trim_dashes [] = omega arith
length-trim_dashes (c ∷ s) = ground (arith, length-trim_dashes s)

starts_dash-take : (n : ℕ) (s : Text) → starts_dash s ≡ false → starts_dash (take n s) ≡ false
unfolding starts_dash
starts_dash-take zero s h = refl
starts_dash-take (suc n) [] h = refl
starts_dash-take (suc n) (c ∷ s) h = h

smooth-take : (n : ℕ) (s : Text) → smooth s ≡ true → smooth (take n s) ≡ true
unfolding smooth
smooth-take zero s h = refl
smooth-take (suc n) [] h = refl
smooth-take (suc n) (c ∷ s) h =
    let rest : smooth (take n s) ≡ true = smooth-take n s (ground arith) in
    ground (arith, starts_dash-take n s)

led-take : (n : ℕ) (s : Text) → led s ≡ true → led (take n s) ≡ true
unfolding led
led-take zero s h = refl
led-take (suc n) [] h = refl
led-take (suc n) (c ∷ s) h = h

length-take : (n : ℕ) (s : Text) → length (take n s) ≤ n
length-take zero s = omega arith
length-take (suc n) [] = omega arith
length-take (suc n) (c ∷ s) = omega (arith, length-take n s)

-- What SanitizeToPrefix returns.
pub record IsClean (s : Text) : Type 0 where
  pub is_smooth : smooth s ≡ true
  pub is_led : led s ≡ true
  pub is_trimmed : trim_dashes s ≡ s
  pub is_short : length s ≤ max_label_len

pub sanitize_to_prefix-IsClean : (name : Text) → IsClean (sanitize_to_prefix name)
unfolding sanitize_to_prefix
sanitize_to_prefix-IsClean name =
    let stripped = strip_others false (dash_separators (to_lower name)) in
    let started = drop_leading (collapse_dashes stripped) in
    let s = trim_dashes started in
    let smooth_s : smooth s ≡ true = smooth-trim_dashes started (
      smooth-drop_leading (collapse_dashes stripped) (
        smooth-collapse_dashes stripped
          (all-strip_others false (dash_separators (to_lower name))))) in
    let led_s : led s ≡ true =
      led-trim_dashes started (led-drop_leading (collapse_dashes stripped)) in
    let cut = take max_label_len s in
    elim (Bool-cases (ltb max_label_len (length s))) [
      | inl long ↦ rw long (record {
        is_smooth = smooth-trim_dashes cut (smooth-take max_label_len s smooth_s);
        is_led = led-trim_dashes cut (led-take max_label_len s led_s);
        is_trimmed = trim_dashes-trim_dashes cut;
        is_short = omega (arith, length-trim_dashes cut, length-take max_label_len s);
      })
      | inr short ↦ rw short (record {
        is_smooth = smooth_s;
        is_led = led_s;
        is_trimmed = trim_dashes-trim_dashes started;
        is_short = ground arith;
      })
    ]
