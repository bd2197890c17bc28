-- ===== src/Guard/Line.antt =====
-- internal/config/bnkversion.go: which manifest versions have a release line, and which line it is.
use roksbnkctl.Prelude.{
  ◌≡◌, ◌↔◌, Bool, true, false, some, [], ◌∷◌, ◌++◌, inl, inr, refl, sym, ◌∙◌, ap, ap₂, arith,
  is_nil, all, Text, lit, Bool-cases,
}
use roksbnkctl.Guard.{is_digit, span_digits, ends_version, after_dot, match_line}

starts_digit : Text → Bool
starts_digit [] = false
starts_digit (c ∷ s) = is_digit c

-- What the pattern of a manifest version and the line of its two groups say: digits, a dot, digits, and
-- then the end, a dot or a dash; the line is the digits with the dot.
pub record IsLine (mv line : Text) : Type 0 where
  pub major : Text
  pub minor : Text
  pub rest : Text
  pub version : mv ≡ major ++ (b'.' ∷ (minor ++ rest))
  pub has_major : is_nil major ≡ false
  pub has_minor : is_nil minor ≡ false
  pub major_digits : all is_digit major ≡ true
  pub minor_digits : all is_digit minor ≡ true
  pub ends : ends_version rest ≡ true
  pub parts : line ≡ major ++ (b'.' ∷ minor)

-- `span_digits` gives the longest run.
span_digits-append :
    (run rest : Text)
    → all is_digit run ≡ true
    → starts_digit rest ≡ false
    → span_digits (run ++ rest) ≡ (run, rest)
unfolding span_digits starts_digit
span_digits-append [] [] d n = refl
span_digits-append [] (c ∷ rest) d n = rw n refl
span_digits-append (c ∷ run) rest d n =
    let digit : is_digit c ≡ true = ground arith in
    rw digit
      (ap (λ (p : Text × Text). (c ∷ p.0, p.1)) (span_digits-append run rest (ground arith) n))

span_digits-join : (s : Text) → (span_digits s).0 ++ (span_digits s).1 ≡ s
unfolding span_digits
span_digits-join [] = refl
span_digits-join (c ∷ s) = elim (Bool-cases (is_digit c)) [
  | inl digit ↦ rw digit (ap (λ t. c ∷ t) (span_digits-join s))
  | inr other ↦ rw other refl
]

span_digits-all : (s : Text) → all is_digit (span_digits s).0 ≡ true
unfolding span_digits
span_digits-all [] = refl
span_digits-all (c ∷ s) = elim (Bool-cases (is_digit c)) [
  | inl digit ↦ rw digit (ground (arith, digit, span_digits-all s))
  | inr other ↦ rw other refl
]

ends_version-starts : (s : Text) → ends_version s ≡ true → starts_digit s ≡ false
unfolding ends_version starts_digit
ends_version-starts [] h = refl
ends_version-starts (c ∷ s) h = ground arith

after_dot_sound :
    (major s line : Text)
    → after_dot major s ≡ some line
    → (minor : Text) × (rest : Text) × (s ≡ b'.' ∷ (minor ++ rest))
      × (is_nil minor ≡ false)
      × (all is_digit minor ≡ true)
      × (ends_version rest ≡ true)
      × (line ≡ major ++ (b'.' ∷ minor))
unfolding after_dot lit
after_dot_sound major [] line h = ground arith
after_dot_sound major (c ∷ s) line h =
    let (minor, rest) = span_digits s in
    (
      minor,
      rest,
      ap₂ (λ a t. a ∷ t) (ground arith) (sym (span_digits-join s)),
      ground arith,
      span_digits-all s,
      ground arith,
      ground arith,
    )

after_dot_complete :
    (major minor rest : Text)
    → is_nil minor ≡ false
    → all is_digit minor ≡ true
    → ends_version rest ≡ true
    → after_dot major (b'.' ∷ (minor ++ rest)) ≡ some (major ++ (b'.' ∷ minor))
unfolding after_dot lit
after_dot_complete major minor rest present digits ends =
    rw (span_digits-append minor rest digits (ends_version-starts rest ends), present, ends) refl

-- A manifest version has a line exactly when it is digits, a dot and digits, followed by its end, a
-- dot or a dash, and the line is those digits with the dot.
pub match_line-IsLine : (mv line : Text) → (match_line mv ≡ some line) ↔ IsLine mv line
unfolding match_line starts_digit
match_line-IsLine mv line = (
  λ e.
      let (minor, rest, version, has_minor, minor_digits, ends, parts) =
        after_dot_sound (span_digits mv).0 (span_digits mv).1 line (ground arith) in
      record {
        major = (span_digits mv).0;
        minor = minor;
        rest = rest;
        version = sym (span_digits-join mv) ∙ ap (λ t. (span_digits mv).0 ++ t) version;
        has_major = ground arith;
        has_minor = has_minor;
        major_digits = span_digits-all mv;
        minor_digits = minor_digits;
        ends = ends;
        parts = parts;
      },
  λ l.
      let dotted = b'.' ∷ (l.minor ++ l.rest) in
      rw (l.version, span_digits-append l.major dotted l.major_digits refl, l.has_major)
        (after_dot_complete l.major l.minor l.rest l.has_minor l.minor_digits l.ends
          ∙ ap (λ t. some t) (sym l.parts)),
)
