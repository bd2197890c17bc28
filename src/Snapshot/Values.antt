-- ===== src/Snapshot/Values.antt =====
-- What `tfvarsAssignmentRE` and `tfvarsCommentRE` leave of a line.
use mathlib.Core.List.{append_assoc}
use roksbnkctl.Prelude.{
  ℕ, ◌≡◌, ◌⊎◌, inl, inr, refl, sym, ap, ◌∙◌, arith, Bool, true, false, not, ◌&&◌, ◌||◌, some, [],
  ◌∷◌, ◌++◌, if◌then◌else◌, all, Text, is_space, ends_visibly, ends_visibly-append, some_injective,
  Bool-cases,
}
use roksbnkctl.Snapshot.{
  is_re_space, starts_name, is_name_char, span_name, skip_spaces, assigned, after_name, assignment,
  starts_with, strip_comment,
}

-- `[A-Za-z_][A-Za-z0-9_]*`.
abbrev pub is_name : Text → Bool
is_name [] = false
is_name (c ∷ s) = starts_name c && all is_name_char s

-- A text whose first character is no whitespace of the expressions.
abbrev pub starts_solid : Text → Bool
starts_solid [] = false
starts_solid (c ∷ s) = not (is_re_space c)

-- A character that is whitespace of the expressions, or no whitespace at all.
abbrev pub is_plain : ℕ → Bool
is_plain c = is_re_space c || not (is_space c)

span_name_lem :
    (s : Text)
    → ((span_name s).0 ++ (span_name s).1 ≡ s) × (all is_name_char (span_name s).0 ≡ true)
unfolding span_name
span_name_lem [] = (refl, refl)
span_name_lem (c ∷ s) = elim (Bool-cases (is_name_char c)) [
  | inl e ↦ let (a, b) = span_name_lem s in rw e (ap (λ r. c ∷ r) a, ground arith)
  | inr e ↦ rw e (refl, refl)
]

skip_spaces-suffix : (s : Text) → (pre : Text) × (s ≡ pre ++ skip_spaces s)
unfolding skip_spaces
skip_spaces-suffix [] = ([], refl)
skip_spaces-suffix (c ∷ s) = elim (Bool-cases (is_re_space c)) [
  | inl e ↦ let (pre, h) = skip_spaces-suffix s in (c ∷ pre, rw e (ap (λ r. c ∷ r) h))
  | inr e ↦ ([], ground arith)
]

pub skip_spaces-starts_solid :
    (s : Text) → (skip_spaces s ≡ []) ⊎ (starts_solid (skip_spaces s) ≡ true)
unfolding skip_spaces
skip_spaces-starts_solid [] = inl refl
skip_spaces-starts_solid (c ∷ s) = elim (Bool-cases (is_re_space c)) [
  | inl e ↦ elim (skip_spaces-starts_solid s) [
    | inl k ↦ inl (ground arith)
    | inr k ↦ inr (ground arith)
  ]
  | inr e ↦ inr (ground arith)
]

-- A comment's sign that stripping leaves behind spaces stood there before.
strip_comment-hash :
    (s : Text)
    → starts_with b'#' (skip_spaces (strip_comment s)) ≡ true
    → starts_with b'#' (skip_spaces s) ≡ true
unfolding skip_spaces strip_comment
strip_comment-hash [] h = h
strip_comment-hash (c ∷ s) h = ground (arith, strip_comment-hash s)

pub strip_comment_idem : (s : Text) → strip_comment (strip_comment s) ≡ strip_comment s
unfolding strip_comment
strip_comment_idem [] = refl
strip_comment_idem (c ∷ s) = ground (arith, strip_comment_idem s, strip_comment-hash s)

pub all-strip_comment : (p : ℕ → Bool) (s : Text) → all p s ≡ true → all p (strip_comment s) ≡ true
unfolding strip_comment
all-strip_comment p [] h = refl
all-strip_comment p (c ∷ s) h = ground (arith, all-strip_comment p s)

pub strip_comment-starts_solid :
    (s : Text) → starts_solid s ≡ true → starts_solid (strip_comment s) ≡ true
unfolding strip_comment
strip_comment-starts_solid [] h = ground arith
strip_comment-starts_solid (c ∷ s) h = ground arith

strip_comment-cases :
    (c : ℕ) (s : Text)
    → ((is_re_space c && starts_with b'#' (skip_spaces s) ≡ true) × (strip_comment (c ∷ s) ≡ []))
      ⊎ ((is_re_space c && starts_with b'#' (skip_spaces s) ≡ false)
          × (strip_comment (c ∷ s) ≡ c ∷ strip_comment s))
unfolding strip_comment
strip_comment-cases c s = elim (Bool-cases (is_re_space c && starts_with b'#' (skip_spaces s))) [
  | inl e ↦ inl (e, rw e refl)
  | inr e ↦ inr (e, rw e refl)
]

-- A space before a space that starts a comment starts it already.
cut_at_first :
    (c d : ℕ) (s : Text)
    → (is_re_space c && starts_with b'#' (skip_spaces (d ∷ s))) ≡ false
    → (is_re_space d && starts_with b'#' (skip_spaces s)) ≡ true
    → is_plain c ≡ true
    → is_space c ≡ false
unfolding skip_spaces
cut_at_first c d s a b h =
    let behind : starts_with b'#' (if is_re_space d then skip_spaces s else d ∷ s) ≡ true =
      rw (and_left (is_re_space d) (starts_with b'#' (skip_spaces s)) b)
        (and_right (is_re_space d) (starts_with b'#' (skip_spaces s)) b) in
    plain_lem (is_re_space c) (is_space c) (starts_with b'#' (skip_spaces (d ∷ s))) a behind h
  where
    and_left : (x y : Bool) → (x && y) ≡ true → x ≡ true
    and_left x y h = ground arith

    and_right : (x y : Bool) → (x && y) ≡ true → y ≡ true
    and_right x y h = ground arith

    plain_lem : (x y z : Bool) → (x && z) ≡ false → z ≡ true → (x || not y) ≡ true → y ≡ false
    plain_lem x y z h k l = ground arith

strip_comment-ends :
    (s : Text)
    → all is_plain s ≡ true
    → ends_visibly s ≡ true
    → (strip_comment s ≡ []) ⊎ (ends_visibly (strip_comment s) ≡ true)
unfolding ends_visibly strip_comment
strip_comment-ends [] h k = ground arith
strip_comment-ends (c ∷ []) h k = elim (strip_comment-cases c []) [
  | inl (_, e) ↦ inl e
  | inr (_, e) ↦ inr (ap ends_visibly e ∙ k)
]
strip_comment-ends (c ∷ d ∷ s) h k =
    let here : is_plain c ≡ true = ground arith in
    let rest : all is_plain (d ∷ s) ≡ true = ground arith in
    elim (strip_comment-cases c (d ∷ s)) [
      | inl (_, e) ↦ inl e
      | inr (a, e) ↦ elim (strip_comment-cases d s) [
        | inl (b, f) ↦
            inr (ap ends_visibly (e ∙ ap (λ r. c ∷ r) f) ∙ ap not (cut_at_first c d s a b here))
        | inr (_, f) ↦ elim (strip_comment-ends (d ∷ s) rest k) [
          | inl g ↦ inl (ground (arith, g, f))
          | inr g ↦ inr (ap ends_visibly e ∙ ends_visibly-append (c ∷ []) (strip_comment (d ∷ s)) g)
        ]
      ]
    ]

pub strip_comment-ends_visibly :
    (s : Text)
    → all is_plain s ≡ true
    → starts_solid s ≡ true
    → ends_visibly s ≡ true
    → ends_visibly (strip_comment s) ≡ true
strip_comment-ends_visibly s h solid k = elim (strip_comment-ends s h k) [
  | inl e ↦ let filled = strip_comment-starts_solid s solid in ground (arith, e, filled)
  | inr e ↦ e
]

assigned-parts :
    (name s n v : Text)
    → assigned name s ≡ some (n, v)
    → (name ≡ n) × (s ≡ v) × (starts_solid s ≡ starts_solid v)
assigned-parts name [] n v h = ground arith
assigned-parts name (c ∷ s) n v h =
    let same : (name, c ∷ s) ≡ (n, v) = some_injective h in
    let value = ap (λ (p : Text × Text). p.1) same in
    (ap (λ (p : Text × Text). p.0) same, value, ap starts_solid value)

after_name-parts :
    (name s n v : Text)
    → after_name name s ≡ some (n, v)
    → (pre : Text) × (s ≡ pre ++ v) × (name ≡ n) × (starts_solid v ≡ true)
after_name-parts name [] n v h = ground arith
after_name-parts name (c ∷ s) n v h =
    let (pre, e) = skip_spaces-suffix s in
    let (same, value, solid) = assigned-parts name (skip_spaces s) n v (ground arith) in
    elim (skip_spaces-starts_solid s) [
      | inl k ↦ ground arith
      | inr k ↦ (c ∷ pre, ap (λ r. c ∷ r) (e ∙ ap (λ r. pre ++ r) value), same, sym solid ∙ k)
    ]

span_name-starts : (c : ℕ) (s : Text) → starts_name c ≡ true → is_name (span_name (c ∷ s)).0 ≡ true
unfolding span_name
span_name-starts c s h = let inner = (span_name_lem s).1 in ground (arith, inner)

-- The parts of a line that is an assignment: a name, and the value, which ends the line.
pub assignment-parts :
    (line name raw : Text)
    → assignment line ≡ some (name, raw)
    → (pre : Text) × (line ≡ pre ++ raw) × (is_name name ≡ true) × (starts_solid raw ≡ true)
unfolding assignment
assignment-parts [] name raw h = ground arith
assignment-parts (c ∷ s) name raw h =
    let n = (span_name (c ∷ s)).0 in
    let r = (span_name (c ∷ s)).1 in
    let starts : starts_name c ≡ true = ground arith in
    let (skipped, e) = skip_spaces-suffix r in
    let (pre, f, same, solid) = after_name-parts n (skip_spaces r) name raw (ground arith) in
    (
      n ++ (skipped ++ pre),
      sym (span_name_lem (c ∷ s)).0
          ∙ ap (λ t. n ++ t) (e ∙ ap (λ t. skipped ++ t) f ∙ sym (append_assoc skipped pre raw))
          ∙ sym (append_assoc n (skipped ++ pre) raw),
      ap is_name (sym same) ∙ span_name-starts c s starts,
      solid,
    )
