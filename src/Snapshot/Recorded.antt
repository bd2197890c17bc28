-- ===== src/Snapshot/Recorded.antt =====
-- What `readTFVarsAssignments` records of a file.
use roksbnkctl.Prelude.{
  ℕ, zero, suc, ◌≡◌, ◌⊎◌, inl, inr, refl, sym, ap, subst, ◌∙◌, arith, Bool, true, false, not, none,
  some, List, [], ◌∷◌, ◌++◌, eqb, if◌then◌else◌, all, All, length, Text, trim_space, ends_visibly,
  ends_visibly-trim_space, ends_visibly-suffix, all-trim_space, some_injective, Bool-cases,
  Option-cases,
}
use roksbnkctl.Snapshot.{
  split_lines, onto, assignment, strip_comment, block_depth_delta, consume_block, is_open, named,
  parse_entry, put, read_from, read_assignments,
}
use roksbnkctl.Snapshot.Lines.{is_line, are_lines, append_lines, split_lines-are_lines}
use roksbnkctl.Snapshot.Values.{
  is_name, starts_solid, is_plain, strip_comment_idem, all-strip_comment,
  strip_comment-starts_solid, strip_comment-ends_visibly, assignment-parts,
}
use roksbnkctl.Snapshot.Blocks.{consume_block-lines}
use roksbnkctl.Snapshot.Maps.{is_ascending, put-is_ascending, put-All}

-- A value that is one line of its own, or a block that closes on its last line.
pub record IsRecorded (v : Text) : Type 0 where
  pub first : Text
  pub further : List Text
  pub shape : v ≡ append_lines first further
  pub first_line : is_line first ≡ true
  pub further_lines : are_lines further ≡ true
  pub solid : starts_solid first ≡ true
  pub visible : ends_visibly first ≡ true
  pub bare : strip_comment first ≡ first
  pub closes :
      ((is_open (block_depth_delta first) ≡ false) × (further ≡ []))
      ⊎ ((is_open (block_depth_delta first) ≡ true)
          × (consume_block further first (block_depth_delta first) ≡ some (v, length further)))

-- An entry that can be written and read again.
abbrev pub IsEntry : Text × Text → Type 0
IsEntry (k, v) = (is_name k ≡ true) × IsRecorded v

parse_entry-parts :
    (line : Text) (ls : List Text) (name v : Text) (n : ℕ)
    → parse_entry line ls ≡ some (name, v, n)
    → (raw : Text) × (assignment line ≡ some (name, raw))
      × (((is_open (block_depth_delta (strip_comment raw)) ≡ false) × (v ≡ strip_comment raw))
          ⊎ ((is_open (block_depth_delta (strip_comment raw)) ≡ true)
              × (consume_block ls (strip_comment raw) (block_depth_delta (strip_comment raw))
                  ≡ some (v, n))))
unfolding parse_entry
parse_entry-parts line ls name v n h = elim (Option-cases (assignment line)) [
  | inl e ↦ ground arith
  | inr ((key, raw), e) ↦
      let value = strip_comment raw in
      let depth = block_depth_delta value in
      let run : (if is_open depth
            then named key (consume_block ls value depth)
            else some (key, value, 0))
          ≡ some (name, v, n) =
        ground arith in
      elim (Bool-cases (is_open depth)) [
        | inl o ↦ elim (Option-cases (consume_block ls value depth)) [
          | inl k ↦ ground arith
          | inr ((b, m), k) ↦
              let same : (key, b, m) ≡ (name, v, n) = ground arith in
              (
                raw,
                e ∙ ap (λ (p : Text × Text × ℕ). some (p.0, raw)) same,
                inr (o, k ∙ ap (λ (p : Text × Text × ℕ). some (p.1, p.2)) same),
              )
        ]
        | inr o ↦
            let same : (key, value, 0) ≡ (name, v, n) = some_injective (rw o at run) in
            (
              raw,
              e ∙ ap (λ (p : Text × Text × ℕ). some (p.0, raw)) same,
              inl (o, sym (ap (λ (p : Text × Text × ℕ). p.1) same)),
            )
      ]
]

all-suffix : (p : ℕ → Bool) (s t : Text) → all p (s ++ t) ≡ true → all p t ≡ true
all-suffix p [] t h = h
all-suffix p (c ∷ s) t h = ground (arith, all-suffix p s t)

suffix-ends_visibly :
    (s t : Text) → starts_solid t ≡ true → ends_visibly (s ++ t) ≡ true → ends_visibly t ≡ true
suffix-ends_visibly s [] h k = ground arith
suffix-ends_visibly s (c ∷ t) h k = ends_visibly-suffix s c t k

assignment-ne : (line name raw : Text) → assignment line ≡ some (name, raw) → line ≡ [] → ⊥
unfolding assignment
assignment-ne [] name raw h e = ground arith
assignment-ne (c ∷ s) name raw h e = cc

-- What stands behind a name, less its comment, can open a recorded value.
pub record IsOpener (f : Text) : Type 0 where
  pub line : is_line f ≡ true
  pub solid : starts_solid f ≡ true
  pub visible : ends_visibly f ≡ true
  pub bare : strip_comment f ≡ f

strip_comment-IsOpener :
    (l name raw : Text)
    → is_line l ≡ true
    → all is_plain l ≡ true
    → assignment (trim_space l) ≡ some (name, raw)
    → (is_name name ≡ true) × IsOpener (strip_comment raw)
strip_comment-IsOpener l name raw line plain h =
    let (pre, split, key, solid) = assignment-parts (trim_space l) name raw h in
    let part : (p : ℕ → Bool) → all p l ≡ true → all p raw ≡ true =
      λ p k. all-suffix p pre raw (subst (λ t. all p t ≡ true) split (all-trim_space p l k)) in
    let visible : ends_visibly raw ≡ true = elim (ends_visibly-trim_space l) [
      | inl e ↦ absurd (assignment-ne (trim_space l) name raw h e)
      | inr e ↦ suffix-ends_visibly pre raw solid (subst (λ t. ends_visibly t ≡ true) split e)
    ] in
    (
      key,
      record {
        line = all-strip_comment (λ c. not (eqb c b'\n')) raw (part (λ c. not (eqb c b'\n')) line);
        solid = strip_comment-starts_solid raw solid;
        visible = strip_comment-ends_visibly raw (part is_plain plain) solid visible;
        bare = strip_comment_idem raw;
      },
    )

IsOpener-IsRecorded :
    (f v : Text) (ls : List Text) (n : ℕ)
    → IsOpener f
    → are_lines ls ≡ true
    → ((is_open (block_depth_delta f) ≡ false) × (v ≡ f))
      ⊎ ((is_open (block_depth_delta f) ≡ true)
          × (consume_block ls f (block_depth_delta f) ≡ some (v, n)))
    → IsRecorded v
IsOpener-IsRecorded f v ls n o lines (inl (shut, e)) = record {
  first = f;
  further = [];
  shape = e;
  first_line = o.line;
  further_lines = refl;
  solid = o.solid;
  visible = o.visible;
  bare = o.bare;
  closes = inl (shut, refl);
}
IsOpener-IsRecorded f v ls n o lines (inr (opens, e)) =
    let (ks, k_lines, shape, again) = consume_block-lines ls f v (block_depth_delta f) n lines e in
    record {
      first = f;
      further = ks;
      shape = shape;
      first_line = o.line;
      further_lines = k_lines;
      solid = o.solid;
      visible = o.visible;
      bare = o.bare;
      closes = inr (opens, again);
    }

parse_entry-IsEntry :
    (l : Text) (ls : List Text) (name v : Text) (n : ℕ)
    → is_line l ≡ true
    → all is_plain l ≡ true
    → are_lines ls ≡ true
    → parse_entry (trim_space l) ls ≡ some (name, v, n)
    → IsEntry (name, v)
parse_entry-IsEntry l ls name v n line plain lines h =
    let (raw, e, shut) = parse_entry-parts (trim_space l) ls name v n h in
    let opened = strip_comment-IsOpener l name raw line plain e in
    (opened.0, IsOpener-IsRecorded (strip_comment raw) v ls n opened.1 lines shut)

pub read_from-skip :
    (l : Text) (ls : List Text) (out : List (Text × Text))
    → parse_entry (trim_space l) ls ≡ none
    → read_from 0 (l ∷ ls) out ≡ read_from 0 ls out
unfolding read_from
read_from-skip l ls out h = ground arith

pub read_from-put :
    (l : Text) (ls : List Text) (out : List (Text × Text)) (name v : Text) (n : ℕ)
    → parse_entry (trim_space l) ls ≡ some (name, v, n)
    → read_from 0 (l ∷ ls) out ≡ read_from n ls (put name v out)
unfolding read_from
read_from-put l ls out name v n h = ground arith

read_from-IsEntry :
    (skip : ℕ) (ls : List Text) (out : List (Text × Text))
    → are_lines ls ≡ true
    → all (λ l. all is_plain l) ls ≡ true
    → All IsEntry out
    → All IsEntry (read_from skip ls out)
unfolding read_from
read_from-IsEntry skip [] out h k o = o
read_from-IsEntry (suc skip) (l ∷ ls) out h k o =
    read_from-IsEntry skip ls out (ground arith) (ground arith) o
read_from-IsEntry zero (l ∷ ls) out h k o = elim (Option-cases (parse_entry (trim_space l) ls)) [
  | inl e ↦
      subst (λ m. All IsEntry m) (sym (read_from-skip l ls out e))
        (read_from-IsEntry 0 ls out (ground arith) (ground arith) o)
  | inr ((name, v, n), e) ↦
      let entry =
        parse_entry-IsEntry l ls name v n (ground arith) (ground arith) (ground arith) e in
      subst (λ m. All IsEntry m) (sym (read_from-put l ls out name v n e))
        (read_from-IsEntry n ls (put name v out) (ground arith) (ground arith)
          (put-All IsEntry name v out entry o))
]

read_from-is_ascending :
    (skip : ℕ) (ls : List Text) (out : List (Text × Text))
    → is_ascending out ≡ true
    → is_ascending (read_from skip ls out) ≡ true
unfolding read_from
read_from-is_ascending skip [] out o = o
read_from-is_ascending (suc skip) (l ∷ ls) out o = read_from-is_ascending skip ls out o
read_from-is_ascending zero (l ∷ ls) out o = elim (Option-cases (parse_entry (trim_space l) ls)) [
  | inl e ↦ ap is_ascending (read_from-skip l ls out e) ∙ read_from-is_ascending 0 ls out o
  | inr ((name, v, n), e) ↦
      ap is_ascending (read_from-put l ls out name v n e)
      ∙ read_from-is_ascending n ls (put name v out) (put-is_ascending name v out o)
]

all-onto :
    (p : ℕ → Bool) (c : ℕ) (ls : List Text)
    → p c ≡ true
    → all (λ l. all p l) ls ≡ true
    → all (λ l. all p l) (onto c ls) ≡ true
all-onto p c [] h k = ground arith
all-onto p c (l ∷ ls) h k = ground arith

all-split_lines :
    (p : ℕ → Bool) (t : Text) → all p t ≡ true → all (λ l. all p l) (split_lines t) ≡ true
unfolding split_lines
all-split_lines p [] h = refl
all-split_lines p (c ∷ t) h = elim (Bool-cases (eqb c b'\n')) [
  | inl e ↦ rw e (all-split_lines p t (ground arith))
  | inr e ↦ rw e (all-onto p c (split_lines t) (ground arith) (all-split_lines p t (ground arith)))
]

pub read_assignments-is_ascending : (t : Text) → is_ascending (read_assignments t) ≡ true
unfolding read_assignments
read_assignments-is_ascending t = read_from-is_ascending 0 (split_lines t) [] refl

pub read_assignments-IsEntry : (t : Text) → all is_plain t ≡ true → All IsEntry (read_assignments t)
unfolding read_assignments
read_assignments-IsEntry t h =
    read_from-IsEntry 0 (split_lines t) [] (split_lines-are_lines t) (all-split_lines is_plain t h)
      tt
