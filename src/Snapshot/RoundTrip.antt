-- ===== src/Snapshot/RoundTrip.antt =====
-- Writing the replay file and reading it back.
use mathlib.Core.List.{append_assoc, append-nil}
use roksbnkctl.Prelude.{
  ◌≡◌, inl, inr, refl, sym, ap, ap₂, subst, ◌∙◌, arith, Bool, true, false, not, ◌&&◌, List, [], ◌∷◌,
  ◌++◌, if◌then◌else◌, all, All, Text, lit, ◌==◌, trim_space, ends_visibly, ends_visibly-append,
  Bool-cases,
}
use roksbnkctl.Snapshot.{
  split_lines, hcl_value_is_unbalanced, starts_with, parse_entry, put, read_from, read_assignments,
}
use roksbnkctl.Snapshot.Lines.{is_break, is_line}
use roksbnkctl.Snapshot.Values.{is_name, is_plain}
use roksbnkctl.Snapshot.Maps.{follow, lead, is_ascending, put-lead, lead-append}
use roksbnkctl.Snapshot.Recorded.{
  IsRecorded, IsEntry, read_assignments-is_ascending, read_assignments-IsEntry,
}
use roksbnkctl.Snapshot.Entries.{
  read_from-hash, read_from-blank, all-append, is_name-is_line, entry_line, read_from-entry_line,
}
use roksbnkctl.Snapshot.Writing.{line_then, replay_entry, replay_entries, applied_replay_file}

-- The entries whose values have balanced brackets.
unfoldable pub balanced : List (Text × Text) → List (Text × Text)
balanced [] = []
balanced ((k, v) ∷ m) =
    let rest = balanced m in if hcl_value_is_unbalanced v then rest else (k, v) ∷ rest

pub read_from-empty : (out : List (Text × Text)) → read_from 0 (split_lines []) out ≡ out ++ []
unfolding split_lines read_from parse_entry ◌==◌ trim_space
read_from-empty out = sym (append-nil out)

abbrev note : Text
note = lit " = <skipped: unbalanced brackets in the applied snapshot>"

note-ends_visibly : ends_visibly note ≡ true
unfolding ends_visibly lit
note-ends_visibly = refl

replay_entry-unbalanced :
    (k v t : Text) (out : List (Text × Text))
    → is_name k ≡ true
    → hcl_value_is_unbalanced v ≡ true
    → read_from 0 (split_lines (line_then (replay_entry k v) t)) out
      ≡ read_from 0 (split_lines t) out
unfolding replay_entry lit
replay_entry-unbalanced k v t out h u =
    let line : is_line (b' ' ∷ (k ++ note)) ≡ true =
      all-append (λ c. not (is_break c)) k note (is_name-is_line k h) refl in
    ap (λ l. read_from 0 (split_lines (line_then l t)) out) {y = b'#' ∷ b' ' ∷ (k ++ note)}
      (rw u refl)
    ∙ read_from-hash (b' ' ∷ (k ++ note)) t out line
        (ends_visibly-append (b'#' ∷ b' ' ∷ k) note note-ends_visibly)

replay_entry-balanced :
    (k v t : Text) (out : List (Text × Text))
    → is_name k ≡ true
    → IsRecorded v
    → hcl_value_is_unbalanced v ≡ false
    → read_from 0 (split_lines (line_then (replay_entry k v) t)) out
      ≡ read_from 0 (split_lines t) (put k v out)
unfolding replay_entry
replay_entry-balanced k v t out h r u =
    ap (λ l. read_from 0 (split_lines (line_then l t)) out) {y = entry_line k v} (rw u refl)
    ∙ read_from-entry_line k v t out h r

-- All keys of the one list come before those of the other.
abbrev leads : List (Text × Text) → List (Text × Text) → Bool
leads out [] = true
leads out ((k, v) ∷ m) = lead k out && leads out m

leads-append :
    (out m : List (Text × Text)) (k v : Text)
    → leads out m ≡ true
    → follow k m ≡ true
    → leads (out ++ ((k, v) ∷ [])) m ≡ true
leads-append out [] k v h f = refl
leads-append out ((l, w) ∷ m) k v h f =
    ground (arith, leads-append out m k v, lead-append l k v out)

leads_nil : (m : List (Text × Text)) → leads [] m ≡ true
leads_nil [] = refl
leads_nil ((k, v) ∷ m) = leads_nil m

read_from-replay_entries :
    (m out : List (Text × Text))
    → All IsEntry m
    → is_ascending m ≡ true
    → leads out m ≡ true
    → read_from 0 (split_lines (replay_entries m)) out ≡ out ++ balanced m
unfolding replay_entries balanced
read_from-replay_entries [] out h a l = read_from-empty out
read_from-replay_entries ((k, v) ∷ m) out ((key, value), h) a l =
    elim (Bool-cases (hcl_value_is_unbalanced v)) [
      | inl u ↦
          replay_entry-unbalanced k v (replay_entries m) out key u
          ∙ read_from-replay_entries m out h (ground arith) (ground arith)
          ∙ rw u refl
      | inr u ↦
          let last : put k v out ≡ out ++ ((k, v) ∷ []) = put-lead k v out (ground arith) in
          let before : leads (out ++ ((k, v) ∷ [])) m ≡ true =
            leads-append out m k v (ground arith) (ground arith) in
          replay_entry-balanced k v (replay_entries m) out key value u
          ∙ ap (read_from 0 (split_lines (replay_entries m))) last
          ∙ read_from-replay_entries m (out ++ ((k, v) ∷ [])) h (ground arith) before
          ∙ append_assoc out ((k, v) ∷ []) (balanced m)
          ∙ rw u refl
    ]

-- A line of its own that is a comment.
abbrev pub is_comment : Text → Bool
is_comment l = starts_with b'#' l && is_line l && ends_visibly l

pub read_from-comment :
    (l t : Text) (out : List (Text × Text))
    → is_comment l ≡ true
    → read_from 0 (split_lines (line_then l t)) out ≡ read_from 0 (split_lines t) out
read_from-comment [] t out h = ground arith
read_from-comment (c ∷ l) t out h =
    let hash : c ≡ b'#' = ground arith in
    let line : is_line l ≡ true = ground arith in
    let visible : ends_visibly (c ∷ l) ≡ true = ground arith in
    ap (λ d. read_from 0 (split_lines (line_then (d ∷ l) t)) out) hash
    ∙ read_from-hash l t out line (subst (λ d. ends_visibly (d ∷ l) ≡ true) hash visible)

first_line-is_comment :
    (phase : Text)
    → is_line phase ≡ true
    → is_comment (
        lit "# Auto-generated by roksbnkctl from terraform.applied.tfvars (phase="
        ++ phase
        ++ lit ").")
      ≡ true
unfolding lit ends_visibly
first_line-is_comment phase h =
    let start = lit "# Auto-generated by roksbnkctl from terraform.applied.tfvars (phase=" in
    let line : is_line (start ++ phase ++ lit ").") ≡ true =
      all-append (λ c. not (is_break c)) (start ++ phase) (lit ").")
        (all-append (λ c. not (is_break c)) start phase refl h) refl in
    let visible : ends_visibly (start ++ phase ++ lit ").") ≡ true =
      ends_visibly-append (start ++ phase) (lit ").") refl in
    ap₂ (λ x y. x && y) line visible

second_line-is_comment :
    is_comment (lit "# Deduped (later-source-wins) and stripped of redacted secret keys.") ≡ true
unfolding lit ends_visibly
second_line-is_comment = refl

third_line-is_comment :
    is_comment (
      lit
        "# Re-generated on every down/plan/apply. Do not edit by hand — your changes will be overwritten.")
    ≡ true
unfolding lit ends_visibly
third_line-is_comment = refl

pub applied_replay_file-entries :
    (phase : Text) (m : List (Text × Text))
    → is_line phase ≡ true
    → All IsEntry m
    → is_ascending m ≡ true
    → read_assignments (applied_replay_file phase m) ≡ balanced m
unfolding read_assignments applied_replay_file
applied_replay_file-entries phase m p h a =
    read_from-comment _ _ [] (first_line-is_comment phase p)
    ∙ read_from-comment _ _ [] second_line-is_comment
    ∙ read_from-comment _ _ [] third_line-is_comment
    ∙ read_from-blank (replay_entries m) []
    ∙ read_from-replay_entries m [] h a (leads_nil m)

-- Reading back the replay file of what was read from any file gives the same entries, those with unbalanced
-- brackets left out, where the file's characters are whitespace as the expressions have it, or visible, and the
-- phase is one line.
pub applied_replay_file-read_assignments :
    (phase t : Text)
    → is_line phase ≡ true
    → all is_plain t ≡ true
    → read_assignments (applied_replay_file phase (read_assignments t))
      ≡ balanced (read_assignments t)
applied_replay_file-read_assignments phase t p h =
    applied_replay_file-entries phase (read_assignments t) p (read_assignments-IsEntry t h)
      (read_assignments-is_ascending t)
