-- ===== src/Snapshot/Merged.antt =====
-- What is read back from the snapshot that `renderAppliedTFVars` writes.
use roksbnkctl.Prelude.{
  false, ◌⊎◌, ℕ, ◌≡◌, refl, sym, ap, subst, ◌∙◌, arith, Bool, true, not, some, List, [], ◌∷◌, ◌++◌,
  All, Text, lit, ends_visibly, inl, inr, Bool-cases, Option-cases,
}
use roksbnkctl.Snapshot.{
  hcl_value_is_unbalanced, put, split_lines, read_from, read_assignments, is_redacted,
}
use roksbnkctl.Snapshot.Lines.{is_break, is_line}
use roksbnkctl.Snapshot.Maps.{put-All}
use roksbnkctl.Snapshot.Entries.{read_from-blank, all-append}
use roksbnkctl.Snapshot.RoundTrip.{is_comment, read_from-comment}
use roksbnkctl.Snapshot.Rendered.{hidden, kept, kept_all, merged}
use roksbnkctl.Snapshot.Sections.{IsSource, between-is_comment, snapshot_sections-merged}
use roksbnkctl.Snapshot.Writing.{
  FileRead, absent, failed, content, line_then, snapshot_sections, render_applied_tfvars,
}

render_applied_tfvars-parts :
    (files : Text → FileRead) (phase now version written : Text) (sources : List Text)
    → render_applied_tfvars files phase sources now version ≡ some written
    → (sections : Text) × (snapshot_sections files sources ≡ some sections)
      × (written
          ≡ line_then
              (lit "# Generated by roksbnkctl "
                ++ version
                ++ lit " at "
                ++ now
                ++ lit " after terraform apply on phase="
                ++ phase
                ++ lit ".")
              (line_then
                (lit
                  "# Re-generated each apply. Do not edit by hand — your changes will be overwritten.")
                (line_then [] sections)))
unfolding render_applied_tfvars
render_applied_tfvars-parts files phase now version written sources h =
    elim (Option-cases (snapshot_sections files sources)) [
      | inl k ↦ ground arith
      | inr (sections, k) ↦ (sections, k, ground arith)
    ]

first_line-is_comment :
    (phase now version : Text)
    → is_line phase ≡ true
    → is_line now ≡ true
    → is_line version ≡ true
    → is_comment (
        lit "# Generated by roksbnkctl "
        ++ version
        ++ lit " at "
        ++ now
        ++ lit " after terraform apply on phase="
        ++ phase
        ++ lit ".")
      ≡ true
unfolding lit ends_visibly
first_line-is_comment phase now version p n v =
    let q : ℕ → Bool = λ y. not (is_break y) in
    let a = lit "# Generated by roksbnkctl " ++ version in
    let b = a ++ lit " at " ++ now in
    let start = b ++ lit " after terraform apply on phase=" in
    let a_line : is_line a ≡ true =
      all-append q (lit "# Generated by roksbnkctl ") version refl v in
    let b_line : is_line b ≡ true =
      all-append q (a ++ lit " at ") now (all-append q a (lit " at ") a_line refl) n in
    let s_line : is_line start ≡ true =
      all-append q b (lit " after terraform apply on phase=") b_line refl in
    between-is_comment start phase (lit ".") refl s_line p refl refl

second_line-is_comment :
    is_comment
      (lit "# Re-generated each apply. Do not edit by hand — your changes will be overwritten.")
    ≡ true
unfolding lit ends_visibly
second_line-is_comment = refl

read_assignments-header :
    (phase now version sections : Text)
    → is_line phase ≡ true
    → is_line now ≡ true
    → is_line version ≡ true
    → read_assignments (
        line_then
          (lit "# Generated by roksbnkctl "
            ++ version
            ++ lit " at "
            ++ now
            ++ lit " after terraform apply on phase="
            ++ phase
            ++ lit ".")
          (line_then
            (lit
              "# Re-generated each apply. Do not edit by hand — your changes will be overwritten.")
            (line_then [] sections)))
      ≡ read_from 0 (split_lines sections) []
unfolding read_assignments
read_assignments-header phase now version sections p n v =
    read_from-comment _ _ [] (first_line-is_comment phase now version p n v)
    ∙ read_from-comment _ _ [] second_line-is_comment
    ∙ read_from-blank sections []

-- Every redacted name has the text that hides its value.
abbrev pub IsHidden : Text × Text → Type 0
IsHidden (k, v) = (is_redacted k ≡ false) ⊎ (v ≡ hidden)

kept-IsHidden :
    (k v : Text) (out : List (Text × Text)) → All IsHidden out → All IsHidden (kept k v out)
unfolding kept
kept-IsHidden k v out h = elim (Bool-cases (is_redacted k)) [
  | inl r ↦
      subst (λ m. All IsHidden m) {x = put k hidden out} (rw r refl)
        (put-All IsHidden k hidden out (inr refl) h)
  | inr r ↦ elim (Bool-cases (hcl_value_is_unbalanced v)) [
    | inl u ↦ subst (λ m. All IsHidden m) {x = out} (rw (r, u) refl) h
    | inr u ↦
        subst (λ m. All IsHidden m) {x = put k v out} (rw (r, u) refl)
          (put-All IsHidden k v out (inl r) h)
  ]
]

kept_all-IsHidden : (m out : List (Text × Text)) → All IsHidden out → All IsHidden (kept_all m out)
unfolding kept_all
kept_all-IsHidden [] out h = h
kept_all-IsHidden ((k, v) ∷ m) out h = kept_all-IsHidden m (kept k v out) (kept-IsHidden k v out h)

merged-IsHidden :
    (files : Text → FileRead) (sources : List Text) (out : List (Text × Text))
    → All IsHidden out
    → All IsHidden (merged files sources out)
unfolding merged
merged-IsHidden files [] out h = h
merged-IsHidden files (src ∷ sources) out h =
    by_file (files src) (merged-IsHidden files sources out h) (λ t.
      merged-IsHidden files sources (kept_all (read_assignments t) out)
        (kept_all-IsHidden (read_assignments t) out h))
  where
    by_file :
        (file : FileRead)
        → All IsHidden (merged files sources out)
        → ((t : Text) → All IsHidden (merged files sources (kept_all (read_assignments t) out)))
        → All IsHidden (elim file [
          | failed ↦ out
          | absent ↦ merged files sources out
          | content t ↦ merged files sources (kept_all (read_assignments t) out)
        ])
    by_file failed a b = h
    by_file absent a b = a
    by_file (content t) a b = b t

-- Where version, time and phase are one line each, and each source is labelled by one line and has no whitespace but that
-- of the expressions: reading the snapshot gives the merge of the sources, in which the last assignment of a variable
-- decides that was not dropped for unbalanced brackets; and a redacted name has no value but the text that hides it.
pub render_applied_tfvars-merged :
    (files : Text → FileRead) (phase now version written : Text) (sources : List Text)
    → is_line phase ≡ true
    → is_line now ≡ true
    → is_line version ≡ true
    → All (IsSource files) sources
    → render_applied_tfvars files phase sources now version ≡ some written
    → (read_assignments written ≡ merged files sources []) × All IsHidden (read_assignments written)
render_applied_tfvars-merged files phase now version written sources p n v h e =
    let (sections, k, same) =
      render_applied_tfvars-parts files phase now version written sources e in
    let back : read_assignments written ≡ merged files sources [] =
      ap read_assignments same
      ∙ read_assignments-header phase now version sections p n v
      ∙ snapshot_sections-merged files sources sections [] h k in
    (back, subst (λ m. All IsHidden m) (sym back) (merged-IsHidden files sources [] tt))
