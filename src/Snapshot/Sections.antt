-- ===== src/Snapshot/Sections.antt =====
-- The sections of the snapshot, one for each source.
use mathlib.Core.List.{append-nil}
use roksbnkctl.Prelude.{
  ℕ, ◌≡◌, refl, sym, ap, ap₂, ◌∙◌, arith, Bool, true, not, ◌&&◌, none, some, List, [], ◌∷◌, ◌++◌,
  all, All, Text, lit, ends_visibly, ends_visibly-append, inl, inr, some_injective, Option-cases,
}
use roksbnkctl.Snapshot.{starts_with, split_lines, read_from, read_assignments}
use roksbnkctl.Snapshot.Lines.{is_break, is_line}
use roksbnkctl.Snapshot.Values.{is_plain}
use roksbnkctl.Snapshot.Recorded.{read_assignments-IsEntry}
use roksbnkctl.Snapshot.Entries.{read_from-blank, all-append}
use roksbnkctl.Snapshot.RoundTrip.{is_comment, read_from-comment, read_from-empty}
use roksbnkctl.Snapshot.Rendered.{kept_all, merged, snapshot_entries-kept_all}
use roksbnkctl.Snapshot.Writing.{
  FileRead, absent, failed, content, line_then, source_label, snapshot_entries, snapshot_sections,
}

-- A file whose text, if it is there, has no other spaces than the expressions know.
abbrev pub has_plain_text : FileRead → Bool
has_plain_text absent = true
has_plain_text failed = true
has_plain_text (content t) = all is_plain t

-- A source whose label is one line, and whose text, if it is there, has no other spaces than the expressions know.
abbrev pub IsSource : (Text → FileRead) → Text → Type 0
IsSource files src = (is_line (source_label src) ≡ true) × (has_plain_text (files src) ≡ true)

pub between-is_comment :
    (s label e : Text)
    → starts_with b'#' s ≡ true
    → is_line s ≡ true
    → is_line label ≡ true
    → is_line e ≡ true
    → ends_visibly e ≡ true
    → is_comment (s ++ label ++ e) ≡ true
between-is_comment [] label e a b c d f = ground arith
between-is_comment (x ∷ s) label e a b c d f =
    let p : ℕ → Bool = λ y. not (is_break y) in
    let line : is_line ((x ∷ s) ++ label ++ e) ≡ true =
      all-append p ((x ∷ s) ++ label) e (all-append p (x ∷ s) label b c) d in
    let visible : ends_visibly ((x ∷ s) ++ label ++ e) ≡ true =
      ends_visibly-append ((x ∷ s) ++ label) e f in
    ap₂ (λ m n. m && n) (ap₂ (λ m n. m && n) a line) visible

absent-is_comment :
    (label : Text)
    → is_line label ≡ true
    → is_comment (lit "# === from " ++ label ++ lit " (missing) ===") ≡ true
unfolding lit ends_visibly
absent-is_comment label h =
    between-is_comment (lit "# === from ") label (lit " (missing) ===") refl refl h refl refl

section-is_comment :
    (label : Text)
    → is_line label ≡ true
    → is_comment (lit "# === from " ++ label ++ lit " ===") ≡ true
unfolding lit ends_visibly
section-is_comment label h =
    between-is_comment (lit "# === from ") label (lit " ===") refl refl h refl refl

module _ (files : Text → FileRead) where
  -- How the sections of the sources begin.
  snapshot_sections-absent :
      (src : Text) (sources : List Text) (text : Text)
      → files src ≡ absent
      → snapshot_sections files (src ∷ sources) ≡ some text
      → (rest : Text) × (snapshot_sections files sources ≡ some rest)
        × (text
            ≡ line_then
                (lit "# === from " ++ source_label src ++ lit " (missing) ===")
                (line_then [] rest))
  unfolding snapshot_sections
  snapshot_sections-absent src sources text e h =
      elim (Option-cases (snapshot_sections files sources)) [
        | inl k ↦ ground arith
        | inr (rest, k) ↦ (rest, k, sym (some_injective (rw (k, e) at h)))
      ]

  snapshot_sections-content :
      (src : Text) (sources : List Text) (t text : Text)
      → files src ≡ content t
      → snapshot_sections files (src ∷ sources) ≡ some text
      → (rest : Text) × (snapshot_sections files sources ≡ some rest)
        × (text
            ≡ line_then
                (lit "# === from " ++ source_label src ++ lit " ===")
                (snapshot_entries (read_assignments t) (line_then [] rest)))
  unfolding snapshot_sections
  snapshot_sections-content src sources t text e h =
      elim (Option-cases (snapshot_sections files sources)) [
        | inl k ↦ ground arith
        | inr (rest, k) ↦ (rest, k, sym (some_injective (rw (k, e) at h)))
      ]

  snapshot_sections-failed :
      (src : Text) (sources : List Text)
      → files src ≡ failed
      → snapshot_sections files (src ∷ sources) ≡ none
  unfolding snapshot_sections
  snapshot_sections-failed src sources e = elim (Option-cases (snapshot_sections files sources)) [
    | inl k ↦ ground arith
    | inr (rest, k) ↦ rw (k, e) refl
  ]

  merged-absent :
      (src : Text) (sources : List Text) (out : List (Text × Text))
      → files src ≡ absent
      → merged files (src ∷ sources) out ≡ merged files sources out
  unfolding merged
  merged-absent src sources out e = ground arith

  merged-content :
      (src : Text) (sources : List Text) (t : Text) (out : List (Text × Text))
      → files src ≡ content t
      → merged files (src ∷ sources) out ≡ merged files sources (kept_all (read_assignments t) out)
  unfolding merged
  merged-content src sources t out e = ground arith

  pub snapshot_sections-merged :
      (sources : List Text) (text : Text) (out : List (Text × Text))
      → All (IsSource files) sources
      → snapshot_sections files sources ≡ some text
      → read_from 0 (split_lines text) out ≡ merged files sources out
  unfolding snapshot_sections merged
  snapshot_sections-merged [] text out h e =
      ap (λ t. read_from 0 (split_lines t) out) (sym (some_injective e))
      ∙ read_from-empty out
      ∙ append-nil out
  snapshot_sections-merged (src ∷ sources) text out ((label, plain), h) e =
      by_file (files src) refl (λ rest below k. snapshot_sections-merged sources rest below h k)
    where
      by_file :
          (file : FileRead)
          → files src ≡ file
          → ((rest : Text) (below : List (Text × Text))
              → snapshot_sections files sources ≡ some rest
              → read_from 0 (split_lines rest) below ≡ merged files sources below)
          → read_from 0 (split_lines text) out ≡ merged files (src ∷ sources) out
      by_file failed f go =
          let no_text = snapshot_sections-failed src sources f in ground (arith, no_text)
      by_file absent f go =
          let (rest, k, same) = snapshot_sections-absent src sources text f e in
          ap (λ t. read_from 0 (split_lines t) out) same
          ∙ read_from-comment _ (line_then [] rest) out (absent-is_comment (source_label src) label)
          ∙ read_from-blank rest out
          ∙ go rest out k
          ∙ sym (merged-absent src sources out f)
      by_file (content t) f go =
          let (rest, k, same) = snapshot_sections-content src sources t text f e in
          let m = read_assignments t in
          ap (λ t. read_from 0 (split_lines t) out) same
          ∙ read_from-comment _ _ out (section-is_comment (source_label src) label)
          ∙ snapshot_entries-kept_all m (line_then [] rest) out
              (read_assignments-IsEntry t (ap has_plain_text (sym f) ∙ plain))
          ∙ read_from-blank rest (kept_all m out)
          ∙ go rest (kept_all m out) k
          ∙ sym (merged-content src sources t out f)
