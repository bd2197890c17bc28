-- ===== src/Snapshot/Rendered.antt =====
-- What the snapshot says that `renderAppliedTFVars` writes.
use mathlib.Core.List.{append_assoc}
use roksbnkctl.Prelude.{
  ◌≡◌, refl, sym, ap, ◌∙◌, true, false, not, List, [], ◌∷◌, ◌++◌, if◌then◌else◌, All, Text, lit,
  ends_visibly, ends_visibly-append, inl, inr, Bool-cases,
}
use roksbnkctl.Snapshot.{
  skip_spaces, strip_comment, depth_from, block_depth_delta, hcl_value_is_unbalanced, is_open, put,
  split_lines, read_from, read_assignments, is_redacted,
}
use roksbnkctl.Snapshot.Lines.{is_break, is_line}
use roksbnkctl.Snapshot.Values.{is_name}
use roksbnkctl.Snapshot.Recorded.{IsRecorded, IsEntry}
use roksbnkctl.Snapshot.Entries.{
  read_from-hash, all-append, is_name-is_line, entry_line, read_from-entry_line, read_from-one_line,
}
use roksbnkctl.Snapshot.Writing.{
  FileRead, absent, failed, content, line_then, snapshot_entry, snapshot_entries,
}

-- What stands in the place of a secret.
abbrev pub hidden : Text
hidden = lit "\"<redacted>\""

-- One entry of a source, as the snapshot keeps it.
unfoldable pub kept : Text → Text → List (Text × Text) → List (Text × Text)
kept k v out =
    if is_redacted k
    then put k hidden out
    else if hcl_value_is_unbalanced v
    then out
    else put k v out

unfoldable pub kept_all : List (Text × Text) → List (Text × Text) → List (Text × Text)
kept_all [] out = out
kept_all ((k, v) ∷ m) out = kept_all m (kept k v out)

-- The sources one after the other, so that the last entry of a variable that is kept decides.
unfoldable pub merged : (Text → FileRead) → List Text → List (Text × Text) → List (Text × Text)
merged files [] out = out
merged files (src ∷ sources) out = elim (files src) [
  | failed ↦ out
  | absent ↦ merged files sources out
  | content t ↦ merged files sources (kept_all (read_assignments t) out)
]

abbrev secret_value : Text
secret_value = lit "\"<redacted>\"  # source: cred resolver, not persisted"

secret_value-parts :
    (is_line secret_value ≡ true)
    × (ends_visibly secret_value ≡ true)
    × (strip_comment secret_value ≡ hidden)
    × (is_open (block_depth_delta hidden) ≡ false)
unfolding lit ends_visibly strip_comment skip_spaces depth_from block_depth_delta
secret_value-parts = (refl, refl, refl, refl)

snapshot_entry-redacted :
    (k v t : Text) (out : List (Text × Text))
    → is_name k ≡ true
    → is_redacted k ≡ true
    → read_from 0 (split_lines (line_then (snapshot_entry k v) t)) out
      ≡ read_from 0 (split_lines t) (put k hidden out)
unfolding snapshot_entry lit
snapshot_entry-redacted k v t out h r =
    let (line, visible, strip, shut) = secret_value-parts in
    ap (λ l. read_from 0 (split_lines (line_then l t)) out) {y = entry_line k secret_value}
      (rw r (sym (append_assoc k (lit " = ") secret_value)))
    ∙ read_from-one_line k secret_value hidden t out h line refl visible strip shut

abbrev note : Text
note = lit " = <skipped: unbalanced brackets>"

note-ends_visibly : ends_visibly note ≡ true
unfolding ends_visibly lit
note-ends_visibly = refl

snapshot_entry-unbalanced :
    (k v t : Text) (out : List (Text × Text))
    → is_name k ≡ true
    → is_redacted k ≡ false
    → hcl_value_is_unbalanced v ≡ true
    → read_from 0 (split_lines (line_then (snapshot_entry k v) t)) out
      ≡ read_from 0 (split_lines t) out
unfolding snapshot_entry lit
snapshot_entry-unbalanced k v t out h r u =
    let line : is_line (b' ' ∷ (k ++ note)) ≡ true =
      all-append (λ c. not (is_break c)) k note (is_name-is_line k h) refl in
    ap (λ l. read_from 0 (split_lines (line_then l t)) out) {y = b'#' ∷ b' ' ∷ (k ++ note)}
      (rw (r, u) refl)
    ∙ read_from-hash (b' ' ∷ (k ++ note)) t out line
        (ends_visibly-append (b'#' ∷ b' ' ∷ k) note note-ends_visibly)

snapshot_entry-plain :
    (k v t : Text) (out : List (Text × Text))
    → is_name k ≡ true
    → IsRecorded v
    → is_redacted k ≡ false
    → hcl_value_is_unbalanced v ≡ false
    → read_from 0 (split_lines (line_then (snapshot_entry k v) t)) out
      ≡ read_from 0 (split_lines t) (put k v out)
unfolding snapshot_entry
snapshot_entry-plain k v t out h rec r u =
    ap (λ l. read_from 0 (split_lines (line_then l t)) out) {y = entry_line k v} (rw (r, u) refl)
    ∙ read_from-entry_line k v t out h rec

snapshot_entry-kept :
    (k v t : Text) (out : List (Text × Text))
    → IsEntry (k, v)
    → read_from 0 (split_lines (line_then (snapshot_entry k v) t)) out
      ≡ read_from 0 (split_lines t) (kept k v out)
unfolding kept
snapshot_entry-kept k v t out (h, rec) = elim (Bool-cases (is_redacted k)) [
  | inl r ↦ snapshot_entry-redacted k v t out h r ∙ ap (read_from 0 (split_lines t)) (rw r refl)
  | inr r ↦ elim (Bool-cases (hcl_value_is_unbalanced v)) [
    | inl u ↦
        snapshot_entry-unbalanced k v t out h r u
        ∙ ap (read_from 0 (split_lines t)) (rw (r, u) refl)
    | inr u ↦
        snapshot_entry-plain k v t out h rec r u ∙ ap (read_from 0 (split_lines t)) (rw (r, u) refl)
  ]
]

pub snapshot_entries-kept_all :
    (m : List (Text × Text)) (rest : Text) (out : List (Text × Text))
    → All IsEntry m
    → read_from 0 (split_lines (snapshot_entries m rest)) out
      ≡ read_from 0 (split_lines rest) (kept_all m out)
unfolding snapshot_entries kept_all
snapshot_entries-kept_all [] rest out h = refl
snapshot_entries-kept_all ((k, v) ∷ m) rest out (e, h) =
    snapshot_entry-kept k v (snapshot_entries m rest) out e
    ∙ snapshot_entries-kept_all m rest (kept k v out) h
