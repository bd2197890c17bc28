-- ===== src/Snapshot/Entries.antt =====
-- Reading lines as the writers print them.
use mathlib.Core.List.{append_assoc}
use roksbnkctl.Prelude.{
  ℕ, ◌≡◌, inl, inr, refl, sym, ap, ◌∙◌, arith, Bool, true, false, ◌||◌, none, some, List, [], ◌∷◌,
  ◌++◌, if◌then◌else◌, all, length, Text, empty, lit, ◌==◌, has_prefix, is_space, trim_space,
  ends_visibly, trim_space-ends_visibly, ends_visibly-append,
}
use roksbnkctl.Snapshot.{
  split_lines, span_name, skip_spaces, is_name_char, starts_name, after_name, assignment,
  strip_comment, block_depth_delta, consume_block, is_open, named, parse_entry, put, read_from,
}
use roksbnkctl.Snapshot.Lines.{
  is_line, append_lines, append_lines-append, split_lines-append, split_lines-append_lines,
  consume_block-append,
}
use roksbnkctl.Snapshot.Values.{is_name, starts_solid}
use roksbnkctl.Snapshot.Recorded.{IsRecorded, read_from-skip, read_from-put}
use roksbnkctl.Snapshot.Writing.{line_then}

pub read_from-hash :
    (s t : Text) (out : List (Text × Text))
    → is_line s ≡ true
    → ends_visibly (b'#' ∷ s) ≡ true
    → read_from 0 (split_lines (line_then (b'#' ∷ s) t)) out ≡ read_from 0 (split_lines t) out
unfolding parse_entry ◌==◌ has_prefix lit
read_from-hash s t out h k =
    let trimmed : trim_space (b'#' ∷ s) ≡ b'#' ∷ s = trim_space-ends_visibly b'#' s refl k in
    ap (λ ls. read_from 0 ls out) (split_lines-append (b'#' ∷ s) t h)
    ∙ read_from-skip (b'#' ∷ s) (split_lines t) out (rw trimmed refl)

pub read_from-blank :
    (t : Text) (out : List (Text × Text))
    → read_from 0 (split_lines (line_then [] t)) out ≡ read_from 0 (split_lines t) out
unfolding split_lines parse_entry ◌==◌ trim_space
read_from-blank t out = read_from-skip [] (split_lines t) out refl

span_name-append :
    (s r : Text) → all is_name_char s ≡ true → span_name (s ++ (b' ' ∷ r)) ≡ (s, b' ' ∷ r)
unfolding span_name
span_name-append [] r h = refl
span_name-append (c ∷ s) r h = ground (arith, span_name-append s r)

pub all-append :
    (p : ℕ → Bool) (s t : Text) → all p s ≡ true → all p t ≡ true → all p (s ++ t) ≡ true
all-append p [] t h k = k
all-append p (c ∷ s) t h k = ground (arith, all-append p s t)

names-is_line : (s : Text) → all is_name_char s ≡ true → is_line s ≡ true
names-is_line [] h = refl
names-is_line (c ∷ s) h = ground (arith, names-is_line s)

pub is_name-is_line : (s : Text) → is_name s ≡ true → is_line s ≡ true
is_name-is_line [] h = refl
is_name-is_line (c ∷ s) h = names-is_line (c ∷ s) (ground arith)

-- An entry, as it is written, up to the end of its first line.
abbrev pub entry_line : Text → Text → Text
entry_line k f = k ++ lit " = " ++ f

assignment-entry_line :
    (k f : Text)
    → is_name k ≡ true
    → starts_solid f ≡ true
    → assignment (entry_line k f) ≡ some (k, f)
unfolding assignment skip_spaces lit
assignment-entry_line [] f h s = ground arith
assignment-entry_line (c ∷ k) [] h s = ground arith
assignment-entry_line (c ∷ k) (d ∷ f) h s =
    let written : span_name (entry_line (c ∷ k) (d ∷ f)) ≡ (c ∷ k, lit " = " ++ (d ∷ f)) =
      ap (λ r. span_name (c ∷ r)) (append_assoc k (lit " = ") (d ∷ f))
      ∙ span_name-append (c ∷ k) (b'=' ∷ b' ' ∷ d ∷ f) (ground arith) in
    ap (λ (p : Text × Text). if starts_name c then after_name p.0 (skip_spaces p.1) else none)
      written
    ∙ ground arith

entry_line-is_line :
    (k f : Text) → is_name k ≡ true → is_line f ≡ true → is_line (entry_line k f) ≡ true
unfolding lit
entry_line-is_line k f h l =
    all-append _ (k ++ lit " = ") f (all-append _ k (lit " = ") (is_name-is_line k h) refl) l

starts_name-is_space : (c : ℕ) → starts_name c ≡ true → is_space c ≡ false
starts_name-is_space c h = ground arith

trim_space-entry_line :
    (k f : Text)
    → is_name k ≡ true
    → ends_visibly f ≡ true
    → trim_space (entry_line k f) ≡ entry_line k f
trim_space-entry_line [] f h e = ground arith
trim_space-entry_line (c ∷ k) f h e =
    trim_space-ends_visibly c (k ++ lit " = " ++ f) (starts_name-is_space c (ground arith))
      (ends_visibly-append (c ∷ (k ++ lit " = ")) f e)

entry_line-signs :
    (k f : Text)
    → is_name k ≡ true
    → (entry_line k f == empty
        || has_prefix (entry_line k f) (lit "#")
        || has_prefix (entry_line k f) (lit "//"))
      ≡ false
unfolding ◌==◌ has_prefix lit
entry_line-signs [] f h = ground arith
entry_line-signs (c ∷ k) f h = ground arith

parse_entry-assignment :
    (line : Text) (ls : List Text) (k raw f : Text)
    → (line == empty || has_prefix line (lit "#") || has_prefix line (lit "//")) ≡ false
    → assignment line ≡ some (k, raw)
    → strip_comment raw ≡ f
    → parse_entry line ls ≡ (
        if is_open (block_depth_delta f)
        then named k (consume_block ls f (block_depth_delta f))
        else some (k, f, 0))
unfolding parse_entry
parse_entry-assignment line ls k raw f h a b = ground arith

parse_entry-IsRecorded :
    (k v : Text) (r : IsRecorded v) (ls : List Text)
    → is_name k ≡ true
    → parse_entry (trim_space (entry_line k r.first)) (r.further ++ ls)
      ≡ some (k, v, length r.further)
parse_entry-IsRecorded k v r ls h =
    let f = r.first in
    ap (λ l. parse_entry l (r.further ++ ls)) (trim_space-entry_line k f h r.visible)
    ∙ parse_entry-assignment (entry_line k f) (r.further ++ ls) k f f (entry_line-signs k f h)
        (assignment-entry_line k f h r.solid) r.bare
    ∙ elim r.closes [
      | inl (shut, none_more) ↦
          let one : v ≡ f = r.shape ∙ ap (append_lines f) none_more in
          let no_lines : length r.further ≡ 0 = ap length none_more in
          ground (arith, shut, one, no_lines)
      | inr (opens, taken) ↦
          let all_taken =
            consume_block-append r.further ls f (block_depth_delta f) (v, length r.further) taken in
          ground (arith, opens, all_taken)
    ]

read_from-length :
    (taken ls : List Text) (out : List (Text × Text))
    → read_from (length taken) (taken ++ ls) out ≡ read_from 0 ls out
unfolding read_from
read_from-length [] ls out = refl
read_from-length (l ∷ taken) ls out = read_from-length taken ls out

-- A recorded entry that is written is read back.
pub read_from-entry_line :
    (k v t : Text) (out : List (Text × Text))
    → is_name k ≡ true
    → IsRecorded v
    → read_from 0 (split_lines (line_then (entry_line k v) t)) out
      ≡ read_from 0 (split_lines t) (put k v out)
read_from-entry_line k v t out h r =
    let f = r.first in
    let start = k ++ lit " = " in
    let written : start ++ v ≡ append_lines (entry_line k f) r.further =
      ap (λ x. start ++ x) r.shape ∙ sym (append_lines-append start f r.further) in
    ap (λ x. read_from 0 (split_lines (line_then x t)) out) written
    ∙ ap (λ ls. read_from 0 ls out)
        (split_lines-append_lines (entry_line k f) r.further t
          (entry_line-is_line k f h r.first_line) r.further_lines)
    ∙ read_from-put (entry_line k f) (r.further ++ split_lines t) out k v (length r.further)
        (parse_entry-IsRecorded k v r (split_lines t) h)
    ∙ read_from-length r.further (split_lines t) (put k v out)

-- An assignment on one line, a comment behind it or not, is read as what stands before the comment.
pub read_from-one_line :
    (k raw f t : Text) (out : List (Text × Text))
    → is_name k ≡ true
    → is_line raw ≡ true
    → starts_solid raw ≡ true
    → ends_visibly raw ≡ true
    → strip_comment raw ≡ f
    → is_open (block_depth_delta f) ≡ false
    → read_from 0 (split_lines (line_then (entry_line k raw) t)) out
      ≡ read_from 0 (split_lines t) (put k f out)
read_from-one_line k raw f t out h line solid visible strip shut =
    let parsed : parse_entry (trim_space (entry_line k raw)) (split_lines t) ≡ some (k, f, 0) =
      ap (λ l. parse_entry l (split_lines t)) (trim_space-entry_line k raw h visible)
      ∙ parse_entry-assignment (entry_line k raw) (split_lines t) k raw f (entry_line-signs k raw h)
          (assignment-entry_line k raw h solid) strip
      ∙ rw shut refl in
    ap (λ ls. read_from 0 ls out)
      (split_lines-append (entry_line k raw) t (entry_line-is_line k raw h line))
    ∙ read_from-put (entry_line k raw) (split_lines t) out k f 0 parsed
