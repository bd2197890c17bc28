-- ===== src/Snapshot/Lines.antt =====
-- Texts and their lines: what splitting, trimming and counting brackets do to a part of a text.
use mathlib.Core.List.{append_assoc}
use roksbnkctl.Prelude.{
  ℕ, ◌≡◌, refl, sym, ap, ap₂, ◌∙◌, ◌⊎◌, Option-cases, arith, Bool, true, false, not, ◌&&◌, some,
  List, [], ◌∷◌, ◌++◌, eqb, is_nil, all, Text, Bool-cases, inl, inr,
}
use roksbnkctl.Prelude.Int.{ℤ, pos, ◌+ℤ◌}
use roksbnkctl.Snapshot.{
  split_lines, onto, trim_cr, Place, in_code, in_string, in_escape, in_comment, step_place, weight,
  starts_with, depth_from, block_depth_delta, consume_block,
}

abbrev pub is_break : ℕ → Bool
is_break c = eqb c b'\n'

-- A text without a line break.
abbrev pub is_line : Text → Bool
is_line s = all (λ c. not (is_break c)) s

abbrev pub are_lines : List Text → Bool
are_lines ls = all is_line ls

pub split_lines-is_line : (l : Text) → is_line l ≡ true → split_lines l ≡ l ∷ []
unfolding split_lines
split_lines-is_line [] h = refl
split_lines-is_line (c ∷ l) h = ground (arith, split_lines-is_line l)

pub split_lines-append :
    (l t : Text) → is_line l ≡ true → split_lines (l ++ (b'\n' ∷ t)) ≡ l ∷ split_lines t
unfolding split_lines
split_lines-append [] t h = refl
split_lines-append (c ∷ l) t h = ground (arith, split_lines-append l t)

split_lines-are_lines-onto :
    (c : ℕ) (ls : List Text)
    → eqb c b'\n' ≡ false
    → are_lines ls ≡ true
    → are_lines (onto c ls) ≡ true
split_lines-are_lines-onto c [] h k = ground arith
split_lines-are_lines-onto c (l ∷ ls) h k = ground arith

pub split_lines-are_lines : (t : Text) → are_lines (split_lines t) ≡ true
unfolding split_lines
split_lines-are_lines [] = refl
split_lines-are_lines (c ∷ t) = elim (Bool-cases (eqb c b'\n')) [
  | inl e ↦ ground (arith, split_lines-are_lines t)
  | inr e ↦
      let rest = split_lines-are_lines-onto c (split_lines t) e (split_lines-are_lines t) in
      ground (arith, rest)
]

starts_with-trim_cr : (s : Text) → starts_with b'/' (trim_cr s) ≡ starts_with b'/' s
unfolding trim_cr
starts_with-trim_cr [] = refl
starts_with-trim_cr (c ∷ s) = ground arith

pub trim_cr-is_line : (s : Text) → is_line s ≡ true → is_line (trim_cr s) ≡ true
unfolding trim_cr
trim_cr-is_line [] h = refl
trim_cr-is_line (c ∷ s) h = ground (arith, trim_cr-is_line s)

pub trim_cr_idem : (s : Text) → trim_cr (trim_cr s) ≡ trim_cr s
unfolding trim_cr
trim_cr_idem [] = refl
trim_cr_idem (c ∷ s) = ground (arith, trim_cr_idem s)

step_place-trim_cr :
    (place : Place) (c : ℕ) (s : Text) → step_place place c (trim_cr s) ≡ step_place place c s
step_place-trim_cr in_code c s = ground (arith, starts_with-trim_cr s)
step_place-trim_cr in_string c s = refl
step_place-trim_cr in_escape c s = refl
step_place-trim_cr in_comment c s = refl

weight-cr : (place : Place) → weight place b'\r' ≡ pos 0
weight-cr in_code = refl
weight-cr in_string = refl
weight-cr in_escape = refl
weight-cr in_comment = refl

trim_cr-cons :
    (c : ℕ) (s : Text)
    → (trim_cr (c ∷ s) ≡ c ∷ trim_cr s) ⊎ ((trim_cr (c ∷ s) ≡ []) × (trim_cr s ≡ []) × (c ≡ b'\r'))
unfolding trim_cr
trim_cr-cons c s = elim (Bool-cases (is_nil (trim_cr s) && eqb c b'\r')) [
  | inl e ↦ inr (ground arith)
  | inr e ↦ inl (ground arith)
]

depth_from-trim_cr : (place : Place) (s : Text) → depth_from place (trim_cr s) ≡ depth_from place s
unfolding depth_from trim_cr
depth_from-trim_cr place [] = refl
depth_from-trim_cr place (c ∷ s) = elim (trim_cr-cons c s) [
  | inl e ↦
      ap (depth_from place) e
      ∙ ap (λ q. weight place c +ℤ depth_from q (trim_cr s)) (step_place-trim_cr place c s)
      ∙ ap (λ d. weight place c +ℤ d) (depth_from-trim_cr (step_place place c s) s)
  | inr (e, f, g) ↦
      let after : depth_from (step_place place c s) s ≡ pos 0 =
        sym (depth_from-trim_cr (step_place place c s) s)
        ∙ ap (depth_from (step_place place c s)) f in
      let here : weight place c ≡ pos 0 = ap (weight place) g ∙ weight-cr place in
      ap (depth_from place) e ∙ sym (ap₂ (λ x y. x +ℤ y) here after)
]

pub block_depth_delta-trim_cr : (s : Text) → block_depth_delta (trim_cr s) ≡ block_depth_delta s
unfolding block_depth_delta
block_depth_delta-trim_cr s = depth_from-trim_cr in_code s

-- A text with further lines behind it.
abbrev pub append_lines : Text → List Text → Text
append_lines s [] = s
append_lines s (l ∷ ls) = append_lines (s ++ (b'\n' ∷ l)) ls

pub append_lines-append :
    (s t : Text) (ls : List Text) → append_lines (s ++ t) ls ≡ s ++ append_lines t ls
append_lines-append s t [] = refl
append_lines-append s t (l ∷ ls) =
    ap (λ r. append_lines r ls) (append_assoc s t (b'\n' ∷ l))
    ∙ append_lines-append s (t ++ (b'\n' ∷ l)) ls

append_lines-cons :
    (s l : Text) (ls : List Text) → append_lines s (l ∷ ls) ≡ s ++ (b'\n' ∷ append_lines l ls)
append_lines-cons s l ls =
    append_lines-append s (b'\n' ∷ l) ls ∙ ap (λ r. s ++ r) (append_lines-append (b'\n' ∷ []) l ls)

-- A text that starts with these lines, each of which ends, is split into them.
pub split_lines-append_lines :
    (l : Text) (ls : List Text) (t : Text)
    → is_line l ≡ true
    → are_lines ls ≡ true
    → split_lines (append_lines l ls ++ (b'\n' ∷ t)) ≡ l ∷ (ls ++ split_lines t)
split_lines-append_lines l [] t h k = split_lines-append l t h
split_lines-append_lines l (m ∷ ls) t h k =
    ap (λ r. split_lines (r ++ (b'\n' ∷ t))) (append_lines-cons l m ls)
    ∙ ap split_lines (append_assoc l (b'\n' ∷ append_lines m ls) (b'\n' ∷ t))
    ∙ split_lines-append l (append_lines m ls ++ (b'\n' ∷ t)) h
    ∙ ap (λ r. l ∷ r) (split_lines-append_lines m ls t (ground arith) (ground arith))

pub consume_block-append :
    (ls more : List Text) (block : Text) (depth : ℤ) (r : Text × ℕ)
    → consume_block ls block depth ≡ some r
    → consume_block (ls ++ more) block depth ≡ some r
unfolding consume_block
consume_block-append [] more block depth r h = ground arith
consume_block-append (l ∷ ls) more block depth r h =
    let after = depth +ℤ block_depth_delta l in
    let longer = block ++ (b'\n' ∷ trim_cr l) in
    elim (Option-cases (consume_block ls longer after)) [
      | inl e ↦ ground arith
      | inr (q, e) ↦
          let below = consume_block-append ls more longer after q e in ground (arith, below)
    ]
