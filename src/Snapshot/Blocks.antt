-- ===== src/Snapshot/Blocks.antt =====
-- The lines that `consumeBlock` takes.
use roksbnkctl.Prelude.{
  ℕ, suc, ◌≡◌, ◌⊎◌, inl, inr, refl, sym, ap, ◌∙◌, arith, true, some, List, [], ◌∷◌, ◌++◌, length,
  Text, some_injective, Bool-cases, Option-cases,
}
use roksbnkctl.Prelude.Int.{ℤ, ◌+ℤ◌, is_negative, is_zero}
use roksbnkctl.Snapshot.{trim_cr, block_depth_delta, consume_block, one_more}
use roksbnkctl.Snapshot.Lines.{
  is_line, are_lines, append_lines, trim_cr-is_line, trim_cr_idem, block_depth_delta-trim_cr,
}

consume_block-trim_cr :
    (l : Text) (ls : List Text) (block : Text) (depth : ℤ)
    → consume_block (trim_cr l ∷ ls) block depth ≡ consume_block (l ∷ ls) block depth
unfolding consume_block
consume_block-trim_cr l ls block depth = rw (trim_cr_idem l, block_depth_delta-trim_cr l) refl

-- How a block that closes goes on.
consume_block-cases :
    (l : Text) (ls : List Text) (start block : Text) (depth : ℤ) (n : ℕ)
    → consume_block (l ∷ ls) start depth ≡ some (block, n)
    → ((block ≡ start ++ (b'\n' ∷ trim_cr l))
        × ((ks : List Text) → consume_block (l ∷ ks) start depth ≡ some (block, 1)))
      ⊎ ((m : ℕ) × (consume_block ls (start ++ (b'\n' ∷ trim_cr l)) (depth +ℤ block_depth_delta l)
            ≡ some (block, m))
          × ((ks : List Text)
              → consume_block (l ∷ ks) start depth
                ≡ one_more (
                    consume_block ks
                      (start ++ (b'\n' ∷ trim_cr l))
                      (depth +ℤ block_depth_delta l))))
unfolding consume_block
consume_block-cases l ls start block depth n e =
    let after = depth +ℤ block_depth_delta l in
    let longer = start ++ (b'\n' ∷ trim_cr l) in
    elim (Bool-cases (is_zero after)) [
      | inl z ↦
          let here : (longer, 1) ≡ (block, n) = some_injective (rw z at e) in
          let same : longer ≡ block = ap (λ (p : Text × ℕ). p.0) here in
          inl (sym same, λ ks. rw z (ap (λ b. some (b, 1)) same))
      | inr z ↦ elim (Bool-cases (is_negative after)) [
        | inl g ↦ ground arith
        | inr g ↦ elim (Option-cases (consume_block ls longer after)) [
          | inl k ↦ ground arith
          | inr ((b, m), k) ↦
              let same : (b, suc m) ≡ (block, n) = ground arith in
              let text : b ≡ block = ap (λ (p : Text × ℕ). p.0) same in
              inr (m, k ∙ ap (λ b. some (b, m)) text, λ ks. rw (z, g) refl)
        ]
      ]
    ]

-- The lines that a block takes.
pub consume_block-lines :
    (ls : List Text) (start block : Text) (depth : ℤ) (n : ℕ)
    → are_lines ls ≡ true
    → consume_block ls start depth ≡ some (block, n)
    → (ks : List Text) × (are_lines ks ≡ true)
      × (block ≡ append_lines start ks)
      × (consume_block ks start depth ≡ some (block, length ks))
unfolding consume_block
consume_block-lines [] start block depth n h e = ground arith
consume_block-lines (l ∷ ls) start block depth n h e =
    let line : is_line (trim_cr l) ≡ true = trim_cr-is_line l (ground arith) in
    elim (consume_block-cases l ls start block depth n e) [
      | inl (same, run) ↦
          (trim_cr l ∷ [], ground arith, same, consume_block-trim_cr l [] start depth ∙ run [])
      | inr (m, k, run) ↦
          let (ks, lines, same, again) =
            consume_block-lines ls (start ++ (b'\n' ∷ trim_cr l)) block
              (depth +ℤ block_depth_delta l) m (ground arith) k in
          (
            trim_cr l ∷ ks,
            ground arith,
            same,
            consume_block-trim_cr l ks start depth ∙ run ks ∙ ap one_more again,
          )
    ]
