-- ===== src/Redact/Overlap.antt =====
-- Two secrets of which one is a prefix of the other, as the base64 variants of one secret are: the
-- unpadded encoding is a prefix of the padded one. A flush that ends between the two hides only the
-- shorter one.
use mathlib.Core.List.{append-nil, append_assoc}
use roksbnkctl.Prelude.{
  ℕ, suc, ◌-◌, ◌<◌, ◌≡◌, refl, sym, ap, ◌∙◌, true, false, some, List, [], ◌∷◌, ◌++◌, arith, eqb,
  length, take, drop, take-append_left, drop-append_left, All, All-append, ap₂, length-append,
}
use roksbnkctl.Redact.Encoding.{Bytes}
use roksbnkctl.Redact.{
  redact_marker, Index, first_match, candidates, over, scan_from, scan, close, longest, Outcome,
}
use roksbnkctl.Redact.Matching.{matches_at_self, matches_at-append_self, matches_at_of_longer}
use roksbnkctl.Redact.Indexing.{beginning, candidates-over}
use roksbnkctl.Redact.Stream.{
  append_to, write_all, scan_from-match, scan_from-emit, write-flushes, close-total_buf,
}
use roksbnkctl.Redact.Scan.{scan_from-skip}

-- `b ∷ s` and the longer `b ∷ s ++ u`, longest first as NewRedactor sorts them.
abbrev pub nested : ℕ → Bytes → Bytes → List Bytes
nested b s u = (b ∷ (s ++ u)) ∷ (b ∷ s) ∷ []

abbrev pub Lacks : ℕ → Bytes → Type 0
Lacks b = All (λ c. eqb c b ≡ false)

module _ (b : ℕ) (s u : Bytes) where
  abbrev index : Index
  index = over (nested b s u)

  candidates-nested : candidates index b ≡ nested b s u
  candidates-nested = candidates-over (nested b s u) b ∙ ground arith

  scan_from-Lacks : (bytes : Bytes) → Lacks b bytes → (scan_from index true 0 bytes).0 ≡ bytes
  unfolding scan_from first_match
  scan_from-Lacks [] h = refl
  scan_from-Lacks (c ∷ tail) (other, h) =
      let e : beginning c (nested b s u) ≡ [] = rw other refl in
      rw (scan_from-emit index true c tail (rw (candidates-over (nested b s u) c) (rw e refl)) refl)
        (ap (λ l. c ∷ l) (scan_from-Lacks tail h))

  -- A final scan of all the bytes hides the longer secret.
  scan-nested :
      (v : Bytes)
      → (scan index (b ∷ ((s ++ u) ++ v)) true).0 ≡ redact_marker ++ (scan index v true).0
  unfolding scan first_match
  scan-nested v =
      let found : first_match (candidates index b) (b ∷ ((s ++ u) ++ v)) ≡ some (b ∷ (s ++ u)) =
        rw candidates-nested (rw (matches_at-append_self (b ∷ (s ++ u)) v) refl) in
      rw (scan_from-match index true b ((s ++ u) ++ v) (b ∷ (s ++ u)) found) (
        ap (λ (l : Bytes). redact_marker ++ l)
          (ap (λ (q : Bytes × Bytes). q.0)
            (ap (λ k. scan_from index true k ((s ++ u) ++ v))
                (let e : suc (length (s ++ u)) - 1 ≡ length (s ++ u) = omega arith in e)
              ∙ scan_from-skip index (length (s ++ u)) ((s ++ u) ++ v)
              ∙ ap (scan_from index true 0) (drop-append_left (s ++ u) v))))

  scan_from-past : (bytes : Bytes) → scan_from index false (length bytes) bytes ≡ ([], [])
  unfolding scan_from
  scan_from-past [] = refl
  scan_from-past (c ∷ bytes) = scan_from-past bytes

  -- The scan of a flush that ends with the shorter secret hides that one.
  scan-short : 0 < length u → scan index (b ∷ s) false ≡ (redact_marker, [])
  unfolding scan first_match
  scan-short n =
      let missed = matches_at_of_longer (b ∷ (s ++ u)) (b ∷ s) (omega (arith, length-append s u)) in
      let found : first_match (candidates index b) (b ∷ s) ≡ some (b ∷ s) =
        rw candidates-nested (rw missed (rw (matches_at_self (b ∷ s)) refl)) in
      rw (scan_from-match index false b s (b ∷ s) found) (
        rw
          (ap (λ k. scan_from index false k s)
              (let e : suc (length s) - 1 ≡ length s = omega arith in e)
            ∙ scan_from-past s)
          (ap (λ l. (l, [])) (append-nil redact_marker)))

  max_len-nested : index.max_len ≡ suc (length (s ++ u))
  unfolding over longest
  max_len-nested = ground (arith, length-append s u)

  -- A flush of exactly the shorter secret: the rest of the longer one is scanned as if it stood by
  -- itself.
  write_all-nested :
      (v : Bytes)
      → 0 < length u
      → length v ≡ length s
      → (write_all
          (record { index = index; buf = [] })
          []
          ((b ∷ ((s ++ u) ++ v)) ∷ [])).written.sink
        ≡ redact_marker ++ (scan index (u ++ v) true).0
  write_all-nested v some_u same_length =
      let p = b ∷ ((s ++ u) ++ v) in
      let hold = index.max_len - 1 in
      let long : suc (length s) ≡ length p - hold =
        omega (arith, length-append s u, length-append (s ++ u) v, max_len-nested) in
      let front =
        sym (ap (λ k. take k p) long)
        ∙ ap (λ l. b ∷ take (length s) l) (append_assoc s u v)
        ∙ ap (λ l. b ∷ l) (take-append_left s (u ++ v)) in
      let back =
        sym (ap (λ k. drop k p) long)
        ∙ ap (drop (length s)) (append_assoc s u v)
        ∙ drop-append_left s (u ++ v) in
      ap (λ (o : Outcome Bytes). (close append_to o.redactor o.written.sink).written.sink)
        (write-flushes index p (unfold over in refl) (ground (arith, long)))
      ∙ close-total_buf index
          ((scan index (take (length p - hold) p) false).1 ++ drop (length p - hold) p)
          (scan index (take (length p - hold) p) false).0
      ∙ ap₂
          (λ x y.
            (scan index x false).0 ++ (scan index (((scan index x false).1 ++ y) ++ []) true).0)
          front back
      ∙ (rw (scan-short some_u) (rw append-nil refl))

  -- Take the secret `b ∷ s` and the longer `b ∷ s ++ u`, and write the longer one followed by as many bytes `v`
  -- as `s` has, in one piece, where neither `u` nor `v` holds a further `b`. After the close the sink has the
  -- marker, then all of `u` in clear, then `v`; one scan of the same bytes hides `u` as well.
  pub write-shows_rest :
      (v : Bytes)
      → 0 < length u
      → length v ≡ length s
      → Lacks b u
      → Lacks b v
      → ((write_all
            (record { index = index; buf = [] })
            []
            ((b ∷ ((s ++ u) ++ v)) ∷ [])).written.sink
          ≡ redact_marker ++ (u ++ v))
        × ((scan index (b ∷ ((s ++ u) ++ v)) true).0 ≡ redact_marker ++ v)
  unfolding scan
  write-shows_rest v some_u same_length no_u no_v = (
    write_all-nested v some_u same_length
        ∙ ap (λ (l : Bytes). redact_marker ++ l)
            (scan_from-Lacks (u ++ v) (All-append (λ c. eqb c b ≡ false) u v no_u no_v)),
    scan-nested v ∙ ap (λ (l : Bytes). redact_marker ++ l) (scan_from-Lacks v no_v),
  )
