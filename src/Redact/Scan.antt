-- ===== src/Redact/Scan.antt =====
-- What a single final scan guarantees, against an independent description.
use mathlib.Core.List.{Memᴰ}
use roksbnkctl.Prelude.{
  ℕ, zero, suc, ◌-◌, ◌≤◌, ◌≡◌, ◌≢◌, refl, sym, ap, ◌∙◌, inl, inr, true, false, none, List, [], ◌∷◌,
  ◌++◌, arith, Bool-cases, Option-cases, length, take, drop, Memᴰ-cases, length-drop, ==_sound,
  has_prefix, take-append-drop,
}
use roksbnkctl.Redact.Encoding.{Bytes}
use roksbnkctl.Redact.{
  redact_marker, Index, matches_at, first_match, candidates, over, scan_from, scan,
}
use roksbnkctl.Redact.Matching.{matches_at_lem, first_match-some}
use roksbnkctl.Redact.Indexing.{begins_with, beginning, candidates-over, mem-beginning}
use roksbnkctl.Redact.Stream.{scan_from-match, scan_from-emit}

-- No secret stands at the front of these bytes.
abbrev pub StartsNone : List Bytes → Bytes → Type 0
StartsNone secrets bytes = (s : Bytes) → Memᴰ s secrets → s ≢ [] → has_prefix bytes s ≡ false

-- `out` is `bytes` with secrets hidden from left to right: a byte is shown only where no secret
-- stands, and what is hidden is a whole secret.
pub data Redacts (secrets : List Bytes) : Bytes → Bytes → Type 0 where
  done : Redacts secrets [] []
  hidden :
      {bytes : Bytes} (s rest out : Bytes)
      → Memᴰ s secrets
      → bytes ≡ s ++ rest
      → Redacts secrets rest out
      → Redacts secrets bytes (redact_marker ++ out)
  shown :
      (c : ℕ) {rest out : Bytes}
      → StartsNone secrets (c ∷ rest)
      → Redacts secrets rest out
      → Redacts secrets (c ∷ rest) (c ∷ out)

pub scan_from-skip :
    (x : Index) (skip : ℕ) (bytes : Bytes)
    → scan_from x true skip bytes ≡ scan_from x true 0 (drop skip bytes)
unfolding scan_from
scan_from-skip x zero bytes = refl
scan_from-skip x (suc k) [] = refl
scan_from-skip x (suc k) (c ∷ bytes) = scan_from-skip x k bytes

matches_at-split :
    (s bytes : Bytes) → matches_at s bytes ≡ true → bytes ≡ s ++ drop (length s) bytes
unfolding matches_at
matches_at-split s bytes h =
    let e = ==_sound (take (length s) bytes) s (ground arith) in
    sym (take-append-drop (length s) bytes) ∙ ap (λ l. l ++ drop (length s) bytes) e

first_match-none :
    (ss : List Bytes) (bytes s : Bytes)
    → first_match ss bytes ≡ none
    → Memᴰ s ss
    → matches_at s bytes ≡ false
unfolding first_match
first_match-none [] bytes s h m = elim m [ ]
first_match-none (x ∷ ss) bytes s h m = elim (Memᴰ-cases m) [
  | inl e ↦ ground (arith, ap (λ y. matches_at y bytes) e)
  | inr later ↦ first_match-none ss bytes s (ground arith) later
]

mem-beginning_of :
    (c : ℕ) (s : Bytes) (ss : List Bytes)
    → begins_with c s ≡ true
    → Memᴰ s ss
    → Memᴰ s (beginning c ss)
mem-beginning_of c s [] b m = elim m [ ]
mem-beginning_of c s (x ∷ ss) b m = elim (Memᴰ-cases m) [
  | inl e ↦ rw (ap (begins_with c) (sym e) ∙ b) (Memᴰ.head e)
  | inr later ↦ elim (Bool-cases (begins_with c x)) [
    | inl k ↦ rw k (Memᴰ.tail (mem-beginning_of c s ss b later))
    | inr k ↦ rw k (mem-beginning_of c s ss b later)
  ]
]

begins_with_of_prefix :
    (c : ℕ) (tail s : Bytes) → s ≢ [] → has_prefix (c ∷ tail) s ≡ true → begins_with c s ≡ true
unfolding has_prefix
begins_with_of_prefix c tail [] n h = absurd (n refl)
begins_with_of_prefix c tail (d ∷ s) n h = ground arith

StartsNone-of_none :
    (ss : List Bytes) (c : ℕ) (tail : Bytes)
    → first_match (candidates (over ss) c) (c ∷ tail) ≡ none
    → StartsNone ss (c ∷ tail)
StartsNone-of_none ss c tail h s m n = elim (Bool-cases (has_prefix (c ∷ tail) s)) [
  | inl p ↦
      let listed = mem-beginning_of c s ss (begins_with_of_prefix c tail s n p) m in
      let missed =
        first_match-none (beginning c ss) (c ∷ tail) s (rw candidates-over at h) listed in
      cc (missed, matches_at_lem s (c ∷ tail))
  | inr p ↦ p
]

scan_from-split :
    (s tail : Bytes) (c : ℕ)
    → s ≢ []
    → matches_at s (c ∷ tail) ≡ true
    → c ∷ tail ≡ s ++ drop (length s - 1) tail
scan_from-split [] tail c n h = absurd (n refl)
scan_from-split (d ∷ s) tail c n h =
    matches_at-split (d ∷ s) (c ∷ tail) h
    ∙ ap (λ k. (d ∷ s) ++ drop k tail) (let e : length s ≡ suc (length s) - 1 = omega arith in e)

ne-nil_of_begins_with : (c : ℕ) (s : Bytes) → begins_with c s ≡ true → s ≢ []
ne-nil_of_begins_with c [] h e = cc
ne-nil_of_begins_with c (d ∷ s) h e = cc

begins_with_of_mem :
    (c : ℕ) (s : Bytes) (ss : List Bytes) → Memᴰ s (beginning c ss) → begins_with c s ≡ true
begins_with_of_mem c s [] m = elim m [ ]
begins_with_of_mem c s (x ∷ ss) m = elim (Bool-cases (begins_with c x)) [
  | inl b ↦ elim (Memᴰ-cases (rw b at m)) [
    | inl e ↦ ap (begins_with c) e ∙ b
    | inr later ↦ begins_with_of_mem c s ss later
  ]
  | inr b ↦ begins_with_of_mem c s ss (rw b at m)
]

module _ (secrets : List Bytes) where
  scan_from-Redacts :
      (fuel : ℕ) (bytes : Bytes)
      → length bytes ≤ fuel
      → Redacts secrets bytes (scan_from (over secrets) true 0 bytes).0
  unfolding scan_from
  scan_from-Redacts fuel [] h = Redacts.done
  scan_from-Redacts zero (c ∷ tail) h = absurd (omega arith)
  scan_from-Redacts (suc fuel) (c ∷ tail) h =
      elim (Option-cases (first_match (candidates (over secrets) c) (c ∷ tail))) [
        | inl missed ↦ rw (scan_from-emit (over secrets) true c tail missed refl) (
            Redacts.shown c (StartsNone-of_none secrets c tail missed)
              (scan_from-Redacts fuel tail (omega arith)))
        | inr (s, found) ↦
            let (listed, matched) =
              first_match-some (candidates (over secrets) c) (c ∷ tail) s found in
            let here = rw candidates-over at listed in
            let rest = drop (length s - 1) tail in
            let ne = ne-nil_of_begins_with c s (begins_with_of_mem c s secrets here) in
            rw (scan_from-match (over secrets) true c tail s found) (
              rw scan_from-skip (
                Redacts.hidden s rest (scan_from (over secrets) true 0 rest).0
                  (mem-beginning c s secrets here) (scan_from-split s tail c ne matched)
                  (scan_from-Redacts fuel rest
                    (omega (arith, length-drop {0} (length s - 1) tail)))))
      ]

-- A final scan hides whole secrets and nothing else, from left to right, and every byte that it
-- shows stands where no secret begins.
pub scan-Redacts :
    (secrets : List Bytes) (bytes : Bytes)
    → Redacts secrets bytes (scan (over secrets) bytes true).0
unfolding scan
scan-Redacts secrets bytes = scan_from-Redacts secrets (length bytes) bytes (omega arith)
