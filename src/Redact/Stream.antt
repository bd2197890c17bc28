-- ===== src/Redact/Stream.antt =====
-- The stream against a single scan of all its bytes.
use mathlib.Core.List.{append_assoc, append-nil}
use roksbnkctl.Prelude.{
  ℕ, zero, suc, ◌-◌, ◌≤◌, ◌≡◌, refl, sym, ap, ◌∙◌, inl, inr, Bool, true, false, not, ◌&&◌, none,
  some, List, [], ◌∷◌, ◌++◌, arith, leb, Bool-cases, Option-cases, length, take, drop, is_nil,
  take-append-drop,
}
use roksbnkctl.Redact.Encoding.{Bytes}
use roksbnkctl.Redact.{
  redact_marker, Redactor, candidates, first_match, potential_among, is_potential_prefix, scan_from,
  scan, over, Written, Index, Outcome, write, close,
}
use roksbnkctl.Redact.Indexing.{candidates-over, PrefixFree-candidates}
use roksbnkctl.Redact.Matching.{
  PrefixFree, matches_at-length, first_match-some, first_match-append_some, first_match-append_none,
}

-- No candidate of the redactor is a prefix of another.
abbrev pub HasFreeCandidates : Index → Type 0
HasFreeCandidates r = (c : ℕ) → PrefixFree (candidates r c)

-- A sink that takes all that it is given.
abbrev pub append_to : Bytes → Bytes → Written Bytes
append_to w p = record { sink = w ++ p; n = length p; failed = false }

-- The bytes that reach the sink when the parts are written one by one and the writer is closed.
abbrev pub write_all : Redactor → Bytes → List Bytes → Outcome Bytes
write_all r w [] = close append_to r w
write_all r w (p ∷ ps) =
    let after = write append_to r w p in write_all after.redactor after.written.sink ps

abbrev pub join : List Bytes → Bytes
join [] = []
join (p ∷ ps) = p ++ join ps

is_potential_prefix_lem :
    (r : Index) (c : ℕ) (tail : Bytes)
    → is_potential_prefix r (c ∷ tail) ≡ potential_among (candidates r c) (c ∷ tail)
unfolding is_potential_prefix
is_potential_prefix_lem r c tail = refl

module _ (r : Index) (final : Bool) (c : ℕ) (tail : Bytes) where
  pub scan_from-match :
      (s : Bytes)
      → first_match (candidates r c) (c ∷ tail) ≡ some s
      → scan_from r final 0 (c ∷ tail) ≡ (
        redact_marker ++ (scan_from r final (length s - 1) tail).0,
        (scan_from r final (length s - 1) tail).1,
      )
  unfolding scan_from
  scan_from-match s found = rw (found, scan_from)

  pub scan_from-keep :
      first_match (candidates r c) (c ∷ tail) ≡ none
      → (not final && is_potential_prefix r (c ∷ tail)) ≡ true
      → scan_from r final 0 (c ∷ tail) ≡ ([], c ∷ tail)
  unfolding scan_from
  scan_from-keep missed cut = rw (missed, cut, scan_from)

  pub scan_from-emit :
      first_match (candidates r c) (c ∷ tail) ≡ none
      → (not final && is_potential_prefix r (c ∷ tail)) ≡ false
      → scan_from r final 0 (c ∷ tail)
        ≡ (c ∷ (scan_from r final 0 tail).0, (scan_from r final 0 tail).1)
  unfolding scan_from
  scan_from-emit missed whole = rw (missed, whole, scan_from)

module _ (r : Index) (free : HasFreeCandidates r) where
  -- A scan that may keep bytes back, continued by a final scan of what it kept and what follows.
  abbrev Continues : ℕ → Bytes → Bytes → Type 0
  Continues skip bytes rest =
      (scan_from r true skip (bytes ++ rest)).0
      ≡ (scan_from r false skip bytes).0
        ++ (scan_from r true 0 ((scan_from r false skip bytes).1 ++ rest)).0

  scan_from-append_step :
      (c : ℕ) (tail rest : Bytes)
      → Continues 0 tail rest
      → ((s : Bytes) → length s - 1 ≤ length tail → Continues (length s - 1) tail rest)
      → Continues 0 (c ∷ tail) rest
  scan_from-append_step c tail rest ih_next ih_past =
      elim (Option-cases (first_match (candidates r c) (c ∷ tail))) [
        | inl missed ↦ elim (Bool-cases (is_potential_prefix r (c ∷ tail))) [
          | inl cut ↦ rw (scan_from-keep r false c tail missed cut) refl
          | inr whole ↦
              let none_later =
                first_match-append_none (candidates r c) (c ∷ tail) rest missed
                  (sym (is_potential_prefix_lem r c tail) ∙ whole) in
              rw (scan_from-emit r false c tail missed whole) (
                rw (scan_from-emit r true c (tail ++ rest) none_later refl)
                  (ap (λ l. c ∷ l) ih_next))
        ]
        | inr (s, found) ↦
            let (_, matched) = first_match-some (candidates r c) (c ∷ tail) s found in
            let same = first_match-append_some (candidates r c) (c ∷ tail) rest s (free c) found in
            let ih = ih_past s (omega (arith, matches_at-length s (c ∷ tail) matched)) in
            rw (scan_from-match r false c tail s found) (
              rw (scan_from-match r true c (tail ++ rest) s same)
                (rw append_assoc (ap (λ l. redact_marker ++ l) ih)))
      ]

  scan_from-append :
      (skip : ℕ) (bytes rest : Bytes) → skip ≤ length bytes → Continues skip bytes rest
  unfolding scan_from
  scan_from-append zero [] rest h = refl
  scan_from-append (suc k) [] rest h = elim h [ ]
  scan_from-append (suc k) (c ∷ tail) rest h = scan_from-append k tail rest (omega arith)
  scan_from-append zero (c ∷ tail) rest h =
      scan_from-append_step c tail rest (scan_from-append zero tail rest (omega arith))
        (λ s q. scan_from-append (length s - 1) tail rest q)

  scan-append :
      (bytes rest : Bytes)
      → (scan r (bytes ++ rest) true).0
        ≡ (scan r bytes false).0 ++ (scan r ((scan r bytes false).1 ++ rest) true).0
  unfolding scan
  scan-append bytes rest = scan_from-append zero bytes rest (omega arith)

-- What has reached the sink and what a final scan makes of the rest, as one text.
abbrev total : Redactor → Bytes → Bytes → Bytes
total r w future = w ++ (scan r.index (r.buf ++ future) true).0

-- One flush: the scanned part goes out, and the kept part and the held-back tail stay.
flush-total :
    (x : Index) (w buf future : Bytes) (split : ℕ)
    → HasFreeCandidates x
    → (w ++ (scan x (take split buf) false).0)
        ++ (scan x (((scan x (take split buf) false).1 ++ drop split buf) ++ future) true).0
      ≡ w ++ (scan x (buf ++ future) true).0
flush-total x w buf future split free =
    let (out, kept) = scan x (take split buf) false in
    let held = drop split buf in
    let whole =
      sym (append_assoc (take split buf) held future)
      ∙ ap (λ b. b ++ future) (take-append-drop split buf) in
    append_assoc w out (scan x ((kept ++ held) ++ future) true).0
    ∙ ap (λ l. w ++ (out ++ (scan x l true).0)) (append_assoc kept held future)
    ∙ ap (λ l. w ++ l) (sym (scan-append x free (take split buf) (held ++ future)))
    ∙ ap (λ l. w ++ (scan x l true).0) whole

write-total :
    (r : Redactor) (w p future : Bytes)
    → HasFreeCandidates r.index
    → is_nil r.secrets ≡ false
    → let after = write append_to r w p in
      (total after.redactor after.written.sink future ≡ total r w (p ++ future))
      × (after.redactor.index ≡ r.index)
unfolding write
write-total r w p future free some_secret =
    let assoc = ap (λ l. w ++ (scan r.index l true).0) (append_assoc r.buf p future) in
    elim (Bool-cases (leb (length (r.buf ++ p)) (r.max_len - 1))) [
      | inl short ↦ rw (some_secret, short) (assoc, refl)
      | inr long ↦
          rw (some_secret, long)
            (
              flush-total r.index w (r.buf ++ p) future (length (r.buf ++ p) - (r.max_len - 1)) free
                  ∙ assoc,
              refl,
            )
    ]

pub close-total_buf :
    (x : Index) (buf w : Bytes)
    → (close append_to (record { index = x; buf = buf }) w).written.sink
      ≡ w ++ (scan x (buf ++ []) true).0
unfolding close scan scan_from
close-total_buf x [] w = sym (append-nil w)
close-total_buf x (c ∷ buf) w = ap (λ l. w ++ (scan_from x true 0 l).0) (sym (append-nil (c ∷ buf)))

write_all-total :
    (r : Redactor) (w : Bytes) (parts : List Bytes)
    → HasFreeCandidates r.index
    → is_nil r.secrets ≡ false
    → (write_all r w parts).written.sink ≡ total r w (join parts)
write_all-total r w [] free some_secret = close-total_buf r.index r.buf w
write_all-total r w (p ∷ parts) free some_secret =
    let after = write append_to r w p in
    let (same, kept) = write-total r w p (join parts) free some_secret in
    write_all-total after.redactor after.written.sink parts (rw kept free)
      (ap (λ x. is_nil x.secrets) kept ∙ some_secret)
    ∙ same

scan_from-no_candidate :
    (x : Index) (bytes : Bytes)
    → ((c : ℕ) → candidates x c ≡ [])
    → (scan_from x true 0 bytes).0 ≡ bytes
unfolding scan_from first_match
scan_from-no_candidate x [] h = refl
scan_from-no_candidate x (c ∷ tail) h =
    rw (scan_from-emit x true c tail (rw (h c)) refl)
      (ap (λ l. c ∷ l) (scan_from-no_candidate x tail h))

-- A write that flushes leaves in the buffer what the scan kept and the held-back tail.
pub write-flushes :
    (x : Index) (p : Bytes)
    → is_nil x.secrets ≡ false
    → leb (length p) (x.max_len - 1) ≡ false
    → let split = length p - (x.max_len - 1) in
      write append_to (record { index = x; buf = [] }) [] p ≡ record {
        redactor = record { index = x; buf = (scan x (take split p) false).1 ++ drop split p };
        written = record { sink = (scan x (take split p) false).0; n = length p; failed = false };
      }
unfolding write
write-flushes x p some_secret long = rw (some_secret, long) refl

write-passes :
    (r : Redactor) (w p : Bytes)
    → is_nil r.secrets ≡ true
    → write append_to r w p ≡ record { redactor = r; written = append_to w p }
unfolding write
write-passes r w p no_secret = rw no_secret refl

write_all-passes :
    (x : Index) (w : Bytes) (parts : List Bytes)
    → is_nil x.secrets ≡ true
    → (write_all (record { index = x; buf = [] }) w parts).written.sink ≡ w ++ join parts
unfolding close
write_all-passes x w [] no_secret = sym (append-nil w)
write_all-passes x w (p ∷ parts) no_secret =
    ap (λ (o : Outcome Bytes). (write_all o.redactor o.written.sink parts).written.sink)
      (write-passes (record { index = x; buf = [] }) w p no_secret)
    ∙ write_all-passes x (w ++ p) parts no_secret
    ∙ append_assoc w p (join parts)

-- Over secrets of which none is a prefix of another, it does not matter how the stream is cut into
-- writes: after the last write and the close, the sink has received what one scan of all the bytes
-- at once gives.
pub write_all-eq-scan :
    (secrets parts : List Bytes)
    → PrefixFree secrets
    → (write_all (record { index = over secrets; buf = [] }) [] parts).written.sink
      ≡ (scan (over secrets) (join parts) true).0
write_all-eq-scan [] parts free =
    write_all-passes (over []) [] parts (unfold over in refl)
    ∙ sym (unfold scan in scan_from-no_candidate (over []) (join parts) (λ c. candidates-over [] c))
write_all-eq-scan (s ∷ ss) parts free =
    write_all-total (record { index = over (s ∷ ss); buf = [] }) [] parts
      (λ c. PrefixFree-candidates (s ∷ ss) c free) (unfold over in refl)
