-- ===== src/Redact/Tests.antt =====
-- Runs of the redacting writer on small streams, and its theorems at concrete secrets.
use roksbnkctl.Prelude.{
  ◌≡◌, refl, sym, ◌∙◌, inl, inr, true, List, [], ◌∷◌, ◌++◌, arith, lit, ◌==◌, has_prefix,
  Memᴰ-cases,
}
use roksbnkctl.Redact.Encoding.{Bytes}
use roksbnkctl.Redact.{
  redact_marker, over, new_redactor, candidates, scan, scan_from, first_match, matches_at,
  is_potential_prefix, write, close,
}
use roksbnkctl.Redact.Matching.{PrefixFree}
use roksbnkctl.Redact.Stream.{write_all, join, write_all-eq-scan}
use roksbnkctl.Redact.Scan.{Redacts, scan-Redacts}
use roksbnkctl.Redact.Overlap.{nested, write-shows_rest}

abbrev key : Bytes
key = lit "key"

abbrev secrets : List Bytes
secrets = key ∷ lit "tok" ∷ []

abbrev parts : List Bytes
parts = lit "a ke" ∷ lit "y, to" ∷ lit "k!" ∷ []

writer : Unit {0}
unfolding ◌==◌ redact_marker new_redactor over candidates scan scan_from first_match matches_at
    is_potential_prefix write close
writer = tt

write_tests :
    ((write_all (new_redactor (key ∷ [])) [] (lit "my ke" ∷ lit "y is" ∷ [])).written.sink
      ≡ lit "my [REDACTED] is")
    × ((write_all (new_redactor []) [] parts).written.sink ≡ lit "a key, tok!")
    × ((scan (over secrets) (lit "a key, tok!") true).0 ≡ lit "a [REDACTED], [REDACTED]!")
unfolding writer lit
write_tests = (refl, refl, refl)

secrets-PrefixFree : PrefixFree secrets
unfolding has_prefix lit
secrets-PrefixFree s t m k h = elim (Memᴰ-cases m) [
  | inl a ↦ elim (Memᴰ-cases k) [
    | inl b ↦ a ∙ sym b
    | inr k' ↦ elim (Memᴰ-cases k') [ inl b ↦ ground (arith, a, b) | inr k'' ↦ elim k'' [ ] ]
  ]
  | inr m' ↦ elim (Memᴰ-cases m') [
    | inl a ↦ elim (Memᴰ-cases k) [
      | inl b ↦ ground (arith, a, b)
      | inr k' ↦ elim (Memᴰ-cases k') [ inl b ↦ a ∙ sym b | inr k'' ↦ elim k'' [ ] ]
    ]
    | inr m'' ↦ elim m'' [ ]
  ]
]

write_all-eq-scan_example :
    (write_all (record { index = over secrets; buf = [] }) [] parts).written.sink
    ≡ (scan (over secrets) (join parts) true).0
write_all-eq-scan_example = write_all-eq-scan secrets parts secrets-PrefixFree

scan-Redacts_example :
    Redacts secrets (lit "a key, tok!") (scan (over secrets) (lit "a key, tok!") true).0
scan-Redacts_example = scan-Redacts secrets (lit "a key, tok!")

-- The secret "ab" and the longer "ab=", followed by "cd" in one write.
write-shows_rest_example :
    ((write_all
        (record { index = over (nested b'a' (lit "b") (lit "=")); buf = [] })
        []
        ((b'a' ∷ ((lit "b" ++ lit "=") ++ lit "c")) ∷ [])).written.sink
      ≡ redact_marker ++ (lit "=" ++ lit "c"))
    × ((scan
          (over (nested b'a' (lit "b") (lit "=")))
          (b'a' ∷ ((lit "b" ++ lit "=") ++ lit "c"))
          true).0
        ≡ redact_marker ++ lit "c")
unfolding lit
write-shows_rest_example =
    write-shows_rest b'a' (lit "b") (lit "=") (lit "c") (omega arith) refl (refl, tt) (refl, tt)
