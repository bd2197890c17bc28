-- ===== src/Redact.antt =====
-- internal/exec/redact.go: the writer that replaces secrets in a stream of bytes.
pub mod Encoding
pub mod Matching
pub mod Indexing
pub mod Stream
pub mod Scan
pub mod Overlap
mod Tests
use roksbnkctl.Prelude.{
  ℕ, zero, suc, ◌+◌, ◌-◌, Bool, true, false, not, ◌&&◌, ◌||◌, Option, none, some, List, [], ◌∷◌,
  ◌++◌, map, ltb, leb, eqb, if◌then◌else◌, length, take, drop, is_nil, any, Text, lit, ◌==◌,
  has_prefix,
}
use Encoding.{Bytes, base64_variants}

unfoldable pub redact_marker : Bytes
redact_marker = lit "[REDACTED]"

-- The fields that NewRedactor fills and nothing changes: the secrets longest first, and for each
-- byte the indices of the secrets that begin with it.
pub record Index : Type 0 where
  pub secrets : List Bytes
  pub max_len : ℕ
  pub by_first : ℕ → List ℕ

-- The underlying writer is a separate value.
pub record Redactor : Type 0 where
  pub index : Index
  pub open index use *
  pub buf : Bytes

abbrev nth : List Bytes → ℕ → Bytes
nth [] i = []
nth (s ∷ ss) zero = s
nth (s ∷ ss) (suc i) = nth ss i

-- `add` of NewRedactor: an entry that is empty or already there is left out.
add_secret : List Bytes → Bytes → List Bytes
add_secret secrets b = if is_nil b || any (λ s. s == b) secrets then secrets else secrets ++ b ∷ []

add_all : List Bytes → List Bytes → List Bytes
add_all secrets [] = secrets
add_all secrets (b ∷ bs) = add_all (add_secret secrets b) bs

collect : List Bytes → List Bytes → List Bytes
collect secrets [] = secrets
collect secrets (s ∷ ss) =
    collect (if is_nil s then secrets else add_all (add_secret secrets s) (base64_variants s)) ss

-- `sort.Slice` by falling length; it fixes no order among entries of one length, and this is one.
insert_longest : Bytes → List Bytes → List Bytes
insert_longest b [] = b ∷ []
insert_longest b (s ∷ ss) =
    let rest = insert_longest b ss in if ltb (length s) (length b) then b ∷ s ∷ ss else s ∷ rest

sort_longest : List Bytes → List Bytes
sort_longest [] = []
sort_longest (b ∷ bs) = insert_longest b (sort_longest bs)

-- The loop that fills `maxLen` and `byFirst`, from index `i` on.
add_index : (ℕ → List ℕ) → ℕ → ℕ → ℕ → List ℕ
add_index table b i c = if eqb c b then table c ++ i ∷ [] else table c

index_from : ℕ → (ℕ → List ℕ) → List Bytes → ℕ → List ℕ
index_from i table [] = table
index_from i table ([] ∷ ss) = index_from (suc i) table ss
index_from i table ((b ∷ s) ∷ ss) = index_from (suc i) (add_index table b i) ss

longest : ℕ → List Bytes → ℕ
longest n [] = n
longest n (s ∷ ss) = longest (if ltb n (length s) then length s else n) ss

-- The index of secrets that are already collected and sorted.
unfoldable pub over : List Bytes → Index
unfolding longest index_from add_index
over secrets = record {
  secrets = secrets;
  max_len = longest 0 secrets;
  by_first = index_from 0 (λ c. []) secrets;
}

unfoldable pub new_redactor : List Bytes → Redactor
unfolding over collect add_all add_secret base64_variants sort_longest insert_longest
new_redactor secrets = record { index = over (sort_longest (collect [] secrets)); buf = [] }

-- The entries that `byFirst` lists for a byte.
unfoldable pub candidates : Index → ℕ → List Bytes
candidates r c = map (nth r.secrets) (r.by_first c)

-- `i+len(s) <= len(bytes) && bytes.Equal(bytes[i:i+len(s)], s)`, at the suffix of `bytes` from `i` on.
unfoldable pub matches_at : Bytes → Bytes → Bool
matches_at s bytes = leb (length s) (length bytes) && take (length s) bytes == s

unfoldable pub first_match : List Bytes → Bytes → Option Bytes
first_match [] bytes = none
first_match (s ∷ ss) bytes = if matches_at s bytes then some s else first_match ss bytes

unfoldable pub potential_among : List Bytes → Bytes → Bool
potential_among ss tail = any (λ s. ltb (length tail) (length s) && has_prefix s tail) ss

unfoldable pub is_potential_prefix : Index → Bytes → Bool
unfolding potential_among
is_potential_prefix r [] = false
is_potential_prefix r (c ∷ tail) = potential_among (candidates r c) (c ∷ tail)

-- The loop of `scan` over the bytes from `i - skip` on: after a match `i` runs ahead by `skip`
-- bytes. The result is what is emitted and what is kept.
unfoldable pub scan_from : Index → Bool → ℕ → Bytes → Bytes × Bytes
scan_from r final skip [] = ([], [])
scan_from r final (suc k) (c ∷ tail) = scan_from r final k tail
scan_from r final zero (c ∷ tail) = elim (first_match (candidates r c) (c ∷ tail)) [
  | some s ↦ let (out, keep) = scan_from r final (length s - 1) tail in (redact_marker ++ out, keep)
  | none ↦ elim (not final && is_potential_prefix r (c ∷ tail)) [
    | true ↦ ([], c ∷ tail)
    | false ↦ let (out, keep) = scan_from r final 0 tail in (c ∷ out, keep)
  ]
]

unfoldable pub scan : Index → Bytes → Bool → Bytes × Bytes
scan r bytes final = scan_from r final 0 bytes

-- What a write to the underlying writer leaves behind: its state, the count and whether it failed.
pub record Written (W : Type 0) : Type 0 where
  pub sink : W
  pub n : ℕ
  pub failed : Bool

pub record Outcome (W : Type 0) : Type 0 where
  pub redactor : Redactor
  pub written : Written W

-- `put` is the `Write` of the underlying writer.
module _ {W : Type 0} (put : W → Bytes → Written W) where
  unfoldable pub write : Redactor → W → Bytes → Outcome W
  write r w p =
      if is_nil r.secrets
      then record { redactor = r; written = put w p }
      else let buf = r.buf ++ p in
        let hold = r.max_len - 1 in
        if leb (length buf) hold
        then record {
          redactor = record r { buf = buf };
          written = record { sink = w; n = length p; failed = false };
        }
        else let split = length buf - hold in
          let (transformed, kept) = scan r.index (take split buf) false in
          let sent = put w transformed in
          if sent.failed
          then record {
            redactor = record r { buf = buf };
            written = record { sink = sent.sink; n = 0; failed = true };
          }
          else record {
            redactor = record r { buf = kept ++ drop split buf };
            written = record { sink = sent.sink; n = length p; failed = false };
          }

  unfoldable pub close : Redactor → W → Outcome W
  close r w =
      if is_nil r.buf
      then record { redactor = r; written = record { sink = w; n = 0; failed = false } }
      else let sent = put w (scan r.index r.buf true).0 in
        record {
          redactor = record r { buf = [] };
          written = record { sink = sent.sink; n = 0; failed = sent.failed };
        }
