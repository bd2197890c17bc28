-- ===== src/Redact/Indexing.antt =====
-- The table `byFirst` against a search of all secrets.
use mathlib.Core.List.{Memᴰ, append_assoc, append-nil, map-append}
use roksbnkctl.Prelude.{
  ℕ, suc, ◌+◌, ◌≡◌, refl, sym, ap, ◌∙◌, inl, inr, Bool, false, List, [], ◌∷◌, ◌++◌, map, arith, eqb,
  if◌then◌else◌, Bool-cases, Memᴰ-cases,
}
use roksbnkctl.Redact.Encoding.{Bytes}
use roksbnkctl.Redact.{nth, add_index, index_from, over, candidates}
use roksbnkctl.Redact.Matching.{PrefixFree}

abbrev pub begins_with : ℕ → Bytes → Bool
begins_with c [] = false
begins_with c (b ∷ s) = eqb c b

-- The secrets that begin with a byte, by a search of all of them.
abbrev pub beginning : ℕ → List Bytes → List Bytes
beginning c [] = []
beginning c (s ∷ ss) = let rest = beginning c ss in if begins_with c s then s ∷ rest else rest

-- `rest` is what `all` holds from index `i` on.
abbrev IsFrom : List Bytes → ℕ → List Bytes → Type 0
IsFrom all i rest = (k : ℕ) → nth all (i + k) ≡ nth rest k

IsFrom-tail :
    (all rest : List Bytes) (i : ℕ) (s : Bytes) → IsFrom all i (s ∷ rest) → IsFrom all (suc i) rest
IsFrom-tail all rest i s from k = ap (nth all) (omega arith) ∙ from (suc k)

map-add_index :
    (all rest : List Bytes) (table : ℕ → List ℕ) (i b c : ℕ) (s : Bytes)
    → IsFrom all i ((b ∷ s) ∷ rest)
    → map (nth all) (add_index table b i c) ++ beginning c rest
      ≡ map (nth all) (table c) ++ beginning c ((b ∷ s) ∷ rest)
unfolding add_index
map-add_index all rest table i b c s from = elim (Bool-cases (eqb c b)) [
  | inl same ↦
      let here : nth all i ≡ b ∷ s = ap (nth all) (omega arith) ∙ from 0 in
      rw same (
        rw (map-append, append_assoc)
          (ap (λ x. map (nth all) (table c) ++ (x ∷ beginning c rest)) here))
  | inr other ↦ rw other refl
]

index_from_lem :
    (all rest : List Bytes) (table : ℕ → List ℕ) (i c : ℕ)
    → IsFrom all i rest
    → map (nth all) (index_from i table rest c) ≡ map (nth all) (table c) ++ beginning c rest
unfolding index_from
index_from_lem all [] table i c from = sym (append-nil _)
index_from_lem all ([] ∷ rest) table i c from =
    index_from_lem all rest table (suc i) c (IsFrom-tail all rest i [] from)
index_from_lem all ((b ∷ s) ∷ rest) table i c from =
    index_from_lem all rest (add_index table b i) (suc i) c (IsFrom-tail all rest i (b ∷ s) from)
    ∙ map-add_index all rest table i b c s from

-- The table lists, for every byte, exactly the secrets that begin with it, in their order.
pub candidates-over : (ss : List Bytes) (c : ℕ) → candidates (over ss) c ≡ beginning c ss
unfolding candidates over
candidates-over ss c = index_from_lem ss ss (λ _. []) 0 c (λ k. ap (nth ss) (omega arith))

pub mem-beginning : (c : ℕ) (s : Bytes) (ss : List Bytes) → Memᴰ s (beginning c ss) → Memᴰ s ss
mem-beginning c s [] m = elim m [ ]
mem-beginning c s (x ∷ ss) m = elim (Bool-cases (begins_with c x)) [
  | inl e ↦ elim (Memᴰ-cases (rw e at m)) [
    | inl same ↦ Memᴰ.head same
    | inr later ↦ Memᴰ.tail (mem-beginning c s ss later)
  ]
  | inr e ↦ Memᴰ.tail (mem-beginning c s ss (rw e at m))
]

pub PrefixFree-candidates :
    (ss : List Bytes) (c : ℕ) → PrefixFree ss → PrefixFree (candidates (over ss) c)
PrefixFree-candidates ss c free =
    rw candidates-over λ s t p q. free s t (mem-beginning c s ss p) (mem-beginning c t ss q)
