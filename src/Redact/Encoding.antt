-- ===== src/Redact/Encoding.antt =====
-- internal/exec/redact.go, base64Variants and alignedMiddle, with the encodings of encoding/base64
-- that they call. A byte is a number below 256.
use roksbnkctl.Prelude.{
  ℕ, ◌+◌, ◌-◌, ◌*◌, ◌/◌, ◌%◌, Bool, true, false, List, [], ◌∷◌, ◌++◌, ltb, leb, eqb, if◌then◌else◌,
  length, take, drop, replicate,
}

abbrev pub Bytes : Type 0
Bytes = List ℕ

-- A `base64.Encoding`: its characters 62 and 63, and whether it pads.
pub record Base64 : Type 0 where
  pub char62 : ℕ
  pub char63 : ℕ
  pub pads : Bool

abbrev pub std_encoding : Base64
std_encoding = record { char62 = b'+'; char63 = b'/'; pads = true }

abbrev pub raw_std_encoding : Base64
raw_std_encoding = record { char62 = b'+'; char63 = b'/'; pads = false }

abbrev pub url_encoding : Base64
url_encoding = record { char62 = b'-'; char63 = b'_'; pads = true }

abbrev pub raw_url_encoding : Base64
raw_url_encoding = record { char62 = b'-'; char63 = b'_'; pads = false }

sextet : Base64 → ℕ → ℕ
sextet e v =
    if ltb v 26
    then b'A' + v
    else if ltb v 52
    then b'a' + v - 26
    else if ltb v 62
    then b'0' + v - 52
    else if eqb v 62
    then e.char62
    else e.char63

abbrev padding : Base64 → ℕ → Bytes
padding e n = if e.pads then replicate n b'=' else []

-- `enc.EncodeToString`: three bytes give four characters, and a shorter last group is padded.
unfoldable pub encode : Base64 → Bytes → Bytes
unfolding sextet
encode e [] = []
encode e (a ∷ []) = sextet e (a / 4) ∷ sextet e (a % 4 * 16) ∷ padding e 2
encode e (a ∷ b ∷ []) =
    sextet e (a / 4) ∷ sextet e (a % 4 * 16 + b / 16) ∷ sextet e (b % 16 * 4) ∷ padding e 1
encode e (a ∷ b ∷ c ∷ rest) =
    sextet e (a / 4)
    ∷ sextet e (a % 4 * 16 + b / 16)
    ∷ sextet e (b % 16 * 4 + c / 64)
    ∷ sextet e (c % 64)
    ∷ encode e rest

abbrev pub min_base64_secret : ℕ
min_base64_secret = 8

-- The part of the encoding that does not depend on what surrounds the secret, when `off` bytes of
-- an earlier group precede it.
unfoldable pub aligned_middle : Bytes → ℕ → Base64 → Bytes
aligned_middle raw off enc =
    let buf = replicate off 0 ++ raw in
    let encoded = encode enc buf in
    let front : ℕ = if ltb 0 off then 4 else 0 in
    let rem = length buf % 3 in
    let tail : ℕ = if eqb rem 0 then 0 else rem + 1 in
    if leb (length encoded) (front + tail)
    then []
    else take (length encoded - tail - front) (drop front encoded)

-- One round of the inner loop of base64Variants.
middle_variant : Bytes → Base64 → ℕ → List Bytes
middle_variant raw enc off =
    let m = aligned_middle raw off enc in if leb min_base64_secret (length m) then m ∷ [] else []

unfoldable pub base64_variants : Bytes → List Bytes
unfolding aligned_middle middle_variant encode
base64_variants s =
    if ltb (length s) min_base64_secret
    then []
    else encode std_encoding s
      ∷ encode raw_std_encoding s
      ∷ encode url_encoding s
      ∷ encode raw_url_encoding s
      ∷ (middle_variant s raw_std_encoding 0
          ++ (middle_variant s raw_std_encoding 1
              ++ (middle_variant s raw_std_encoding 2
                  ++ (middle_variant s raw_url_encoding 0
                      ++ (middle_variant s raw_url_encoding 1
                          ++ middle_variant s raw_url_encoding 2)))))
