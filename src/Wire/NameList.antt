-- ===== src/Wire/NameList.antt =====
-- The payload of a tracepoint list reply as the receiving side reads it, from
-- doc/tlv_documentation.txt: names, each behind its length in two bytes.
use libtracy.Common.{
  ℕ, zero, suc, ◌%◌, ◌^◌, ◌≤◌, ◌<◌, ◌≡◌, refl, List, [], ◌∷◌, ◌++◌, Option, none, some, arith,
  length, All,
}
use libtracy.Common.Bytes.{to_be_bytes, from_be_bytes}
use libtracy.Wire.Samples.{◌>>=◌, split_at, split_at-append, split_at-be, length_field}

unfoldable pub name_bytes : List (List ℕ) → List ℕ
name_bytes [] = []
name_bytes (n ∷ ns) = to_be_bytes 2 (length n % 2 ^ 16) ++ (n ++ name_bytes ns)

-- Names until the bytes are used up, at most `fuel` of them.
unfoldable pub read_names : ℕ → List ℕ → Option (List (List ℕ))
read_names fuel [] = some []
read_names zero (b ∷ bs) = none
read_names (suc fuel) (b ∷ bs) = do
  (name_len, bs1) ← split_at 2 (b ∷ bs)
  (name, rest) ← split_at (from_be_bytes name_len) bs1
  more ← read_names fuel rest
  some (name ∷ more)

abbrev pub FitsField : List ℕ → Type 0
FitsField n = length n < 2 ^ 16

read_names_step :
    (n rest : List ℕ) (fuel : ℕ)
    → read_names (suc fuel) (to_be_bytes 2 (length n % 2 ^ 16) ++ (n ++ rest)) ≡ (do
      (name_len, bs1) ← split_at 2 (to_be_bytes 2 (length n % 2 ^ 16) ++ (n ++ rest))
      (name, bs2) ← split_at (from_be_bytes name_len) bs1
      more ← read_names fuel bs2
      some (name ∷ more))
unfolding read_names to_be_bytes
read_names_step n rest fuel = refl

pub read_names-name_bytes :
    (ns : List (List ℕ)) (fuel : ℕ)
    → All FitsField ns
    → length ns ≤ fuel
    → read_names fuel (name_bytes ns) ≡ some ns
unfolding name_bytes
read_names-name_bytes [] fuel h k = unfold read_names in refl
read_names-name_bytes (n ∷ ns) zero h k = absurd (omega arith)
read_names-name_bytes (n ∷ ns) (suc fuel) h k = rw (
  read_names_step n (name_bytes ns) fuel,
  split_at-be 2 (length n % 2 ^ 16) (n ++ name_bytes ns),
  length_field (length n) h.0,
  split_at-append n (name_bytes ns) (length n) refl,
  read_names-name_bytes ns fuel h.1 (omega arith),
)
