-- ===== src/Tracer/HashMap.antt =====
-- `HashMap<String, V>` of the standard library as a list of entries. The order in which the library
-- visits the entries is not fixed, and no theorem about all of them depends on it.
use libtracy.Common.{
  ℕ, ◌≡◌, refl, Bool, true, false, List, [], ◌∷◌, Option, none, some, arith, bytes_eq, bytes_eq_iff,
  if◌then◌else◌, is_some, All,
}

module _ {ℓ} {V : Type ℓ} where
  unfoldable pub get : List ℕ → List (List ℕ × V) → Option V
  get k [] = none
  get k ((j, v) ∷ m) = if bytes_eq j k then some v else get k m

  -- The value is replaced if the key is there.
  unfoldable pub insert : List ℕ → V → List (List ℕ × V) → List (List ℕ × V)
  insert k v [] = (k, v) ∷ []
  insert k v ((j, w) ∷ m) = if bytes_eq j k then (j, v) ∷ m else (j, w) ∷ insert k v m

  unfoldable pub contains_key : List ℕ → List (List ℕ × V) → Bool
  contains_key k m = is_some (get k m)

  unfoldable pub keys : List (List ℕ × V) → List (List ℕ)
  keys [] = []
  keys ((k, v) ∷ m) = k ∷ keys m

  unfoldable pub values : List (List ℕ × V) → List V
  values [] = []
  values ((k, v) ∷ m) = v ∷ values m

  pub get-insert :
      (k j : List ℕ) (v : V) (m : List (List ℕ × V))
      → get j (insert k v m) ≡ (if bytes_eq k j then some v else get j m)
  unfolding get insert
  get-insert k j v [] = refl
  get-insert k j v ((i, w) ∷ m) =
      ground (arith, bytes_eq_iff k j, bytes_eq_iff i k, bytes_eq_iff i j, get-insert k j v m)

  -- A predicate of every key is kept by an insertion whose key has it.
  pub keys-insert {κ} :
      (P : List ℕ → Type κ) (k : List ℕ) (v : V) (m : List (List ℕ × V))
      → P k
      → All P (keys m)
      → All P (keys (insert k v m))
  unfolding keys insert
  keys-insert P k v [] hk hm = (hk, tt)
  keys-insert P k v ((j, w) ∷ m) hk hm =
      elim (bytes_eq j k) as (λ b. All P (keys (if b then (j, v) ∷ m else (j, w) ∷ insert k v m))) [
        | true ↦ hm
        | false ↦ (hm.0, keys-insert P k v m hk hm.1)
      ]

  pub get-All {κ} :
      (P : List ℕ → Type κ) (k : List ℕ) (v : V) (m : List (List ℕ × V))
      → All P (keys m)
      → get k m ≡ some v
      → P k
  unfolding get keys
  get-All P k v [] h e = cc
  get-All P k v ((j, w) ∷ m) h e = ground (arith, bytes_eq_iff j k, get-All P k v m)
