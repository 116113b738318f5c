-- ===== src/Tracer/Flags.antt =====
-- The `AtomicBool` cells that the application's thread and the tracer thread share. An `Arc` is the
-- place of its cell; a clone of it is the same place.
use libtracy.Common.{
  ℕ, zero, suc, ◌<◌, ◌≡◌, ◌≢◌, refl, ap, Bool, false, List, [], ◌∷◌, ◌++◌, arith, length, get_or,
  set, length-set,
}

unfoldable pub load : List Bool → ℕ → Bool
load cells a = get_or cells a false

unfoldable pub store : List Bool → ℕ → Bool → List Bool
store cells a b = set cells a b

-- `Arc::new(AtomicBool::new(b))`: a cell behind the others.
unfoldable pub alloc : List Bool → Bool → ℕ × List Bool
alloc cells b = (length cells, cells ++ b ∷ [])

-- `for value in values { value.store(b) }`
unfoldable pub store_all : List Bool → List ℕ → Bool → List Bool
unfolding store
store_all cells [] b = cells
store_all cells (a ∷ as_) b = store_all (store cells a b) as_ b

pub load-store_self_false : (cells : List Bool) (a : ℕ) → load (store cells a false) a ≡ false
unfolding load store
load-store_self_false [] a = refl
load-store_self_false (c ∷ cs) zero = refl
load-store_self_false (c ∷ cs) (suc a) = load-store_self_false cs a

pub load-store_self :
    (cells : List Bool) (a : ℕ) (b : Bool) → a < length cells → load (store cells a b) a ≡ b
unfolding load store
load-store_self [] a b h = elim h [ ]
load-store_self (c ∷ cs) zero b h = refl
load-store_self (c ∷ cs) (suc a) b h = load-store_self cs a b (omega arith)

pub load-store_ne :
    (cells : List Bool) (a j : ℕ) (b : Bool) → a ≢ j → load (store cells a b) j ≡ load cells j
unfolding load store
load-store_ne [] a j b h = refl
load-store_ne (c ∷ cs) zero zero b h = absurd (h refl)
load-store_ne (c ∷ cs) zero (suc j) b h = refl
load-store_ne (c ∷ cs) (suc a) zero b h = refl
load-store_ne (c ∷ cs) (suc a) (suc j) b h = load-store_ne cs a j b (λ e. h (ap suc e))

pub length-store : (cells : List Bool) (a : ℕ) (b : Bool) → length (store cells a b) ≡ length cells
unfolding store
length-store cells a b = length-set cells a b

pub length-store_all :
    (cells : List Bool) (as_ : List ℕ) (b : Bool) → length (store_all cells as_ b) ≡ length cells
unfolding store_all
length-store_all cells [] b = refl
length-store_all cells (a ∷ as_) b =
    omega (arith, length-store_all (store cells a b) as_ b, length-store cells a b)

-- Switching cells off never switches one on.
pub store-load-false :
    (cells : List Bool) (a j : ℕ) → load cells j ≡ false → load (store cells a false) j ≡ false
unfolding load store
store-load-false [] a j h = refl
store-load-false (c ∷ cs) zero zero h = refl
store-load-false (c ∷ cs) zero (suc j) h = h
store-load-false (c ∷ cs) (suc a) zero h = h
store-load-false (c ∷ cs) (suc a) (suc j) h = store-load-false cs a j h

pub store_all-load-false :
    (cells : List Bool) (as_ : List ℕ) (j : ℕ)
    → load cells j ≡ false
    → load (store_all cells as_ false) j ≡ false
unfolding store_all
store_all-load-false cells [] j h = h
store_all-load-false cells (a ∷ as_) j h =
    store_all-load-false (store cells a false) as_ j (store-load-false cells a j h)
