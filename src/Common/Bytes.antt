-- ===== src/Common/Bytes.antt =====
-- `to_be_bytes` and `from_be_bytes` of the unsigned integers, at a width in bytes.
use Prim.Native.Nat.{ℕ, zero, suc, ◌+◌, ◌*◌, ◌/◌, ◌%◌, ◌^◌, ◌<◌}
use mathlib.Core.Path.{◌≡◌, refl}
use mathlib.Core.List.{List, [], ◌∷◌, ◌++◌}
use native.Mathlib.Omega.{arith}
use native.Mathlib.Nat.{pow-suc}
use libtracy.Common.Lists.{length, length-append, All, All-append}

abbrev pub IsByte : ℕ → Type 0
IsByte b = b < 256

unfoldable pub to_be_bytes : ℕ → ℕ → List ℕ
to_be_bytes zero n = []
to_be_bytes (suc k) n = to_be_bytes k (n / 256) ++ n % 256 ∷ []

unfoldable pub from_be_acc : ℕ → List ℕ → ℕ
from_be_acc acc [] = acc
from_be_acc acc (b ∷ bs) = from_be_acc (acc * 256 + b) bs

unfoldable pub from_be_bytes : List ℕ → ℕ
unfolding from_be_acc
from_be_bytes bs = from_be_acc 0 bs

from_be_acc-append :
    (acc : ℕ) (xs : List ℕ) (b : ℕ) → from_be_acc acc (xs ++ b ∷ []) ≡ from_be_acc acc xs * 256 + b
unfolding from_be_acc
from_be_acc-append acc [] b = refl
from_be_acc-append acc (x ∷ xs) b = from_be_acc-append (acc * 256 + x) xs b

pub length-to_be_bytes : (k n : ℕ) → length (to_be_bytes k n) ≡ k
unfolding to_be_bytes
length-to_be_bytes zero n = refl
length-to_be_bytes (suc k) n =
    omega (
      arith,
      length-append (to_be_bytes k (n / 256)) (n % 256 ∷ []),
      length-to_be_bytes k (n / 256),
    )

pub to_be_bytes-IsByte : (k n : ℕ) → All IsByte (to_be_bytes k n)
unfolding to_be_bytes
to_be_bytes-IsByte zero n = tt
to_be_bytes-IsByte (suc k) n =
    All-append IsByte (to_be_bytes k (n / 256)) (n % 256 ∷ []) (to_be_bytes-IsByte k (n / 256))
      (omega arith, tt)

from-to_be_acc : (k n : ℕ) → n < 256 ^ k → from_be_acc 0 (to_be_bytes k n) ≡ n
unfolding to_be_bytes
from-to_be_acc zero n h = unfold from_be_acc in omega arith
from-to_be_acc (suc k) n h =
    rw from_be_acc-append (omega (arith, from-to_be_acc k (n / 256) (omega (arith, pow-suc 256 k))))

-- A number that fits its width is read back from its bytes.
pub from_be_bytes-to_be_bytes : (k n : ℕ) → n < 256 ^ k → from_be_bytes (to_be_bytes k n) ≡ n
unfolding from_be_bytes
from_be_bytes-to_be_bytes k n h = from-to_be_acc k n h
