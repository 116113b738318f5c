-- ===== src/Text/Decimal.antt =====
-- What `format!` makes of literals and of unsigned integers.
use Prim.Native.Char.{code}
use Prim.Native.String.{String}
use native.Mathlib.Nat.{pow-suc}
use libtracy.Common.{
  ℕ, zero, suc, ◌+◌, ◌*◌, ◌-◌, ◌/◌, ◌%◌, ◌^◌, ◌≤◌, ◌<◌, ◌≡◌, refl, All, All-append, ltb→lt, List,
  [], ◌∷◌, ◌++◌, ltb, arith, true, false, Bool-cases, inl, inr,
}

-- The bytes of an ASCII literal.
abbrev pub codes : String → List ℕ
codes String.[] = []
codes (String.◌∷◌ c s) = code c ∷ codes s

-- The decimal digits of a number below 10 ^ fuel, at least one.
unfoldable pub digits_of : ℕ → ℕ → List ℕ
digits_of zero n = []
digits_of (suc fuel) n = elim (ltb n 10) [
  | true ↦ (b'0' + n) ∷ []
  | false ↦ digits_of fuel (n / 10) ++ (b'0' + n % 10) ∷ []
]

-- A `u64` has at most twenty digits.
unfoldable pub decimal : ℕ → List ℕ
unfolding digits_of
decimal n = digits_of 20 n

abbrev digit_step : ℕ → ℕ → ℕ
digit_step acc d = acc * 10 + (d - b'0')

unfoldable pub value_from : ℕ → List ℕ → ℕ
value_from acc [] = acc
value_from acc (d ∷ ds) = value_from (digit_step acc d) ds

value_from-append :
    (acc : ℕ) (ds : List ℕ) (d : ℕ)
    → value_from acc (ds ++ d ∷ []) ≡ digit_step (value_from acc ds) d
unfolding value_from
value_from-append acc [] d = refl
value_from-append acc (c ∷ cs) d = value_from-append (digit_step acc c) cs d

value_one : (n : ℕ) → value_from 0 ((b'0' + n) ∷ []) ≡ n
unfolding value_from
value_one n = omega arith

value-digits_of : (fuel n : ℕ) → n < 10 ^ fuel → value_from 0 (digits_of fuel n) ≡ n
unfolding digits_of
value-digits_of zero n h = unfold value_from in omega arith
value-digits_of (suc fuel) n h = elim (Bool-cases (ltb n 10)) [
  | inl one ↦ rw (one, digits_of) (value_one n)
  | inr more ↦
      rw (more, digits_of, value_from-append 0 (digits_of fuel (n / 10)) (b'0' + n % 10))
        (omega (arith, value-digits_of fuel (n / 10) (omega (arith, pow-suc 10 fuel))))
]

-- A printed `u64` reads back as the number.
pub value-decimal : (n : ℕ) → n < 2 ^ 64 → value_from 0 (decimal n) ≡ n
unfolding decimal
value-decimal n h = value-digits_of 20 n (omega arith)

abbrev pub IsDigit : ℕ → Type 0
IsDigit b = (b'0' ≤ b) × (b ≤ b'9')

digits_of-IsDigit : (fuel n : ℕ) → All IsDigit (digits_of fuel n)
unfolding digits_of
digits_of-IsDigit zero n = tt
digits_of-IsDigit (suc fuel) n = elim (Bool-cases (ltb n 10)) [
  | inl one ↦ rw (one, digits_of) (omega (arith, ltb→lt n 10 one))
  | inr more ↦
      rw (more, digits_of)
        (All-append IsDigit (digits_of fuel (n / 10)) ((b'0' + n % 10) ∷ [])
          (digits_of-IsDigit fuel (n / 10)) (omega arith))
]

pub decimal-IsDigit : (n : ℕ) → All IsDigit (decimal n)
decimal-IsDigit n = unfold decimal in digits_of-IsDigit 20 n

append-cons : (ds : List ℕ) (d : ℕ) → (first : ℕ) × (rest : List ℕ) × (ds ++ d ∷ [] ≡ first ∷ rest)
append-cons [] d = (d, [], refl)
append-cons (c ∷ cs) d = (c, cs ++ d ∷ [], refl)

-- There is at least one digit.
pub decimal_cons : (n : ℕ) → (d : ℕ) × (ds : List ℕ) × (decimal n ≡ d ∷ ds)
unfolding decimal digits_of
decimal_cons n = elim (Bool-cases (ltb n 10)) [
  | inl one ↦ (b'0' + n, [], rw (one, decimal, digits_of) refl)
  | inr more ↦
      let (d, ds, e) = append-cons (digits_of 19 (n / 10)) (b'0' + n % 10) in
      (d, ds, rw (more, decimal, digits_of) e)
]
