-- ===== src/Text/Names.antt =====
-- src/lib.rs: the names that `fix_tracepoint_str` lets through.
use mathlib.Core.Path.{subst}
use libtracy.Common.{
  take_all, ℕ, zero, suc, ◌≤◌, ◌<◌, ◌≡◌, ◌⊎◌, ◌↔◌, inl, inr, refl, true, false, List, [], ◌∷◌, none,
  some, length, take, All, arith, Bool-cases, length-take, length-map,
}
use libtracy.Text.Ascii.{max_tracepoint_name_len, is_ascii, lower, to_lowercase, fix_tracepoint_str}

-- An ASCII character that is no capital letter.
abbrev pub IsLower : ℕ → Type 0
IsLower b = (b < 0x80) × ((b < b'A') ⊎ (b'Z' < b))

pub record IsName (name : List ℕ) : Type 0 where
  pub short : length name ≤ max_tracepoint_name_len
  pub letters : All IsLower name

lower-IsLower : (b : ℕ) → b < 0x80 → IsLower (lower b)
unfolding lower
lower-IsLower b h = ground arith

to_lowercase-IsLower : (bs : List ℕ) → is_ascii bs ≡ true → All IsLower (to_lowercase bs)
unfolding is_ascii to_lowercase
to_lowercase-IsLower [] h = tt
to_lowercase-IsLower (b ∷ bs) h = ground (arith, lower-IsLower b, to_lowercase-IsLower bs)

is_ascii-take : (n : ℕ) (bs : List ℕ) → is_ascii bs ≡ true → is_ascii (take n bs) ≡ true
unfolding is_ascii
is_ascii-take zero bs h = refl
is_ascii-take (suc n) [] h = refl
is_ascii-take (suc n) (b ∷ bs) h = ground (arith, is_ascii-take n bs)

length-to_lowercase : (bs : List ℕ) → length (to_lowercase bs) ≡ length bs
unfolding to_lowercase
length-to_lowercase bs = length-map lower bs

cut_IsName :
    (raw : List ℕ) → is_ascii raw ≡ true → IsName (to_lowercase (take max_tracepoint_name_len raw))
cut_IsName raw e = record {
  short = omega (
    arith,
    length-to_lowercase (take max_tracepoint_name_len raw),
    length-take max_tracepoint_name_len raw,
  );
  letters =
      to_lowercase-IsLower (take max_tracepoint_name_len raw)
        (is_ascii-take max_tracepoint_name_len raw e);
}

-- What is not ASCII is refused. Anything else passes as its first 32 bytes in lower case, and that
-- is a name of at most 32 ASCII bytes without a capital letter.
pub fix_tracepoint_str_cases :
    (raw : List ℕ)
    → ((is_ascii raw ≡ false) × (fix_tracepoint_str raw ≡ none))
      ⊎ ((name : List ℕ) × (is_ascii raw ≡ true)
          × (fix_tracepoint_str raw ≡ some name)
          × (name ≡ to_lowercase (take max_tracepoint_name_len raw))
          × IsName name)
unfolding fix_tracepoint_str
fix_tracepoint_str_cases raw = elim (Bool-cases (is_ascii raw)) [
  | inl e ↦ inr (
    to_lowercase (take max_tracepoint_name_len raw),
    e,
    ground (arith, take_all max_tracepoint_name_len raw),
    refl,
    cut_IsName raw e,
  )
  | inr e ↦ inl (e, ground arith)
]

lower-lower : (b : ℕ) → IsLower b → lower b ≡ b
unfolding lower
lower-lower b h = ground arith

lower_fixed : (bs : List ℕ) → All IsLower bs → to_lowercase bs ≡ bs
unfolding to_lowercase
lower_fixed [] h = refl
lower_fixed (b ∷ bs) h = rw (lower-lower b h.0, lower_fixed bs h.1)

is_ascii_name : (bs : List ℕ) → All IsLower bs → is_ascii bs ≡ true
unfolding is_ascii
is_ascii_name [] h = refl
is_ascii_name (b ∷ bs) h = ground (arith, is_ascii_name bs h.1)

-- Such a name passes unchanged.
pub fix-IsName : (name : List ℕ) → IsName name → fix_tracepoint_str name ≡ some name
unfolding fix_tracepoint_str
fix-IsName name h = ground (arith, is_ascii_name name h.letters, lower_fixed name h.letters)

-- The names that the repair gives back unchanged are exactly those of at most 32 ASCII bytes without a
-- capital letter.
pub fix_tracepoint_str-fixed_iff :
    (name : List ℕ) → (fix_tracepoint_str name ≡ some name) ↔ IsName name
fix_tracepoint_str-fixed_iff name = (
  (λ h. elim (fix_tracepoint_str_cases name) [
    | inl (_, e) ↦ cc (e, h)
    | inr (found, _, e, _, v) ↦ let q : found ≡ name = cc (e, h) in subst IsName q v
  ]),
  fix-IsName name,
)
