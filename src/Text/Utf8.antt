-- ===== src/Text/Utf8.antt =====
-- UTF-8 of the standard library: `from_utf8` and `to_string_lossy`. A `String` is the list of its
-- bytes.
use libtracy.Common.{
  ℕ, zero, suc, Bool, true, false, ◌&&◌, List, [], ◌∷◌, ◌++◌, leb, ltb, ◌==◌, if◌then◌else◌, get_or,
  ◌≡◌, refl, all, arith,
}

-- The bytes that open a text: a character of so many bytes, or so many that belong to none.
pub data Lead : Type 0 where
  valid : ℕ → Lead
  broken : ℕ → Lead

abbrev between : ℕ → ℕ → ℕ → Bool
between lo hi b = leb lo b && leb b hi

abbrev continues : List ℕ → ℕ → Bool
continues bs i = between 0x80 0xbf (get_or bs i 0)

-- Whether the second byte may follow the first, by the table of the Unicode standard.
abbrev second : ℕ → ℕ → Bool
second a b =
    if a == 0xe0
    then between 0xa0 0xbf b
    else if a == 0xed
    then between 0x80 0x9f b
    else if a == 0xf0
    then between 0x90 0xbf b
    else if a == 0xf4
    then between 0x80 0x8f b
    else between 0x80 0xbf b

-- `bs` is what follows the byte `a`.
unfoldable pub lead : ℕ → List ℕ → Lead
lead a bs =
    let b = get_or bs 0 0 in
    if ltb a 0x80
    then valid 1
    else if between 0xc2 0xdf a
    then (if second a b then valid 2 else broken 1)
    else if between 0xe0 0xef a
    then (if second a b then (if continues bs 1 then valid 3 else broken 2) else broken 1)
    else if between 0xf0 0xf4 a
    then (if second a b
        then (if continues bs 1 then (if continues bs 2 then valid 4 else broken 3) else broken 2)
        else broken 1)
    else broken 1

replacement : List ℕ
replacement = 0xef ∷ 0xbf ∷ 0xbd ∷ []

-- The text behind its first `skip` bytes, which are copied if `copy` is set.
unfoldable pub lossy_from : ℕ → Bool → List ℕ → List ℕ
unfolding lead replacement
lossy_from skip copy [] = []
lossy_from zero copy (a ∷ bs) = elim (lead a bs) [
  | valid zero ↦ a ∷ lossy_from zero true bs
  | valid (suc n) ↦ a ∷ lossy_from n true bs
  | broken zero ↦ replacement ++ lossy_from zero false bs
  | broken (suc n) ↦ replacement ++ lossy_from n false bs
]
lossy_from (suc skip) true (a ∷ bs) = a ∷ lossy_from skip true bs
lossy_from (suc skip) false (a ∷ bs) = lossy_from skip false bs

-- `to_string_lossy`: what is no UTF-8 becomes U+FFFD, each longest broken run one of them.
unfoldable pub to_string_lossy : List ℕ → List ℕ
unfolding lossy_from
to_string_lossy bs = lossy_from zero true bs

unfoldable pub is_utf8_from : ℕ → List ℕ → Bool
unfolding lead
is_utf8_from skip [] = true
is_utf8_from zero (a ∷ bs) = elim (lead a bs) [
  | valid zero ↦ is_utf8_from zero bs
  | valid (suc n) ↦ is_utf8_from n bs
  | broken n ↦ false
]
is_utf8_from (suc skip) (a ∷ bs) = is_utf8_from skip bs

-- `from_utf8(bytes).unwrap_or_default()`
unfoldable pub from_utf8_or_default : List ℕ → List ℕ
unfolding is_utf8_from
from_utf8_or_default bs = if is_utf8_from zero bs then bs else []

-- ASCII passes through unchanged.
pub to_string_lossy-ascii :
    (bs : List ℕ) → all (λ b. ltb b 0x80) bs ≡ true → to_string_lossy bs ≡ bs
unfolding to_string_lossy all
to_string_lossy-ascii [] h = refl
to_string_lossy-ascii (b ∷ bs) h = ground (arith, to_string_lossy-ascii bs)

pub from_utf8-ascii : (bs : List ℕ) → all (λ b. ltb b 0x80) bs ≡ true → is_utf8_from zero bs ≡ true
unfolding is_utf8_from all
from_utf8-ascii [] h = refl
from_utf8-ascii (b ∷ bs) h = ground (arith, from_utf8-ascii bs)

lossy_mixed :
    to_string_lossy (0x61 ∷ 0xff ∷ 0xe2 ∷ 0x82 ∷ 0xac ∷ 0xe2 ∷ 0x82 ∷ 0x62 ∷ [])
    ≡ 0x61 ∷ 0xef ∷ 0xbf ∷ 0xbd ∷ 0xe2 ∷ 0x82 ∷ 0xac ∷ 0xef ∷ 0xbf ∷ 0xbd ∷ 0x62 ∷ []
unfolding to_string_lossy
lossy_mixed = refl
