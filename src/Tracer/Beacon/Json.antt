-- ===== src/Tracer/Beacon/Json.antt =====
-- A reader of flat JSON objects, the reference that the text of src/udp_beacon.rs is held to: members
-- whose values are unsigned numbers or strings without escapes, with blanks between the tokens.
use mathlib.Core.Path.{subst}
use libtracy.Common.{
  ap, sym, ◌∙◌, ℕ, zero, suc, ◌≤◌, ◌<◌, ◌^◌, ◌≡◌, ◌≢◌, refl, Bool, false, ◌&&◌, List, [], ◌∷◌, ◌++◌,
  Option, none, some, if◌then◌else◌, ltb, leb, ◌==◌, All, arith,
}
use libtracy.Text.Decimal.{
  decimal, value_from, value-decimal, IsDigit, decimal-IsDigit, decimal_cons,
}
use libtracy.Wire.Samples.{◌>>=◌}

pub data Value : Type 0 where
  number : ℕ → Value
  text : List ℕ → Value

unfoldable pub is_digit : ℕ → Bool
is_digit b = leb b'0' b && leb b b'9'

unfoldable pub skip_blanks : List ℕ → List ℕ
skip_blanks [] = []
skip_blanks (b ∷ bs) = let rest = skip_blanks bs in if b == b' ' then rest else b ∷ bs

-- A token of one character.
unfoldable pub take_mark : ℕ → List ℕ → Option (List ℕ)
take_mark c [] = none
take_mark c (b ∷ bs) = if b == c then some bs else none

unfoldable pub read_mark : ℕ → List ℕ → Option (List ℕ)
unfolding skip_blanks take_mark
read_mark c bs = take_mark c (skip_blanks bs)

-- The rest of a string behind its first quote; a backslash and a control character are refused.
unfoldable pub read_text : List ℕ → Option (List ℕ × List ℕ)
read_text [] = none
read_text (b ∷ bs) =
    let rest = read_text bs in
    if b == b'"'
    then some ([], bs)
    else if b == 92
    then none
    else if ltb b 32
    then none
    else (do (front, behind) ← rest; some (b ∷ front, behind))

unfoldable pub read_digits : List ℕ → List ℕ × List ℕ
unfolding is_digit
read_digits [] = ([], [])
read_digits (b ∷ bs) =
    let rest = read_digits bs in if is_digit b then (b ∷ rest.0, rest.1) else ([], b ∷ bs)

unfoldable pub read_token : List ℕ → Option (Value × List ℕ)
unfolding is_digit read_text read_digits
read_token [] = none
read_token (b ∷ bs) =
    let digits = read_digits (b ∷ bs) in
    if b == b'"'
    then (do (s, rest) ← read_text bs; some (text s, rest))
    else if is_digit b
    then some (number (value_from 0 digits.0), digits.1)
    else none

unfoldable pub read_member : List ℕ → Option ((List ℕ × Value) × List ℕ)
unfolding read_mark read_text read_token skip_blanks
read_member bs = do
  bs1 ← read_mark b'"' bs
  (key, bs2) ← read_text bs1
  bs3 ← read_mark b':' bs2
  (value, rest) ← read_token (skip_blanks bs3)
  some ((key, value), rest)

-- Members up to the closing brace, at most `fuel` of them, and nothing behind it.
unfoldable pub read_members : ℕ → List ℕ → Option (List (List ℕ × Value))
unfolding read_member read_mark
read_members zero bs = none
read_members (suc fuel) bs = do
  (m, bs1) ← read_member bs
  elim (read_mark b',' bs1) [
    | some bs2 ↦ do ms ← read_members fuel bs2; some (m ∷ ms)
    | none ↦ do bs2 ← read_mark b'}' bs1; elim bs2 [ [] ↦ some (m ∷ []) | _ ∷ _ ↦ none ]
  ]

unfoldable pub read_object : ℕ → List ℕ → Option (List (List ℕ × Value))
unfolding read_mark read_members
read_object fuel bs = do bs1 ← read_mark b'{' bs; read_members fuel bs1

-- A character that stands for itself in a JSON string.
abbrev pub IsPlain : ℕ → Type 0
IsPlain b = (32 ≤ b) × (b ≢ b'"') × (b ≢ 92)

read_text-plain : (s rest : List ℕ) → All IsPlain s → read_text (s ++ b'"' ∷ rest) ≡ some (s, rest)
unfolding read_text
read_text-plain [] rest h = refl
read_text-plain (b ∷ s) rest h = ground (arith, read_text-plain s rest h.1, h.0)

read_digits-digits :
    (ds : List ℕ) (c : ℕ) (rest : List ℕ)
    → All IsDigit ds
    → is_digit c ≡ false
    → read_digits (ds ++ c ∷ rest) ≡ (ds, c ∷ rest)
unfolding read_digits is_digit
read_digits-digits [] c rest h n = rw n refl
read_digits-digits (d ∷ ds) c rest h n = ground (arith, read_digits-digits ds c rest h.1 n, h.0)

read_token-digits :
    (d : ℕ) (ds : List ℕ) (c : ℕ) (rest : List ℕ)
    → All IsDigit (d ∷ ds)
    → is_digit c ≡ false
    → read_token (skip_blanks ((d ∷ ds) ++ c ∷ rest))
      ≡ some (number (value_from 0 (d ∷ ds)), c ∷ rest)
unfolding read_token is_digit skip_blanks
read_token-digits d ds c rest h n = ground (arith, read_digits-digits (d ∷ ds) c rest h n, h.0)

read_token-decimal :
    (n c : ℕ) (rest : List ℕ)
    → n < 2 ^ 64
    → is_digit c ≡ false
    → read_token (skip_blanks (decimal n ++ c ∷ rest)) ≡ some (number n, c ∷ rest)
read_token-decimal n c rest h e =
    let (d, ds, q) = decimal_cons n in
    let digits : All IsDigit (d ∷ ds) = subst (All IsDigit) q (decimal-IsDigit n) in
    ap (λ xs. read_token (skip_blanks (xs ++ c ∷ rest))) q
    ∙ read_token-digits d ds c rest digits e
    ∙ ap (λ v. some (number v, c ∷ rest)) (ap (value_from 0) (sym q) ∙ value-decimal n h)

-- A member whose value is a number, up to the character behind it.
pub member_number :
    (key : List ℕ) (n c : ℕ) (rest : List ℕ)
    → All IsPlain key
    → n < 2 ^ 64
    → is_digit c ≡ false
    → read_member (b'"' ∷ (key ++ b'"' ∷ b':' ∷ b' ' ∷ (decimal n ++ c ∷ rest)))
      ≡ some ((key, number n), c ∷ rest)
unfolding read_member read_mark take_mark skip_blanks
member_number key n c rest hk h e =
    rw (read_text-plain key (b':' ∷ b' ' ∷ (decimal n ++ c ∷ rest)) hk)
      (rw (read_token-decimal n c rest h e) refl)

-- A member whose value is a string.
pub member_text :
    (key s rest : List ℕ)
    → All IsPlain key
    → All IsPlain s
    → read_member (b'"' ∷ (key ++ b'"' ∷ b':' ∷ b' ' ∷ b'"' ∷ (s ++ b'"' ∷ rest)))
      ≡ some ((key, text s), rest)
unfolding read_member read_mark take_mark skip_blanks read_token
member_text key s rest hk hs =
    rw (read_text-plain key (b':' ∷ b' ' ∷ b'"' ∷ (s ++ b'"' ∷ rest)) hk, read_text-plain s rest hs)
      refl

-- A blank in front of a member is skipped.
pub member_blank : (bs : List ℕ) → read_member (b' ' ∷ bs) ≡ read_member bs
unfolding read_member read_mark skip_blanks
member_blank bs = refl

pub members_more :
    (fuel : ℕ) (bs rest : List ℕ) (m : List ℕ × Value) (ms : List (List ℕ × Value))
    → read_member bs ≡ some (m, b',' ∷ rest)
    → read_members fuel rest ≡ some ms
    → read_members (suc fuel) bs ≡ some (m ∷ ms)
unfolding read_members read_mark take_mark skip_blanks
members_more fuel bs rest m ms e h = rw (e, ◌>>=◌, h) refl

pub members_last :
    (fuel : ℕ) (bs : List ℕ) (m : List ℕ × Value)
    → read_member bs ≡ some (m, b'}' ∷ [])
    → read_members (suc fuel) bs ≡ some (m ∷ [])
unfolding read_members read_mark take_mark skip_blanks
members_last fuel bs m e = rw e refl
