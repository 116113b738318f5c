-- ===== src/Wire/Samples.antt =====
-- The receiving side of TRACE_PUSH, written from doc/tlv_documentation.txt: the reference that the
-- encoder of src/tcp_handler.rs is held to.
use libtracy.Common.{
  ℕ, zero, suc, map, ap, ◌≤◌, All, ◌%◌, ◌^◌, ◌<◌, ◌≡◌, refl, sym, ◌∙◌, List, [], ◌∷◌, ◌++◌,
  append_assoc, Option, none, some, arith, length,
}
use libtracy.Common.Bytes.{
  to_be_bytes, from_be_bytes, length-to_be_bytes, from_be_bytes-to_be_bytes,
}
use libtracy.Wire.Element.{BufferElement, nanoseconds, nanoseconds-lt, encoded}

infixl 5 ◌>>=◌
abbrev pub ◌>>=◌ {ℓ κ} : {A : Type ℓ} {B : Type κ} → Option A → (A → Option B) → Option B
none >>= f = none
some a >>= f = f a

-- What the client learns of one submission.
pub record Sample : Type 0 where
  pub name : List ℕ
  pub stamp : ℕ
  pub body : List ℕ

-- The first `n` bytes and the rest.
unfoldable pub split_at : ℕ → List ℕ → Option (List ℕ × List ℕ)
split_at zero bs = some ([], bs)
split_at (suc n) [] = none
split_at (suc n) (b ∷ bs) = do (front, rest) ← split_at n bs; some (b ∷ front, rest)

unfoldable pub read_sample : List ℕ → Option (Sample × List ℕ)
read_sample bs = do
  (name_len, bs1) ← split_at 2 bs
  (name, bs2) ← split_at (from_be_bytes name_len) bs1
  (stamp, bs3) ← split_at 8 bs2
  (data_len, bs4) ← split_at 2 bs3
  (body, bs5) ← split_at (from_be_bytes data_len) bs4
  some (record { name = name; stamp = from_be_bytes stamp; body = body }, bs5)

-- Samples until the bytes are used up, at most `fuel` of them.
unfoldable pub read_samples : ℕ → List ℕ → Option (List Sample)
read_samples fuel [] = some []
read_samples zero (b ∷ bs) = none
read_samples (suc fuel) (b ∷ bs) = do
  (s, rest) ← read_sample (b ∷ bs)
  more ← read_samples fuel rest
  some (s ∷ more)

-- The lengths fit their two-byte fields.
abbrev pub Fits : BufferElement → Type 0
Fits e = (length e.tracepoint < 2 ^ 16) × (length e.payload < 2 ^ 16)

unfoldable pub sample : BufferElement → Sample
sample e = record { name = e.tracepoint; stamp = nanoseconds e.timestamp; body = e.payload }

unfoldable pub encoded_all : List BufferElement → List ℕ
encoded_all [] = []
encoded_all (e ∷ es) = encoded e ++ encoded_all es

pub split_at-append :
    (xs ys : List ℕ) (n : ℕ) → n ≡ length xs → split_at n (xs ++ ys) ≡ some (xs, ys)
unfolding split_at
split_at-append [] ys zero h = refl
split_at-append [] ys (suc n) h = absurd (omega arith)
split_at-append (x ∷ xs) ys zero h = absurd (omega arith)
split_at-append (x ∷ xs) ys (suc n) h = rw (split_at-append xs ys n (omega arith))

pub split_at-be :
    (k n : ℕ) (ys : List ℕ) → split_at k (to_be_bytes k n ++ ys) ≡ some (to_be_bytes k n, ys)
split_at-be k n ys = split_at-append (to_be_bytes k n) ys k (sym (length-to_be_bytes k n))

pub length_field : (n : ℕ) → n < 2 ^ 16 → from_be_bytes (to_be_bytes 2 (n % 2 ^ 16)) ≡ n
length_field n h = from_be_bytes-to_be_bytes 2 (n % 2 ^ 16) (omega arith) ∙ omega arith

pub read_sample-encoded :
    (e : BufferElement) (rest : List ℕ)
    → Fits e
    → read_sample (encoded e ++ rest) ≡ some (sample e, rest)
unfolding read_sample encoded sample
read_sample-encoded e rest (fits_name, fits_body) = simp (
  append_assoc,
  split_at-be,
  length_field (length e.tracepoint) fits_name,
  split_at-append e.tracepoint _ (length e.tracepoint) refl,
  length_field (length e.payload) fits_body,
  split_at-append e.payload rest (length e.payload) refl,
  from_be_bytes-to_be_bytes 8 (nanoseconds e.timestamp) (nanoseconds-lt e.timestamp),
)

read_samples_step :
    (e : BufferElement) (rest : List ℕ) (fuel : ℕ)
    → read_samples (suc fuel) (encoded e ++ rest)
      ≡ (do (s, bs) ← read_sample (encoded e ++ rest); more ← read_samples fuel bs; some (s ∷ more))
unfolding read_samples encoded to_be_bytes
read_samples_step e rest fuel = refl

-- The samples of a payload are its elements, in order, with their clocks as nanoseconds.
pub read_samples-encoded_all :
    (es : List BufferElement) (fuel : ℕ)
    → All Fits es
    → length es ≤ fuel
    → read_samples fuel (encoded_all es) ≡ some (map sample es)
unfolding encoded_all
read_samples-encoded_all [] fuel h k = unfold read_samples in refl
read_samples-encoded_all (e ∷ es) zero h k = absurd (omega arith)
read_samples-encoded_all (e ∷ es) (suc fuel) h k = rw (
  read_samples_step e (encoded_all es) fuel,
  read_sample-encoded e (encoded_all es) h.0,
  read_samples-encoded_all es fuel h.1 (omega arith),
)

pub encoded_all-append :
    (xs ys : List BufferElement) → encoded_all (xs ++ ys) ≡ encoded_all xs ++ encoded_all ys
unfolding encoded_all
encoded_all-append [] ys = refl
encoded_all-append (x ∷ xs) ys =
    ap (◌++◌ (encoded x)) (encoded_all-append xs ys)
    ∙ sym (append_assoc (encoded x) (encoded_all xs) (encoded_all ys))
