-- ===== src/Wire/HeaderLaws.antt =====
-- src/tcp_handler.rs: what `push_front_header` writes and `check_parse_header` reads.
use mathlib.Core.List.{reverse-reverse}
use libtracy.Common.{
  ℕ, ◌+◌, ◌*◌, ◌%◌, ◌^◌, ◌<◌, ◌≡◌, ◌⊎◌, refl, ◌∙◌, List, [], ◌∷◌, ◌++◌, Option, none, some, arith,
  length, length-append, append_assoc,
}
use libtracy.Common.Bytes.{to_be_bytes, from_be_bytes, length-to_be_bytes}
use libtracy.Wire.VecDeque.{VecDeque, to_list, to_list-push_front_all, length-to_list}
use libtracy.Wire.Header.{
  Command, tracepoint_list_request, command_number, cmd_number_to_enum, push_front_header,
  check_parse_header, magic_numb,
}

-- The twelve bytes of doc/tlv_documentation.txt, with this code's magic number.
unfoldable pub header_bytes : Command → ℕ → List ℕ
header_bytes cmd size =
    magic_numb ++ (to_be_bytes 2 0 ++ (to_be_bytes 2 (command_number cmd) ++ to_be_bytes 4 size))

-- The header that is pushed, byte by byte and backwards, stands in front of what was in the ring
-- buffer, with the length of that, modulo 2^32, in its last field.
pub to_list-push_front_header :
    (que : VecDeque) (cmd : Command)
    → to_list (push_front_header que cmd)
      ≡ header_bytes cmd (length (to_list que) % 2 ^ 32) ++ to_list que
unfolding push_front_header header_bytes
to_list-push_front_header que cmd =
    simp (to_list-push_front_all, reverse-reverse, append_assoc, length-to_list)

pub length-header_bytes : (cmd : Command) (size : ℕ) → length (header_bytes cmd size) ≡ 12
unfolding header_bytes
length-header_bytes cmd size = simp (length-append, length-to_be_bytes)

pub cmd_number_to_enum-command_number :
    (cmd : Command) → cmd_number_to_enum (command_number cmd) ≡ cmd
unfolding cmd_number_to_enum
cmd_number_to_enum-command_number tracepoint_list_request = refl
cmd_number_to_enum-command_number _ = refl

command_number-lt : (cmd : Command) → command_number cmd < 256
unfolding command_number
command_number-lt tracepoint_list_request = omega arith
command_number-lt _ = omega arith

abbrev Parsed : Type 0
Parsed = Option (Command × ℕ)

parsed_fields :
    (c size c' size' : ℕ)
    → c' ≡ c
    → size' ≡ size
    → ◌≡◌ {A = Parsed} (some (cmd_number_to_enum c', size')) (some (cmd_number_to_enum c, size))
parsed_fields c size c' size' p q = rw (p, q)

-- A header that this side writes, of any command and of a length below 2^32, is read back as that
-- command and length.
pub check_parse-header_bytes :
    (cmd : Command) (size : ℕ)
    → size < 2 ^ 32
    → check_parse_header (header_bytes cmd size) ≡ some (cmd, size)
unfolding check_parse_header header_bytes from_be_bytes to_be_bytes
check_parse-header_bytes cmd size h =
    parsed_fields (command_number cmd) size _ _ (omega (arith, command_number-lt cmd)) (omega arith)
    ∙ rw (cmd_number_to_enum-command_number cmd)

-- The magic number and zero flags.
abbrev pub IsOurs : ℕ → ℕ → ℕ → ℕ → ℕ → ℕ → Type 0
IsOurs m0 m1 m2 m3 f0 f1 =
    (m0 ≡ 0x52) × (m1 ≡ 0x75) × (m2 ≡ 0x53) × (m3 ≡ 0x74) × (f0 ≡ 0) × (f1 ≡ 0)

-- Any twelve bytes are accepted, as the command and length that stand in them, if they begin with
-- the magic number and the flags are zero, and are refused otherwise. So the command, and whether
-- its length suits it, do not matter.
pub check_parse_header_cases :
    (m0 m1 m2 m3 f0 f1 c0 c1 n0 n1 n2 n3 : ℕ)
    → let header : List ℕ = m0 ∷ m1 ∷ m2 ∷ m3 ∷ f0 ∷ f1 ∷ c0 ∷ c1 ∷ n0 ∷ n1 ∷ n2 ∷ n3 ∷ [] in
      let read : Command × ℕ =
        (cmd_number_to_enum (c0 * 256 + c1), ((n0 * 256 + n1) * 256 + n2) * 256 + n3) in
      (IsOurs m0 m1 m2 m3 f0 f1 × (check_parse_header header ≡ some read))
      ⊎ ((¬ IsOurs m0 m1 m2 m3 f0 f1) × (check_parse_header header ≡ none))
unfolding check_parse_header from_be_bytes
check_parse_header_cases m0 m1 m2 m3 f0 f1 c0 c1 n0 n1 n2 n3 = ground arith
