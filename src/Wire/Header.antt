-- ===== src/Wire/Header.antt =====
-- src/tcp_handler.rs: `Command`, `push_front_header`, `check_parse_header` and what they call.
use mathlib.Core.List.{reverse}
use libtracy.Common.{
  ℕ, zero, suc, ◌+◌, ◌%◌, ◌^◌, Bool, false, ◌&&◌, List, [], ◌∷◌, Option, none, some, ◌==◌,
  if◌then◌else◌, not, get_or,
}
use libtracy.Common.Bytes.{to_be_bytes, from_be_bytes}
use libtracy.Wire.VecDeque.{VecDeque, len, push_front_all}

abbrev pub header_len : ℕ
header_len = 12

-- 'RuSt'
abbrev pub magic_numb : List ℕ
magic_numb = 0x52 ∷ 0x75 ∷ 0x53 ∷ 0x74 ∷ []

pub data Command : Type 0 where
  tracepoint_list_request tracepoint_list_reply : Command
  tracepoint_enable_request tracepoint_disable_request : Command
  trace_push invalid : Command

-- `cmd as u16`
unfoldable pub command_number : Command → ℕ
command_number tracepoint_list_request = 1
command_number tracepoint_list_reply = 2
command_number tracepoint_enable_request = 3
command_number tracepoint_disable_request = 4
command_number trace_push = 5
command_number invalid = 42

unfoldable pub cmd_number_to_enum : ℕ → Command
unfolding command_number
cmd_number_to_enum cmd =
    if cmd == command_number tracepoint_list_request
    then tracepoint_list_request
    else if cmd == command_number tracepoint_enable_request
    then tracepoint_enable_request
    else if cmd == command_number tracepoint_disable_request
    then tracepoint_disable_request
    else if cmd == command_number tracepoint_list_reply
    then tracepoint_list_reply
    else if cmd == command_number trace_push
    then trace_push
    else invalid

unfoldable pub push_front_header : VecDeque → Command → VecDeque
push_front_header que cmd =
    let flags : ℕ = 0 in
    let size = len que % 2 ^ 32 in
    let que1 = push_front_all que (reverse (to_be_bytes 4 size)) in
    let que2 = push_front_all que1 (reverse (to_be_bytes 2 (command_number cmd))) in
    let que3 = push_front_all que2 (reverse (to_be_bytes 2 flags)) in
    push_front_all que3 (reverse magic_numb)

-- `true` is `Ok(())`: the command may come from a client, and the length suits it.
unfoldable pub check_cmd_validity : Command → ℕ → Bool
check_cmd_validity tracepoint_list_request size = size == 0
check_cmd_validity tracepoint_enable_request size = not (size == 0)
check_cmd_validity tracepoint_disable_request size = not (size == 0)
check_cmd_validity _ size = false

unfoldable pub check_flags : ℕ → Bool
check_flags flags = flags == 0

unfoldable pub check_magic_number : List ℕ → Bool
check_magic_number number =
    get_or number 0 0 == 0x52
    && (get_or number 1 0 == 0x75 && (get_or number 2 0 == 0x53 && get_or number 3 0 == 0x74))

-- `for i in lo..lo+n { field[i-lo] = header[i] }`
unfoldable pub copy_field : ℕ → ℕ → List ℕ → List ℕ
copy_field zero lo header = []
copy_field (suc n) lo header = get_or header lo 0 ∷ copy_field n (lo + 1) header

-- What `check_parse_header` returns once the magic number is right. The verdict of
-- `check_cmd_validity` is printed and goes no further.
unfoldable pub parse_fields : List ℕ → Option (Command × ℕ)
unfolding copy_field check_flags
parse_fields header =
    let flags = from_be_bytes (copy_field 2 4 header) in
    let cmd = cmd_number_to_enum (from_be_bytes (copy_field 2 6 header)) in
    let size = from_be_bytes (copy_field 4 8 header) in
    if check_flags flags then some (cmd, size) else none

unfoldable pub check_parse_header : List ℕ → Option (Command × ℕ)
unfolding copy_field check_magic_number parse_fields
check_parse_header header =
    let magic_no = copy_field 4 0 header in
    if check_magic_number magic_no then parse_fields header else none
