-- ===== src/Tests/WireRuns.antt =====
-- Names, numbers and headers at concrete values.
use libtracy.Common.{
  ◌↔◌, ℕ, ◌%◌, ◌^◌, ◌≡◌, ◌⊎◌, refl, true, false, List, [], ◌∷◌, ◌++◌, none, some, length, take,
  arith,
}
use libtracy.Text.Ascii.{fix_tracepoint_str, is_ascii, lower, to_lowercase, max_tracepoint_name_len}
use libtracy.Text.Names.{IsName, fix_tracepoint_str_cases, fix_tracepoint_str-fixed_iff}
use libtracy.Text.Decimal.{decimal, value_from, value-decimal}
use libtracy.Wire.VecDeque.{to_list, empty, push_back_all}
use libtracy.Wire.Element.{
  BufferElement, since_epoch, encoded, encode_append_trace_data, to_list-encode_append,
}
use libtracy.Wire.Header.{
  tracepoint_list_request, trace_push, cmd_number_to_enum, check_parse_header, push_front_header,
}
use libtracy.Wire.HeaderLaws.{
  header_bytes, IsOurs, check_parse-header_bytes, check_parse_header_cases,
  to_list-push_front_header,
}

abbrev mixed : List ℕ
mixed = b'N' ∷ b'e' ∷ b'T' ∷ []

fixed_lower : fix_tracepoint_str mixed ≡ some (b'n' ∷ b'e' ∷ b't' ∷ [])
unfolding fix_tracepoint_str is_ascii lower to_lowercase
fixed_lower = refl

fix_tracepoint_str_cases_example :
    ((is_ascii mixed ≡ false) × (fix_tracepoint_str mixed ≡ none))
    ⊎ ((name : List ℕ) × (is_ascii mixed ≡ true)
        × (fix_tracepoint_str mixed ≡ some name)
        × (name ≡ to_lowercase (take max_tracepoint_name_len mixed))
        × IsName name)
fix_tracepoint_str_cases_example = fix_tracepoint_str_cases mixed

fix_tracepoint_str-fixed_iff_example : (fix_tracepoint_str mixed ≡ some mixed) ↔ IsName mixed
fix_tracepoint_str-fixed_iff_example = fix_tracepoint_str-fixed_iff mixed

value-decimal_example : value_from 0 (decimal 61455) ≡ 61455
value-decimal_example = value-decimal 61455 (omega arith)

check_parse-header_bytes_example :
    check_parse_header (header_bytes tracepoint_list_request 7) ≡ some (tracepoint_list_request, 7)
check_parse-header_bytes_example = check_parse-header_bytes tracepoint_list_request 7 (omega arith)

check_parse_header_cases_example :
    (IsOurs 0x52 0x75 0x53 0x74 0 0
      × (check_parse_header (0x52 ∷ 0x75 ∷ 0x53 ∷ 0x74 ∷ 0 ∷ 0 ∷ 0 ∷ 5 ∷ 0 ∷ 0 ∷ 1 ∷ 2 ∷ [])
          ≡ some (cmd_number_to_enum 5, 258)))
    ⊎ ((¬ IsOurs 0x52 0x75 0x53 0x74 0 0)
        × (check_parse_header (0x52 ∷ 0x75 ∷ 0x53 ∷ 0x74 ∷ 0 ∷ 0 ∷ 0 ∷ 5 ∷ 0 ∷ 0 ∷ 1 ∷ 2 ∷ [])
            ≡ none))
check_parse_header_cases_example = check_parse_header_cases 0x52 0x75 0x53 0x74 0 0 0 5 0 0 1 2

abbrev small : BufferElement
small = record { tracepoint = b'a' ∷ []; timestamp = since_epoch 1 5; payload = 7 ∷ 8 ∷ [] }

to_list-push_front_header_example :
    to_list (push_front_header (push_back_all empty (1 ∷ 2 ∷ [])) trace_push)
    ≡ header_bytes trace_push (length (to_list (push_back_all empty (1 ∷ 2 ∷ []))) % 2 ^ 32)
      ++ to_list (push_back_all empty (1 ∷ 2 ∷ []))
to_list-push_front_header_example =
    to_list-push_front_header (push_back_all empty (1 ∷ 2 ∷ [])) trace_push

to_list-encode_append_example :
    to_list (encode_append_trace_data empty small) ≡ to_list empty ++ encoded small
to_list-encode_append_example = to_list-encode_append empty small
