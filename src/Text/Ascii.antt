-- ===== src/Text/Ascii.antt =====
-- `fix_tracepoint_str` of src/lib.rs and the functions of `String` that it calls.
use libtracy.Common.{
  ℕ, ◌+◌, Bool, ◌&&◌, List, map, leb, ltb, Option, none, some, if◌then◌else◌, length, take, all,
}

abbrev pub max_tracepoint_name_len : ℕ
max_tracepoint_name_len = 32

unfoldable pub is_ascii : List ℕ → Bool
unfolding all
is_ascii = all (λ b. ltb b 0x80)

unfoldable pub lower : ℕ → ℕ
lower b = if leb b'A' b && leb b b'Z' then b + 32 else b

-- `to_lowercase` of an ASCII string.
unfoldable pub to_lowercase : List ℕ → List ℕ
unfolding lower
to_lowercase = map lower

-- `none` is `Err(())`. An ASCII string can be cut anywhere.
unfoldable pub fix_tracepoint_str : List ℕ → Option (List ℕ)
unfolding is_ascii to_lowercase
fix_tracepoint_str tracepoint =
    if is_ascii tracepoint
    then (if ltb max_tracepoint_name_len (length tracepoint)
        then some (to_lowercase (take max_tracepoint_name_len tracepoint))
        else some (to_lowercase tracepoint))
    else none
