-- ===== src/Wire/Element.antt =====
-- `BufferElement` of src/lib.rs and its encoding, `encode_append_trace_data` and
-- `timestamp_to_u64` of src/tcp_handler.rs.
use libtracy.Common.{
  ℕ, ◌+◌, ◌*◌, ◌%◌, ◌^◌, ◌<◌, ◌≡◌, refl, List, ◌++◌, append_assoc, arith, length, length-append,
}
use libtracy.Common.Bytes.{to_be_bytes, length-to_be_bytes}
use libtracy.Wire.VecDeque.{VecDeque, push_back_all, to_list, to_list-push_back_all}

abbrev pub timestamp_len : ℕ
timestamp_len = 8

-- A reading of the system clock: what `duration_since(UNIX_EPOCH)` finds.
pub data SystemTime : Type 0 where
  since_epoch : ℕ → ℕ → SystemTime
  before_epoch : SystemTime

pub record BufferElement : Type 0 where
  pub tracepoint : List ℕ
  pub timestamp : SystemTime
  pub payload : List ℕ

unfoldable pub element_len : BufferElement → ℕ
element_len e = length e.tracepoint + timestamp_len + length e.payload

-- The product and the sum wrap at 64 bits, as in a release build.
unfoldable pub timestamp_to_u64 : SystemTime → ℕ
timestamp_to_u64 (since_epoch secs nanos) = (secs * 1_000_000_000 % 2 ^ 64 + nanos) % 2 ^ 64
timestamp_to_u64 before_epoch = 0

unfoldable pub encode_append_trace_data : VecDeque → BufferElement → VecDeque
encode_append_trace_data que e =
    let tp_len = length e.tracepoint % 2 ^ 16 in
    let que1 = push_back_all que (to_be_bytes 2 tp_len) in
    let que2 = push_back_all que1 e.tracepoint in
    let que3 = push_back_all que2 (to_be_bytes 8 (timestamp_to_u64 e.timestamp)) in
    let data_len = length e.payload % 2 ^ 16 in
    let que4 = push_back_all que3 (to_be_bytes 2 data_len) in push_back_all que4 e.payload

-- The nanoseconds since the epoch, in 64 bits, and 0 for a clock that is set before it.
unfoldable pub nanoseconds : SystemTime → ℕ
nanoseconds (since_epoch secs nanos) = (secs * 1_000_000_000 + nanos) % 2 ^ 64
nanoseconds before_epoch = 0

-- Wrapping the product first makes no difference.
pub timestamp_to_u64-nanoseconds : (t : SystemTime) → timestamp_to_u64 t ≡ nanoseconds t
unfolding timestamp_to_u64 nanoseconds
timestamp_to_u64-nanoseconds (since_epoch s n) = omega arith
timestamp_to_u64-nanoseconds before_epoch = refl

-- The bytes of one element, as doc/tlv_documentation.txt lays them out.
unfoldable pub encoded : BufferElement → List ℕ
encoded e =
    to_be_bytes 2 (length e.tracepoint % 2 ^ 16)
    ++ (e.tracepoint
        ++ (to_be_bytes 8 (nanoseconds e.timestamp)
            ++ (to_be_bytes 2 (length e.payload % 2 ^ 16) ++ e.payload)))

-- An element is appended as the documented bytes, behind what is in the ring buffer.
pub to_list-encode_append :
    (que : VecDeque) (e : BufferElement)
    → to_list (encode_append_trace_data que e) ≡ to_list que ++ encoded e
unfolding encode_append_trace_data encoded
to_list-encode_append que e =
    simp (to_list-push_back_all, append_assoc, timestamp_to_u64-nanoseconds)

-- The two length fields are not in `len`: an element takes four bytes more than that.
pub length-encoded : (e : BufferElement) → length (encoded e) ≡ element_len e + 4
unfolding encoded element_len
length-encoded e = simp (length-append, length-to_be_bytes) (omega arith)

pub nanoseconds-lt : (t : SystemTime) → nanoseconds t < 2 ^ 64
unfolding nanoseconds
nanoseconds-lt (since_epoch s n) = omega arith
nanoseconds-lt before_epoch = omega arith
