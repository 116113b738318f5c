-- ===== src/Tracer/Sender/Groups.antt =====
-- What `send_trace_data` of src/tcp_handler.rs sends, as a specification: the buffer cut greedily
-- into groups, and one message for each group.
use libtracy.Common.{
  ◌+◌, ◌<◌, ◌≡◌, refl, sym, ap, ◌∙◌, true, false, List, [], ◌∷◌, ◌++◌, arith, append_assoc,
  append-nil, length, length-append, ltb, lt→ltb, ltb→lt, All, Bool-cases, inl, inr,
}
use libtracy.Wire.VecDeque.{VecDeque, len, to_list, empty, length-to_list, to_list-empty}
use libtracy.Wire.Element.{
  BufferElement, element_len, encoded, length-encoded, encode_append_trace_data,
  to_list-encode_append,
}
use libtracy.Wire.Header.{header_len, trace_push}
use libtracy.Wire.Samples.{encoded_all, encoded_all-append}
use libtracy.Wire.Frames.{Frame}
use libtracy.Tracer.Context.{queue_total_size}

-- An element that fits a message of its own.
abbrev pub Sendable : BufferElement → Type 0
Sendable e = element_len e + header_len < queue_total_size

unfoldable pub flatten : List (List BufferElement) → List BufferElement
flatten [] = []
flatten (g ∷ gs) = g ++ flatten gs

-- `cur` is the group that is being filled.
unfoldable pub groups_from : List BufferElement → List BufferElement → List (List BufferElement)
groups_from cur [] = cur ∷ []
groups_from cur (e ∷ es) =
    elim (ltb (element_len e + length (encoded_all cur) + header_len) queue_total_size) [
      | true ↦ groups_from (cur ++ e ∷ []) es
      | false ↦ cur ∷ groups_from (e ∷ []) es
    ]

unfoldable pub groups : List BufferElement → List (List BufferElement)
unfolding groups_from
groups [] = []
groups (e ∷ es) = groups_from (e ∷ []) es

-- The message of a group.
unfoldable pub push_frame : List BufferElement → Frame
push_frame g = record { command = trace_push; body = encoded_all g }

pub flatten-groups_from : (cur es : List BufferElement) → flatten (groups_from cur es) ≡ cur ++ es
unfolding flatten groups_from
flatten-groups_from cur [] = refl
flatten-groups_from cur (e ∷ es) =
    elim (ltb (element_len e + length (encoded_all cur) + header_len) queue_total_size)
      as (λ b.
        flatten
          (elim b [ true ↦ groups_from (cur ++ e ∷ []) es | false ↦ cur ∷ groups_from (e ∷ []) es ])
        ≡ cur ++ e ∷ es) [
          | true ↦ flatten-groups_from (cur ++ e ∷ []) es ∙ append_assoc cur (e ∷ []) es
          | false ↦ ap (◌++◌ cur) (flatten-groups_from (e ∷ []) es)
        ]

-- The groups hold the elements, each once, in their order.
pub flatten-groups : (es : List BufferElement) → flatten (groups es) ≡ es
unfolding groups
flatten-groups [] = unfold flatten in refl
flatten-groups (e ∷ es) = flatten-groups_from (e ∷ []) es

-- The length fields of the last element of a group are not counted by the test, so a message can
-- exceed the total size by three bytes.
abbrev pub FitsMessage : List BufferElement → Type 0
FitsMessage g = length (encoded_all g) + header_len < queue_total_size + 4

length-encoded_all-one : (e : BufferElement) → length (encoded_all (e ∷ [])) ≡ element_len e + 4
unfolding encoded_all
length-encoded_all-one e = rw (append-nil (encoded e)) (length-encoded e)

length-encoded_all-snoc :
    (cur : List BufferElement) (e : BufferElement)
    → length (encoded_all (cur ++ e ∷ [])) ≡ length (encoded_all cur) + element_len e + 4
length-encoded_all-snoc cur e = rw (encoded_all-append cur (e ∷ [])) (
    omega (arith, length-append (encoded_all cur) (encoded_all (e ∷ [])), length-encoded_all-one e))

groups_from-FitsMessage :
    (cur es : List BufferElement)
    → FitsMessage cur
    → All Sendable es
    → All FitsMessage (groups_from cur es)
unfolding groups_from
groups_from-FitsMessage cur [] h hs = (h, tt)
groups_from-FitsMessage cur (e ∷ es) h hs =
    elim (Bool-cases
      (ltb (element_len e + length (encoded_all cur) + header_len) queue_total_size)) [
        | inl room ↦
            rw (room, groups_from)
              (groups_from-FitsMessage (cur ++ e ∷ []) es
                (omega (arith, ltb→lt _ _ room, length-encoded_all-snoc cur e)) hs.1)
        | inr full ↦
            rw (full, groups_from)
              (
                h,
                groups_from-FitsMessage (e ∷ []) es (omega (arith, length-encoded_all-one e, hs.0))
                    hs.1,
              )
      ]

-- Where every element fits a message of its own, each group that they are cut into is, as a message
-- with its header, below the total size and four bytes.
pub groups-FitsMessage : (es : List BufferElement) → All Sendable es → All FitsMessage (groups es)
unfolding groups
groups-FitsMessage [] hs = tt
groups-FitsMessage (e ∷ es) hs =
    groups_from-FitsMessage (e ∷ []) es (omega (arith, length-encoded_all-one e, hs.0)) hs.1

-- How the queue of the loop follows the group.
pub room-len :
    (que : VecDeque) (cur : List BufferElement) (e : BufferElement)
    → to_list que ≡ encoded_all cur
    → ltb (element_len e + len que + header_len) queue_total_size
      ≡ ltb (element_len e + length (encoded_all cur) + header_len) queue_total_size
room-len que cur e h =
    ap (λ n. ltb (element_len e + n + header_len) queue_total_size)
      (sym (length-to_list que) ∙ ap length h)

encoded_all-one : (e : BufferElement) → encoded_all (e ∷ []) ≡ encoded e
unfolding encoded_all
encoded_all-one e = append-nil (encoded e)

pub encode-group :
    (que : VecDeque) (cur : List BufferElement) (e : BufferElement)
    → to_list que ≡ encoded_all cur
    → to_list (encode_append_trace_data que e) ≡ encoded_all (cur ++ e ∷ [])
encode-group que cur e h =
    to_list-encode_append que e ∙ rw (h, encoded_all-append cur (e ∷ []), encoded_all-one e)

pub nothing : to_list empty ≡ encoded_all []
unfolding encoded_all
nothing = to_list-empty

pub alone :
    (e : BufferElement)
    → Sendable e
    → ltb (element_len e + len empty + header_len) queue_total_size ≡ true
unfolding len empty
alone e h = lt→ltb _ _ (omega arith)

pub groups_from-nil : (cur : List BufferElement) → groups_from cur [] ≡ cur ∷ []
unfolding groups_from
groups_from-nil cur = refl

pub groups_from-room :
    (cur : List BufferElement) (e : BufferElement) (es : List BufferElement)
    → ltb (element_len e + length (encoded_all cur) + header_len) queue_total_size ≡ true
    → groups_from cur (e ∷ es) ≡ groups_from (cur ++ e ∷ []) es
unfolding groups_from
groups_from-room cur e es h = rw (h, groups_from)

pub groups_from-full :
    (cur : List BufferElement) (e : BufferElement) (es : List BufferElement)
    → ltb (element_len e + length (encoded_all cur) + header_len) queue_total_size ≡ false
    → groups_from cur (e ∷ es) ≡ cur ∷ groups_from (e ∷ []) es
unfolding groups_from
groups_from-full cur e es h = rw (h, groups_from)
