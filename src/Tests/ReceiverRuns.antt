-- ===== src/Tests/ReceiverRuns.antt =====
-- The receiver at concrete streams.
use libtracy.Common.{
  false, ℕ, ◌≡◌, ◌⊎◌, inl, refl, true, List, [], ◌∷◌, ◌++◌, none, some, length, arith, done, panic,
  Ensures,
}
use libtracy.Common.Bytes.{to_be_bytes}
use libtracy.Text.Utf8.{from_utf8_or_default, is_utf8_from}
use libtracy.Common.{bytes_eq}
use libtracy.Tracer.HashMap.{get}
use libtracy.Tracer.Flags.{load}
use libtracy.Wire.Header.{
  tracepoint_enable_request, check_parse_header, copy_field, check_magic_number,
}
use libtracy.Wire.HeaderLaws.{header_bytes}
use libtracy.Tracer.Context.{TracerContext, close_and_clean_connection}
use libtracy.Tracer.Context.Close.{IsOffline, Retimed, close_cases}
use libtracy.Tracer.Receiver.{set_tracepoints, receive}
use libtracy.Tracer.Receiver.Requests.{request_body, set_all, set_tracepoints-request_body}
use libtracy.Tracer.Receiver.Faults.{receive_panics, receive_drops_piece, receive_hangup}
use libtracy.Tracer.Invariant.{IsAfter}
use libtracy.Tracer.Receiver.Service.{setting, receive_request, set_all-switched}
use libtracy.Tracer.Invariant.Reading.{receive-IsAfter}
use libtracy.Tests.Loopback.{loopback, silent}
use libtracy.Tests.SenderRuns.{busy_context, busy_Inv}

set_tracepoints-request_body_example :
    set_tracepoints 4
      (busy_context, request_body ((b'a' ∷ []) ∷ (b'x' ∷ []) ∷ []) ++ 1 ∷ [])
      tt
      0
      (length (request_body ((b'a' ∷ []) ∷ (b'x' ∷ []) ∷ [])))
      true
    ≡ done (set_all busy_context ((b'a' ∷ []) ∷ (b'x' ∷ []) ∷ []) true, 1 ∷ [])
unfolding request_body to_be_bytes
set_tracepoints-request_body_example =
    set_tracepoints-request_body {p = loopback} tt ((b'a' ∷ []) ∷ (b'x' ∷ []) ∷ []) 4 true (1 ∷ [])
      busy_context (omega arith) (omega arith) (omega arith)

close_cases_example :
    ((busy_context.connection ≡ none) × (close_and_clean_connection busy_context ≡ panic))
    ⊎ ((stream : Unit {0}) × (ctx' : TracerContext loopback) × (busy_context.connection
          ≡ some stream)
        × (close_and_clean_connection busy_context ≡ done ctx')
        × IsOffline ctx'
        × (ctx'.buffer ≡ busy_context.buffer)
        × (ctx'.buffer_occupancy ≡ busy_context.buffer_occupancy)
        × (ctx'.tracepoints ≡ busy_context.tracepoints)
        × Retimed busy_context ctx'
        × (ctx'.net ≡ silent))
close_cases_example = close_cases busy_context

receive-IsAfter_example : Ensures (IsAfter busy_context) (receive 5 busy_context)
receive-IsAfter_example = receive-IsAfter 5 busy_context busy_Inv

abbrev junk : List ℕ
junk = 0 ∷ 0 ∷ 0 ∷ 0 ∷ 0 ∷ 0 ∷ 0 ∷ 0 ∷ 0 ∷ 0 ∷ 0 ∷ 0 ∷ []

abbrev request : List ℕ
request = header_bytes tracepoint_enable_request 1 ++ (0 ∷ 33 ∷ (junk ++ []))

abbrev asked : TracerContext loopback
asked = record busy_context { net = record silent { inbox = request ∷ [] } }

junk_refused : check_parse_header junk ≡ none
unfolding check_parse_header copy_field check_magic_number
junk_refused = refl

receive_panics_example : receive 3 asked ≡ panic
receive_panics_example =
    receive_panics 0 asked tt tt asked.net silent tracepoint_enable_request 1 0 33 junk [] refl refl
      refl (inl refl) (omega arith) (omega arith) (omega arith) refl junk_refused

abbrev halved : TracerContext loopback
halved = record busy_context { net = record silent { inbox = (0x52 ∷ 0x75 ∷ []) ∷ [] } }

receive_drops_piece_example : receive 3 halved ≡ done (record halved { net = silent })
receive_drops_piece_example =
    receive_drops_piece 0 halved tt tt halved.net silent silent (0x52 ∷ 0x75 ∷ []) refl refl refl
      refl (omega arith) (omega arith)

abbrev left : TracerContext loopback
left = record busy_context { net = record silent { closed = true } }

receive_hangup_example :
    (ctx' : TracerContext loopback) × (receive 2 left ≡ done ctx')
    × IsOffline ctx'
    × (ctx'.buffer ≡ left.buffer)
receive_hangup_example = receive_hangup 0 left tt tt left.net left.net refl refl refl

abbrev wanted : List (List ℕ)
wanted = (b'a' ∷ []) ∷ (b'x' ∷ []) ∷ []

abbrev served : TracerContext loopback
served = record busy_context {
  net = record silent {
    inbox =
        (header_bytes (setting true) (length (request_body wanted)) ++ request_body wanted) ∷ [];
  };
}

receive_request_example :
    receive 5 served
    ≡ done (record (set_all (record served { net = silent }) wanted true) { net = silent })
unfolding request_body to_be_bytes
receive_request_example =
    receive_request 2 served tt tt served.net silent silent true wanted refl refl refl refl
      (omega arith) (omega arith) (omega arith)

known_second : get (from_utf8_or_default (b'b' ∷ b'c' ∷ [])) busy_context.tracepoints ≡ some 2
unfolding get from_utf8_or_default is_utf8_from bytes_eq
known_second = refl

set_all-switched_example :
    load (set_all busy_context ((b'x' ∷ []) ∷ (b'b' ∷ b'c' ∷ []) ∷ []) false).flags 2 ≡ false
set_all-switched_example =
    set_all-switched ((b'x' ∷ []) ∷ []) [] (b'b' ∷ b'c' ∷ []) busy_context false 2 known_second
      (omega arith)
