-- ===== src/Tracer/Sender/Delivery.antt =====
-- What arrives of the buffer that `send_trace_data` of src/tcp_handler.rs sends: the bytes, taken
-- apart as doc/tlv_documentation.txt says, are its elements.
use mathlib.Core.List.{map-append}
use libtracy.Common.{
  ℕ, ◌%◌, ◌^◌, ◌≤◌, ◌≡◌, refl, sym, ap, ◌∙◌, true, List, [], ◌∷◌, ◌++◌, map, Option, none, some,
  arith, append_assoc, append-nil, length, length-append, All, done, All-append_left,
  All-append_right,
}
use libtracy.Wire.Element.{BufferElement, element_len, encoded, length-encoded}
use libtracy.Wire.Header.{Command, trace_push}
use libtracy.Wire.HeaderLaws.{header_bytes, length-header_bytes}
use libtracy.Wire.Samples.{
  Sample, sample, read_samples, encoded_all, read_samples-encoded_all, Fits, ◌>>=◌,
}
use libtracy.Wire.Frames.{
  Frame, Short, frame_bytes, stream_bytes, read_frames, read_frames-stream_bytes,
}
use libtracy.Platform.{Platform, ok}
use libtracy.Tracer.Context.{TracerContext}
use libtracy.Tracer.Sender.{write_result, or_close, send_trace_data}
use libtracy.Tracer.Sender.Groups.{
  Sendable, FitsMessage, flatten, groups, push_frame, flatten-groups, groups-FitsMessage,
}
use libtracy.Tracer.Sender.Refinement.{send_groups, send_trace_data-groups}

-- The samples of a message; only TRACE_PUSH holds any.
unfoldable pub pushed : Command → List ℕ → Option (List Sample)
pushed trace_push body = read_samples (length body) body
pushed _ body = none

unfoldable pub pushed_all : List Frame → Option (List Sample)
unfolding pushed
pushed_all [] = some []
pushed_all (f ∷ fs) = do xs ← pushed f.command f.body; ys ← pushed_all fs; some (xs ++ ys)

-- What a client makes of the bytes of TRACE_PUSH messages.
unfoldable pub read_pushes : List ℕ → Option (List Sample)
read_pushes bytes = do fs ← read_frames (length bytes) bytes; pushed_all fs

Sendable-Fits : (es : List BufferElement) → All Sendable es → All Fits es
unfolding element_len
Sendable-Fits [] h = tt
Sendable-Fits (e ∷ es) h = ((omega (arith, h.0), omega (arith, h.0)), Sendable-Fits es h.1)

length-le-encoded_all : (es : List BufferElement) → length es ≤ length (encoded_all es)
unfolding encoded_all
length-le-encoded_all [] = omega arith
length-le-encoded_all (e ∷ es) =
    omega (
      arith,
      length-le-encoded_all es,
      length-append (encoded e) (encoded_all es),
      length-encoded e,
    )

length-le-stream_bytes : (fs : List Frame) → length fs ≤ length (stream_bytes fs)
unfolding stream_bytes frame_bytes
length-le-stream_bytes [] = omega arith
length-le-stream_bytes (f ∷ fs) =
    let head : List ℕ = header_bytes f.command (length f.body % 2 ^ 32) in
    omega (
      arith,
      length-le-stream_bytes fs,
      length-append (head ++ f.body) (stream_bytes fs),
      length-append head f.body,
      length-header_bytes f.command (length f.body % 2 ^ 32),
    )

All-flatten : (gs : List (List BufferElement)) → All Sendable (flatten gs) → All (All Sendable) gs
unfolding flatten
All-flatten [] h = tt
All-flatten (g ∷ gs) h = (
  All-append_left Sendable g (flatten gs) h,
  All-flatten gs (All-append_right Sendable g (flatten gs) h),
)

pushed_all-groups :
    (gs : List (List BufferElement))
    → All (All Sendable) gs
    → pushed_all (map push_frame gs) ≡ some (map sample (flatten gs))
unfolding pushed_all push_frame flatten
pushed_all-groups [] h = refl
pushed_all-groups (g ∷ gs) h = rw (
  read_samples-encoded_all g (length (encoded_all g)) (Sendable-Fits g h.0)
      (length-le-encoded_all g),
  pushed_all-groups gs h.1,
  map-append sample g (flatten gs),
)

Short-groups : (gs : List (List BufferElement)) → All FitsMessage gs → All Short (map push_frame gs)
unfolding push_frame
Short-groups [] h = tt
Short-groups (g ∷ gs) h = (omega (arith, h.0), Short-groups gs h.1)

-- The messages of a buffer are read back as its elements, each once and in their order.
pub read_pushes-groups :
    (es : List BufferElement)
    → All Sendable es
    → read_pushes (stream_bytes (map push_frame (groups es))) ≡ some (map sample es)
unfolding read_pushes
read_pushes-groups es h =
    let fs : List Frame = map push_frame (groups es) in
    rw (
      read_frames-stream_bytes fs (length (stream_bytes fs))
          (Short-groups (groups es) (groups-FitsMessage es h)) (length-le-stream_bytes fs),
      pushed_all-groups (groups es) (All-flatten (groups es) (rw (flatten-groups es) h)),
      flatten-groups es,
    )

-- The platform after the messages of the groups.
unfoldable pub write_groups :
    (p : Platform) → p.TcpStream → List (List BufferElement) → p.Net → p.Net
write_groups p stream [] net = net
write_groups p stream (g ∷ gs) net =
    write_groups p stream gs (p.write_all stream (frame_bytes (push_frame g)) net).1

module _ (p : Platform) (stream : p.TcpStream) where
  -- Every write is taken for a success: it is one, or it would block.
  abbrev pub Accepts : Type 0
  Accepts = (bytes : List ℕ) (net : p.Net) → write_result (p.write_all stream bytes net).0 ≡ true

  send_groups-accepted :
      Accepts
      → (gs : List (List BufferElement)) (ctx : TracerContext p)
      → send_groups gs (record ctx { buffer = flatten gs; connection = some stream })
        ≡ done (record ctx {
          buffer = [];
          connection = some stream;
          net = write_groups p stream gs ctx.net;
        })
  unfolding send_groups write_groups flatten or_close
  send_groups-accepted accepts [] ctx = refl
  send_groups-accepted accepts (g ∷ gs) ctx =
      let frame : List ℕ = frame_bytes (push_frame g) in
      rw (accepts frame ctx.net) (
        send_groups-accepted accepts gs (record ctx { net = (p.write_all stream frame ctx.net).1 }))

  -- Where no write fails, the buffer is empty afterwards, the connection stays, and all else is as
  -- it was, also where the writes would have blocked and nothing was sent.
  pub send_trace_data-accepted :
      (ctx : TracerContext p)
      → Accepts
      → ctx.connection ≡ some stream
      → All Sendable ctx.buffer
      → send_trace_data ctx
        ≡ done (record ctx { buffer = []; net = write_groups p stream (groups ctx.buffer) ctx.net })
  send_trace_data-accepted ctx accepts h hs =
      let gs : List (List BufferElement) = groups ctx.buffer in
      let same : ctx ≡ record ctx { buffer = flatten gs; connection = some stream } =
        λ i. record ctx { buffer = sym (flatten-groups ctx.buffer) i; connection = h i } in
      send_trace_data-groups ctx hs
      ∙ ap (send_groups gs) same
      ∙ send_groups-accepted accepts gs ctx
      ∙ (λ i. done (record ctx {
        buffer = [];
        connection = sym h i;
        net = write_groups p stream gs ctx.net;
      }))

  written_groups :
      (written : p.Net → List ℕ)
      → ((bytes : List ℕ) (net : p.Net)
          → written (p.write_all stream bytes net).1 ≡ written net ++ bytes)
      → (gs : List (List BufferElement)) (net : p.Net)
      → written (write_groups p stream gs net) ≡ written net ++ stream_bytes (map push_frame gs)
  unfolding write_groups stream_bytes
  written_groups written logged [] net = sym (append-nil (written net))
  written_groups written logged (g ∷ gs) net =
      let frame : List ℕ = frame_bytes (push_frame g) in
      written_groups written logged gs (p.write_all stream frame net).1
      ∙ rw (logged frame net) (append_assoc (written net) frame (stream_bytes (map push_frame gs)))

  -- With a connection on which every write succeeds, and a buffer whose elements each fit a message
  -- of their own, `send_trace_data` ends, the bytes that it adds to the connection are TRACE_PUSH
  -- messages that read back as the elements of the buffer, each once and in their order, and the
  -- buffer is empty afterwards; nothing else changes but the platform.
  pub send_trace_data_delivers :
      (written : p.Net → List ℕ) (ctx : TracerContext p)
      → ((bytes : List ℕ) (net : p.Net) → (p.write_all stream bytes net).0 ≡ ok tt)
      → ((bytes : List ℕ) (net : p.Net)
          → written (p.write_all stream bytes net).1 ≡ written net ++ bytes)
      → ctx.connection ≡ some stream
      → All Sendable ctx.buffer
      → (bytes : List ℕ) × (net : p.Net) × (send_trace_data ctx
          ≡ done (record ctx { buffer = []; net = net }))
        × (written net ≡ written ctx.net ++ bytes)
        × (read_pushes bytes ≡ some (map sample ctx.buffer))
  unfolding write_result
  send_trace_data_delivers written ctx succeeds logged h hs = (
    stream_bytes (map push_frame (groups ctx.buffer)),
    write_groups p stream (groups ctx.buffer) ctx.net,
    send_trace_data-accepted ctx (λ bytes net. rw (succeeds bytes net)) h hs,
    written_groups written logged (groups ctx.buffer) ctx.net,
    read_pushes-groups ctx.buffer hs,
  )
