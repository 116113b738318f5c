-- ===== src/Tracer/Sender/ListReply.antt =====
-- src/tcp_handler.rs: what `send_tracepoint_list` writes, as the client reads it.
use libtracy.Common.{
  ℕ, suc, ◌%◌, ◌^◌, ◌<◌, ◌≡◌, refl, sym, ap, ◌∙◌, List, [], ◌∷◌, ◌++◌, append_assoc, append-nil,
  some, arith, length, All, done, ◌>>=◌,
}
use libtracy.Common.Bytes.{to_be_bytes}
use libtracy.Text.Names.{IsName}
use libtracy.Wire.VecDeque.{
  VecDeque, to_list, empty, push_back_all, to_list-push_back_all, to_list-empty,
}
use libtracy.Wire.Header.{tracepoint_list_reply, push_front_header}
use libtracy.Wire.HeaderLaws.{to_list-push_front_header}
use libtracy.Wire.Frames.{Frame, frame_bytes, read_frame, read_frame-frame_bytes}
use libtracy.Wire.NameList.{name_bytes, read_names, read_names-name_bytes, FitsField}
use libtracy.Platform.{Platform, ok}
use libtracy.Tracer.HashMap.{keys}
use libtracy.Tracer.Context.{TracerContext}
use libtracy.Tracer.Sender.Refinement.{send_bytes, send_slices-send_bytes}
use libtracy.Tracer.Sender.{push_names, or_close, write_result, send_tracepoint_list}

to_list-push_names :
    (msg : VecDeque) (ns : List (List ℕ))
    → to_list (push_names msg ns) ≡ to_list msg ++ name_bytes ns
unfolding push_names name_bytes
to_list-push_names msg [] = sym (append-nil (to_list msg))
to_list-push_names msg (n ∷ ns) =
    to_list-push_names (push_back_all (push_back_all msg (to_be_bytes 2 (length n % 2 ^ 16))) n) ns
    ∙ simp (to_list-push_back_all, append_assoc)

names-FitsField : (ns : List (List ℕ)) → All IsName ns → All FitsField ns
names-FitsField [] h = tt
names-FitsField (n ∷ ns) h = (omega (arith, h.0.short), names-FitsField ns h.1)

-- The reply that lists these names.
abbrev pub list_reply : List (List ℕ) → Frame
list_reply ns = record { command = tracepoint_list_reply; body = name_bytes ns }

length-keys : {V : Type 0} (m : List (List ℕ × V)) → length (keys m) ≡ length m
unfolding keys
length-keys [] = refl
length-keys ((k, v) ∷ m) = ap suc (length-keys m)

list_message :
    (ns : List (List ℕ))
    → to_list (push_front_header (push_names empty ns) tracepoint_list_reply)
      ≡ frame_bytes (list_reply ns)
unfolding frame_bytes
list_message ns =
    rw
      (
        to_list-push_front_header (push_names empty ns) tracepoint_list_reply,
        to_list-push_names empty ns,
        to_list-empty,
      )
      refl

module _ (p : Platform) (stream : p.TcpStream) where
  sent_frame :
      (ctx : TracerContext p) (bytes : List ℕ)
      → ctx.connection ≡ some stream
      → (p.write_all stream bytes ctx.net).0 ≡ ok tt
      → (send_bytes ctx bytes >>= or_close done)
        ≡ done (record ctx { net = (p.write_all stream bytes ctx.net).1 })
  unfolding send_bytes or_close write_result
  sent_frame ctx bytes h e = ground (arith, e)

  -- Where the write succeeds, the bytes that `send_tracepoint_list` adds to the connection are one
  -- TRACEPOINT_LIST_REPLY message, and nothing behind it, whose payload reads back as the names in the
  -- thread's map, if these are repaired names and their bytes can be counted in 32 bits; nothing but
  -- the platform changes.
  pub send_tracepoint_list_delivers :
      (written : p.Net → List ℕ) (ctx : TracerContext p)
      → ((bytes : List ℕ) (net : p.Net) → (p.write_all stream bytes net).0 ≡ ok tt)
      → ((bytes : List ℕ) (net : p.Net)
          → written (p.write_all stream bytes net).1 ≡ written net ++ bytes)
      → ctx.connection ≡ some stream
      → All IsName (keys ctx.tracepoints)
      → length (name_bytes (keys ctx.tracepoints)) < 2 ^ 32
      → (bytes body : List ℕ) × (net : p.Net) × (send_tracepoint_list ctx
          ≡ done (record ctx { net = net }))
        × (written net ≡ written ctx.net ++ bytes)
        × (read_frame bytes ≡ some (record { command = tracepoint_list_reply; body = body }, []))
        × (read_names (length ctx.tracepoints) body ≡ some (keys ctx.tracepoints))
  unfolding send_tracepoint_list
  send_tracepoint_list_delivers written ctx succeeds logged h hn hs =
      let ns : List (List ℕ) = keys ctx.tracepoints in
      let frame : Frame = list_reply ns in
      (
        frame_bytes frame,
        name_bytes ns,
        (p.write_all stream (frame_bytes frame) ctx.net).1,
        ap (λ m. m >>= or_close done)
              (send_slices-send_bytes ctx
                  (push_front_header (push_names empty ns) tracepoint_list_reply)
                ∙ ap (send_bytes ctx) (list_message ns))
            ∙ sent_frame ctx (frame_bytes frame) h (succeeds (frame_bytes frame) ctx.net),
        logged (frame_bytes frame) ctx.net,
        ap read_frame (sym (append-nil (frame_bytes frame))) ∙ read_frame-frame_bytes frame [] hs,
        read_names-name_bytes ns (length ctx.tracepoints) (names-FitsField ns hn)
            (omega (arith, length-keys ctx.tracepoints)),
      )
