-- ===== src/Tracer/Receiver/Faults.antt =====
-- src/tcp_handler.rs: what `receive` makes of a client that keeps to the protocol only in part, or
-- whose bytes arrive in pieces.
use libtracy.Common.{
  ℕ, suc, ◌+◌, ◌*◌, ◌^◌, ◌<◌, ◌≡◌, ◌⊎◌, refl, sym, ap, ◌∙◌, Bool, true, false, List, [], ◌∷◌, ◌++◌,
  none, inl, inr, some, length, length-append, done, panic, ◌>>=◌, arith, lt→ltb,
}
use libtracy.Common.Bytes.{from_be_bytes}
use libtracy.Text.Ascii.{max_tracepoint_name_len}
use libtracy.Wire.Header.{
  Command, header_len, check_parse_header, tracepoint_enable_request, tracepoint_disable_request,
}
use libtracy.Wire.HeaderLaws.{header_bytes, length-header_bytes, check_parse-header_bytes}
use libtracy.Platform.{Platform, ok, err, would_block, unexpected_eof}
use libtracy.Tracer.Context.{TracerContext, close_and_clean_connection}
use libtracy.Tracer.Context.Close.{IsOffline, close_none, close_some}
use libtracy.Tracer.Reader.{read_exact, fill, rec_buf_sz}
use libtracy.Tracer.Receiver.{
  Session, execute_command, read_name, set_tracepoints, header_failed, receive_loop, receive,
}
use libtracy.Tracer.Receiver.Requests.{read_exact-front}
use libtracy.Tracer.Receiver.Rounds.{
  read_exact-more, read_exact-fails, round_failed, round_refused, round_accepted,
  receive-receive_loop,
}

-- A request to enable or to disable tracepoints.
abbrev pub IsSetting : Command → Type 0
IsSetting cmd = (cmd ≡ tracepoint_enable_request) ⊎ (cmd ≡ tracepoint_disable_request)

module _ {p : Platform} where
  -- A name length above the limit closes the connection; the reader keeps what follows the length.
  read_name_oversized :
      (fuel : ℕ) (ctx ctx' : TracerContext p) (stream : p.TcpStream) (hi lo : ℕ) (rest : List ℕ)
      → max_tracepoint_name_len < hi * 256 + lo
      → close_and_clean_connection ctx ≡ done ctx'
      → read_name (suc fuel) (ctx, hi ∷ lo ∷ rest) stream ≡ done (none, (ctx', rest))
  unfolding read_name from_be_bytes
  read_name_oversized fuel ctx ctx' stream hi lo rest h c = rw (
    read_exact-front p stream fuel (hi ∷ lo ∷ []) rest ctx.net 2 refl,
    ◌>>=◌,
    lt→ltb max_tracepoint_name_len ((0 * 256 + hi) * 256 + lo) (omega arith),
    c,
  )

  set_tracepoints_failed :
      (fuel size : ℕ) (session session' : Session p) (stream : p.TcpStream) (state : Bool)
      → 0 < size
      → read_name fuel session stream ≡ done (none, session')
      → set_tracepoints (suc fuel) session stream 0 size state ≡ done session'
  unfolding set_tracepoints
  set_tracepoints_failed fuel size session session' stream state h e =
      rw (lt→ltb 0 size h, set_tracepoints, e)

  execute_failed :
      (fuel size : ℕ) (session session' : Session p) (stream : p.TcpStream) (cmd : Command)
      → IsSetting cmd
      → 0 < size
      → read_name fuel session stream ≡ done (none, session')
      → execute_command (suc fuel) session stream cmd size ≡ done session'
  unfolding execute_command
  execute_failed fuel size session session' stream cmd (inl e) h r =
      rw e (set_tracepoints_failed fuel size session session' stream true h r)
  execute_failed fuel size session session' stream cmd (inr e) h r =
      rw e (set_tracepoints_failed fuel size session session' stream false h r)

  -- Without a connection, a header that is refused is the end of the thread.
  refused_offline :
      (fuel : ℕ) (ctx : TracerContext p) (stream : p.TcpStream) (junk rest : List ℕ)
      → ctx.connection ≡ none
      → length junk ≡ header_len
      → check_parse_header junk ≡ none
      → receive_loop (suc (suc fuel)) (ctx, junk ++ rest) stream ≡ panic
  refused_offline fuel ctx stream junk rest h hl hj =
      round_refused (suc fuel) ctx (junk ++ rest) stream junk rest ctx.net
        (read_exact-front p stream fuel junk rest ctx.net header_len (sym hl)) hj
      ∙ rw (close_none ctx h)

  -- The first header that `receive` finds, where one read brings it whole.
  pub first_header :
      (fuel : ℕ) (stream : p.TcpStream) (net net' : p.Net) (header rest : List ℕ)
      → length header ≡ header_len
      → p.read stream rec_buf_sz net ≡ (ok (header ++ rest), net')
      → read_exact p (suc (suc fuel)) stream [] net header_len []
        ≡ done (record { result = ok header; buffered = rest; net = net' })
  first_header fuel stream net net' header rest h e =
      read_exact-more p stream (suc fuel) [] net net' header_len [] (header ++ rest) (omega arith)
        (λ q. omega (arith, ap length q, length-append header rest)) e
      ∙ read_exact-front p stream fuel header rest net' header_len (sym h)

  -- The fault: a client whose read brings an enable or a disable request of a positive length below
  -- 2^32 with a name length above 32, and then twelve bytes that are refused as a header, is cut
  -- off, but `receive` reads on from what it has buffered, and the refusal panics: the tracer
  -- thread dies.
  pub receive_panics :
      (fuel : ℕ) (ctx : TracerContext p) (connection stream : p.TcpStream) (net1 net2 : p.Net)
      (cmd : Command) (size hi lo : ℕ) (junk rest : List ℕ)
      → ctx.connection ≡ some connection
      → p.try_clone connection ctx.net ≡ (some stream, net1)
      → p.read stream rec_buf_sz net1
        ≡ (ok (header_bytes cmd size ++ (hi ∷ lo ∷ (junk ++ rest))), net2)
      → IsSetting cmd
      → 0 < size
      → size < 2 ^ 32
      → max_tracepoint_name_len < hi * 256 + lo
      → length junk ≡ header_len
      → check_parse_header junk ≡ none
      → receive (suc (suc (suc fuel))) ctx ≡ panic
  receive_panics fuel ctx connection stream net1 net2 cmd size hi lo junk rest hc ht hr hs h0 h32 hn
        hl hj =
      let ctx1 : TracerContext p = record ctx { net = net1 } in
      let ctx2 : TracerContext p = record ctx { net = net2 } in
      let left : List ℕ = hi ∷ lo ∷ (junk ++ rest) in
      let (ctx3, closed, off, _, _) = close_some ctx2 connection hc in
      receive-receive_loop (suc (suc (suc fuel))) ctx connection stream net1 hc ht
      ∙ round_accepted (suc (suc fuel)) ctx1 [] stream (header_bytes cmd size) left net2 cmd size
          (first_header fuel stream net1 net2 (header_bytes cmd size) left
            (length-header_bytes cmd size) hr)
          (check_parse-header_bytes cmd size h32)
      ∙ rw
          (execute_failed (suc fuel) size (ctx2, left) (ctx3, junk ++ rest) stream cmd hs h0
            (read_name_oversized fuel ctx2 ctx3 stream hi lo (junk ++ rest) hn closed))
          (refused_offline fuel ctx3 stream junk rest off.alone hl hj)

  -- The fault: where the first read brings between one and eleven bytes and the second finds
  -- nothing, `receive` ends as if nothing had come, and the bytes are gone with its reader.
  pub receive_drops_piece :
      (fuel : ℕ) (ctx : TracerContext p) (connection stream : p.TcpStream) (net1 net2 net3 : p.Net)
      (piece : List ℕ)
      → ctx.connection ≡ some connection
      → p.try_clone connection ctx.net ≡ (some stream, net1)
      → p.read stream rec_buf_sz net1 ≡ (ok piece, net2)
      → p.read stream rec_buf_sz net2 ≡ (err would_block, net3)
      → 0 < length piece
      → length piece < header_len
      → receive (suc (suc (suc fuel))) ctx ≡ done (record ctx { net = net3 })
  unfolding header_failed fill
  receive_drops_piece fuel ctx connection stream net1 net2 net3 piece hc ht hr hb h0 h12 =
      receive-receive_loop (suc (suc (suc fuel))) ctx connection stream net1 hc ht
      ∙ round_failed (suc (suc fuel)) (record ctx { net = net1 }) [] stream would_block net3
          (read_exact-more p stream (suc fuel) [] net1 net2 header_len [] piece (omega arith)
              (λ q. omega (arith, ap length q)) hr
            ∙ read_exact-fails p stream fuel piece net2 header_len [] (err would_block) would_block
                net3 h12 hb refl)

  -- A client that has left is noticed by the first read: `receive` closes the connection and ends
  -- with a context that is offline, and the buffer is as it was.
  pub receive_hangup :
      (fuel : ℕ) (ctx : TracerContext p) (connection stream : p.TcpStream) (net1 net2 : p.Net)
      → ctx.connection ≡ some connection
      → p.try_clone connection ctx.net ≡ (some stream, net1)
      → p.read stream rec_buf_sz net1 ≡ (ok [], net2)
      → (ctx' : TracerContext p) × (receive (suc (suc fuel)) ctx ≡ done ctx')
        × IsOffline ctx'
        × (ctx'.buffer ≡ ctx.buffer)
  unfolding header_failed fill
  receive_hangup fuel ctx connection stream net1 net2 hc ht hr =
      let (ctx', closed, off, kept, _) = close_some (record ctx { net = net2 }) connection hc in
      (
        ctx',
        receive-receive_loop (suc (suc fuel)) ctx connection stream net1 hc ht
            ∙ round_failed (suc fuel) (record ctx { net = net1 }) [] stream unexpected_eof net2
                (read_exact-fails p stream fuel [] net1 header_len [] (ok []) unexpected_eof net2
                  (omega arith) hr refl)
            ∙ closed,
        off,
        kept,
      )
