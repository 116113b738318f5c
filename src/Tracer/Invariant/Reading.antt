-- ===== src/Tracer/Invariant/Reading.antt =====
-- The receiver of src/tcp_handler.rs keeps the invariant, whatever the client sends.
use libtracy.Common.{
  ℕ, zero, suc, true, false, [], none, some, done, panic, Ensures, Ensures-bind, Option-cases, inl,
  inr,
}
use libtracy.Wire.Header.{
  Command, tracepoint_list_request, tracepoint_enable_request, tracepoint_disable_request,
  header_len, check_parse_header,
}
use libtracy.Platform.{Platform, IoResult-cases, ErrorKind, would_block}
use libtracy.Tracer.Context.{TracerContext, close_and_clean_connection}
use libtracy.Tracer.Reader.{read_some}
use libtracy.Tracer.Sender.{send_tracepoint_list}
use libtracy.Tracer.Receiver.{
  Session, drain, empty, more, broken, execute_command, read_empty, header_failed, receive_loop,
  receive,
}
use libtracy.Tracer.Invariant.{Inv, Keeps-refl, IsAfter}
use libtracy.Tracer.Invariant.Handlers.{close-IsAfter_from}
use libtracy.Tracer.Invariant.Sending.{send_tracepoint_list-IsAfter}
use libtracy.Tracer.Invariant.Setting.{
  SessionAfter, net-IsAfter, read-Ensures, set_tracepoints-IsAfter,
}

module _ {p : Platform} where
  execute_command-IsAfter :
      (fuel : ℕ) (ctx0 : TracerContext p) (session : Session p) (stream : p.TcpStream)
      (cmd : Command) (size : ℕ)
      → SessionAfter ctx0 session
      → Ensures (SessionAfter ctx0) (execute_command fuel session stream cmd size)
  unfolding execute_command
  execute_command-IsAfter fuel ctx0 (ctx, buffered) stream tracepoint_list_request size h =
      Ensures-bind (IsAfter ctx0) (SessionAfter ctx0) (send_tracepoint_list ctx)
        (λ c. done (c, buffered)) (send_tracepoint_list-IsAfter ctx0 ctx h) (λ c hc. hc)
  execute_command-IsAfter fuel ctx0 session stream tracepoint_enable_request size h =
      set_tracepoints-IsAfter fuel ctx0 session stream 0 size true h
  execute_command-IsAfter fuel ctx0 session stream tracepoint_disable_request size h =
      set_tracepoints-IsAfter fuel ctx0 session stream 0 size false h
  execute_command-IsAfter fuel ctx0 session stream _ size h = h

  header_failed-IsAfter :
      (ctx0 ctx : TracerContext p) (kind : ErrorKind)
      → IsAfter ctx0 ctx
      → Ensures (IsAfter ctx0) (header_failed ctx kind)
  unfolding header_failed
  header_failed-IsAfter ctx0 ctx would_block h = h
  header_failed-IsAfter ctx0 ctx _ h = close-IsAfter_from ctx0 ctx h

  read_empty-IsAfter :
      (fuel : ℕ) (ctx0 : TracerContext p) (session : Session p) (stream : p.TcpStream)
      → SessionAfter ctx0 session
      → Ensures (IsAfter ctx0) (read_empty fuel session stream)
  unfolding read_empty
  read_empty-IsAfter zero ctx0 session stream h = tt
  read_empty-IsAfter (suc fuel) ctx0 (ctx, buffered) stream h =
      let r = read_some p stream buffered ctx.net 64 in
      let c : TracerContext p = record ctx { net = r.net } in
      let hc : IsAfter ctx0 c = net-IsAfter ctx0 ctx r.net h in
      elim (drain r.result)
        as (λ d. Ensures (IsAfter ctx0) (elim d [
          | empty ↦ done c
          | more ↦ read_empty fuel (c, r.buffered) stream
          | broken ↦ close_and_clean_connection c
        ])) [
          | empty ↦ hc
          | more ↦ read_empty-IsAfter fuel ctx0 (c, r.buffered) stream hc
          | broken ↦ close-IsAfter_from ctx0 c hc
        ]

  receive_loop-IsAfter :
      (fuel : ℕ) (ctx0 : TracerContext p) (session : Session p) (stream : p.TcpStream)
      → SessionAfter ctx0 session
      → Ensures (IsAfter ctx0) (receive_loop fuel session stream)
  unfolding receive_loop
  receive_loop-IsAfter zero ctx0 session stream h = tt
  receive_loop-IsAfter (suc fuel) ctx0 (ctx, buffered) stream h =
      read-Ensures (IsAfter ctx0) fuel stream buffered ctx.net header_len _ λ r.
        let c : TracerContext p = record ctx { net = r.net } in
        let hc : IsAfter ctx0 c = net-IsAfter ctx0 ctx r.net h in
        elim (IoResult-cases r.result) [
          | inr (kind, e) ↦ rw e (header_failed-IsAfter ctx0 c kind hc)
          | inl (header, e) ↦ rw e (elim (Option-cases (check_parse_header header)) [
            | inl refused ↦ rw refused (
                Ensures-bind (IsAfter ctx0) (IsAfter ctx0) (close_and_clean_connection c)
                  (λ c'. read_empty fuel (c', r.buffered) stream) (close-IsAfter_from ctx0 c hc)
                  (λ c' h'. read_empty-IsAfter fuel ctx0 (c', r.buffered) stream h'))
            | inr ((cmd, size), accepted) ↦ rw accepted (
                Ensures-bind (SessionAfter ctx0) (IsAfter ctx0)
                  (execute_command fuel (c, r.buffered) stream cmd size)
                  (λ s. receive_loop fuel s stream)
                  (execute_command-IsAfter fuel ctx0 (c, r.buffered) stream cmd size hc)
                  (λ s hs. receive_loop-IsAfter fuel ctx0 s stream hs))
          ])
        ]

  -- Whatever bytes come, a `receive` that begins with the invariant and ends without a panic and
  -- within its fuel ends with it, and leaves the configuration, the counted bytes, the channel, the
  -- announcing socket, the cell of the flag, the map of the tracepoints and the sequence number as
  -- they were.
  pub receive-IsAfter :
      (fuel : ℕ) (ctx : TracerContext p) → Inv ctx → Ensures (IsAfter ctx) (receive fuel ctx)
  unfolding receive
  receive-IsAfter fuel ctx v =
      elim ctx.connection
        as (λ c. Ensures (IsAfter ctx) (elim c [
          | none ↦ panic
          | some connection ↦
              let (clone, net) = p.try_clone connection ctx.net in
              elim clone [
                | none ↦ panic
                | some stream ↦ receive_loop fuel (record ctx { net = net }, []) stream
              ]
        ])) [
          | none ↦ tt
          | some connection ↦
              let net : p.Net = (p.try_clone connection ctx.net).1 in
              elim (p.try_clone connection ctx.net).0
                as (λ clone. Ensures (IsAfter ctx) (elim clone [
                  | none ↦ panic
                  | some stream ↦ receive_loop fuel (record ctx { net = net }, []) stream
                ])) [
                  | none ↦ tt
                  | some stream ↦
                      receive_loop-IsAfter fuel ctx (record ctx { net = net }, []) stream
                        (net-IsAfter ctx ctx net (v, Keeps-refl ctx))
                ]
        ]
