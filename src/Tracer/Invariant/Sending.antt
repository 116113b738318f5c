-- ===== src/Tracer/Invariant/Sending.antt =====
-- The sender of src/tcp_handler.rs keeps the invariant.
use libtracy.Common.{
  ℕ, zero, suc, ◌+◌, Bool, true, false, List, [], ◌∷◌, ◌++◌, none, some, All, Outcome, done, panic,
  ◌>>=◌, Ensures, Ensures-bind, ltb,
}
use libtracy.Wire.VecDeque.{VecDeque, len, empty}
use libtracy.Wire.Element.{BufferElement, element_len, encode_append_trace_data}
use libtracy.Wire.Header.{header_len, trace_push, tracepoint_list_reply, push_front_header}
use libtracy.Platform.{Platform}
use libtracy.Tracer.HashMap.{keys}
use libtracy.Tracer.Context.{TracerContext, queue_total_size}
use libtracy.Tracer.Sender.{
  write_result, send_slices, or_close, send_last, send_loop, send_trace_data, send_tracepoint_list,
  push_names,
}
use libtracy.Tracer.Sender.Groups.{Sendable}
use libtracy.Tracer.Invariant.{IsAfter}
use libtracy.Tracer.Invariant.Handlers.{close-IsAfter_from, timers-IsAfter}

module _ {p : Platform} where
  send_slices-IsAfter :
      (ctx0 ctx : TracerContext p) (que : VecDeque)
      → IsAfter ctx0 ctx
      → Ensures (λ (r : Bool × TracerContext p). IsAfter ctx0 r.1) (send_slices ctx que)
  unfolding send_slices
  send_slices-IsAfter ctx0 ctx que h =
      elim ctx.connection
        as (λ c.
          Ensures (λ (r : Bool × TracerContext p). IsAfter ctx0 r.1)
            (elim c [
              | none ↦ panic
              | some stream ↦
                  let (r, net) = p.write_all stream (que.first ++ que.second) ctx.net in
                  done (write_result r, record ctx { net = net })
            ])) [
              | none ↦ tt
              | some stream ↦
                  timers-IsAfter ctx0 ctx ctx.timer ctx.queue_timeout ctx.udp_timeout
                    (p.write_all stream (que.first ++ que.second) ctx.net).1 h
            ]

  or_close-IsAfter :
      (ctx0 : TracerContext p) (k : TracerContext p → Outcome (TracerContext p))
      → ((c : TracerContext p) → IsAfter ctx0 c → Ensures (IsAfter ctx0) (k c))
      → (r : Bool × TracerContext p) → IsAfter ctx0 r.1
      → Ensures (IsAfter ctx0) (or_close k r)
  unfolding or_close
  or_close-IsAfter ctx0 k hk (true, c) h = hk c h
  or_close-IsAfter ctx0 k hk (false, c) h = close-IsAfter_from ctx0 c h

  pub send-IsAfter :
      (ctx0 ctx : TracerContext p) (que : VecDeque)
      (k : TracerContext p → Outcome (TracerContext p))
      → ((c : TracerContext p) → IsAfter ctx0 c → Ensures (IsAfter ctx0) (k c))
      → IsAfter ctx0 ctx
      → Ensures (IsAfter ctx0) (send_slices ctx que >>= or_close k)
  send-IsAfter ctx0 ctx que k hk h =
      Ensures-bind (λ (r : Bool × TracerContext p). IsAfter ctx0 r.1) (IsAfter ctx0)
        (send_slices ctx que) (or_close k) (send_slices-IsAfter ctx0 ctx que h)
        (or_close-IsAfter ctx0 k hk)

  send_last-IsAfter :
      (ctx0 ctx : TracerContext p) (que : VecDeque) (last : Bool)
      → IsAfter ctx0 ctx
      → Ensures (IsAfter ctx0) (send_last que last ctx)
  send_last-IsAfter ctx0 ctx que true h = unfold send_last in h
  send_last-IsAfter ctx0 ctx que false h =
      unfold send_last in
      send-IsAfter ctx0 ctx (push_front_header que trace_push) done (λ c hc. hc) h

  rest-IsAfter :
      (ctx0 ctx : TracerContext p) (rest : List BufferElement)
      → IsAfter ctx0 ctx
      → All Sendable rest
      → IsAfter ctx0 (record ctx { buffer = rest })
  rest-IsAfter ctx0 ctx rest (v, k) hs = (
    record {
      online = v.online;
      cell = v.cell;
      apart = v.apart;
      names = v.names;
      sendable = hs;
      addressed = v.addressed;
    },
    record {
      same_cfg = k.same_cfg;
      same_occupancy = k.same_occupancy;
      same_rec = k.same_rec;
      same_sock = k.same_sock;
      same_cell = k.same_cell;
      same_tracepoints = k.same_tracepoints;
      same_sequence = k.same_sequence;
    },
  )

  send_loop-IsAfter :
      (fuel : ℕ) (ctx0 ctx : TracerContext p) (que : VecDeque) (last : Bool)
      → IsAfter ctx0 ctx
      → Ensures (IsAfter ctx0) (send_loop fuel que last ctx)
  unfolding send_loop
  send_loop-IsAfter zero ctx0 ctx que last h = tt
  send_loop-IsAfter (suc fuel) ctx0 ctx que last h =
      let go_on = send_loop {p = p} fuel empty true in
      let full = send_slices ctx (push_front_header que trace_push) >>= or_close go_on in
      elim ctx.buffer
          as (λ b.
            All Sendable b
            → Ensures (IsAfter ctx0) (elim b [
              | [] ↦ send_last que last ctx
              | front ∷ rest ↦
                  elim (ltb (element_len front + len que + header_len) queue_total_size) [
                    | true ↦
                        send_loop fuel (encode_append_trace_data que front) false
                          (record ctx { buffer = rest })
                    | false ↦ full
                  ]
            ])) [
              | [] ↦ λ _. send_last-IsAfter ctx0 ctx que last h
              | front ∷ rest ↦ λ hs.
                  elim (ltb (element_len front + len que + header_len) queue_total_size)
                    as (λ b. Ensures (IsAfter ctx0) (elim b [
                      | true ↦
                          send_loop fuel (encode_append_trace_data que front) false
                            (record ctx { buffer = rest })
                      | false ↦ full
                    ])) [
                      | true ↦
                          send_loop-IsAfter fuel ctx0 (record ctx { buffer = rest })
                            (encode_append_trace_data que front) false
                            (rest-IsAfter ctx0 ctx rest h hs.1)
                      | false ↦
                          send-IsAfter ctx0 ctx (push_front_header que trace_push) go_on
                            (λ c hc. send_loop-IsAfter fuel ctx0 c empty true hc) h
                    ]
            ]
        h.0.sendable

  -- Sending the buffer and sending the list keep the invariant, also where they close the connection.
  pub send_trace_data-IsAfter :
      (ctx0 ctx : TracerContext p) → IsAfter ctx0 ctx → Ensures (IsAfter ctx0) (send_trace_data ctx)
  send_trace_data-IsAfter ctx0 ctx h =
      unfold send_trace_data in send_loop-IsAfter _ ctx0 ctx empty true h

  pub send_tracepoint_list-IsAfter :
      (ctx0 ctx : TracerContext p)
      → IsAfter ctx0 ctx
      → Ensures (IsAfter ctx0) (send_tracepoint_list ctx)
  unfolding send_tracepoint_list
  send_tracepoint_list-IsAfter ctx0 ctx h =
      let msg : VecDeque = push_names empty (keys ctx.tracepoints) in
      send-IsAfter ctx0 ctx (push_front_header msg tracepoint_list_reply) done (λ c hc. hc) h
