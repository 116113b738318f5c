-- ===== src/Tracer/Sender.antt =====
-- src/tcp_handler.rs: `send_slices`, `send_trace_data` and `send_tracepoint_list`.
pub mod Groups
pub mod Refinement
pub mod Delivery
pub mod ListReply
pub mod Messages
use libtracy.Common.{
  ℕ, zero, suc, ◌+◌, ◌*◌, ◌%◌, ◌^◌, Bool, true, false, List, [], ◌∷◌, ◌++◌, none, some, ltb, length,
  Outcome, done, panic, out_of_fuel, ◌>>=◌,
}
use libtracy.Common.Bytes.{to_be_bytes}
use libtracy.Wire.VecDeque.{VecDeque, empty, len, push_back_all}
use libtracy.Wire.Element.{element_len, encode_append_trace_data}
use libtracy.Wire.Header.{header_len, trace_push, tracepoint_list_reply, push_front_header}
use libtracy.Platform.{Platform, IoResult, ok, err, would_block}
use libtracy.Tracer.HashMap.{keys}
use libtracy.Tracer.Context.{TracerContext, queue_total_size, close_and_clean_connection}

-- `true` is `Ok(())`: the bytes are written, or the socket would block.
unfoldable pub write_result : IoResult (Unit {0}) → Bool
write_result (ok _) = true
write_result (err would_block) = true
write_result (err _) = false

-- `let len = tracepoint.len() as u16` and the two loops behind it, for each key.
unfoldable pub push_names : VecDeque → List (List ℕ) → VecDeque
push_names msg [] = msg
push_names msg (k ∷ ks) =
    let msg1 = push_back_all msg (to_be_bytes 2 (length k % 2 ^ 16)) in
    push_names (push_back_all msg1 k) ks

module _ {p : Platform} where
  open p use {write_all}

  unfoldable pub send_slices : TracerContext p → VecDeque → Outcome (Bool × TracerContext p)
  unfolding write_result
  send_slices ctx que = elim ctx.connection [
    | none ↦ panic
    | some stream ↦
        let send_buf = que.first ++ que.second in
        let (r, net) = write_all stream send_buf ctx.net in
        done (write_result r, record ctx { net = net })
  ]

  -- Goes on after a write, or closes the connection where it failed.
  unfoldable pub or_close :
      (TracerContext p → Outcome (TracerContext p))
      → Bool × TracerContext p
      → Outcome (TracerContext p)
  or_close k (true, ctx) = k ctx
  or_close k (false, ctx) = close_and_clean_connection ctx

  unfoldable pub send_last : VecDeque → Bool → TracerContext p → Outcome (TracerContext p)
  unfolding or_close send_slices
  send_last que true ctx = done ctx
  send_last que false ctx = send_slices ctx (push_front_header que trace_push) >>= or_close done

  -- The `while let` loop, with `que` and `last_was_complete`, and what follows it.
  unfoldable pub send_loop : ℕ → VecDeque → Bool → TracerContext p → Outcome (TracerContext p)
  unfolding or_close send_slices send_last
  send_loop zero que last_was_complete ctx = out_of_fuel
  send_loop (suc fuel) que last_was_complete ctx = elim ctx.buffer [
    | [] ↦ send_last que last_was_complete ctx
    | front ∷ rest ↦ elim (ltb (element_len front + len que + header_len) queue_total_size) [
      | true ↦
          send_loop fuel (encode_append_trace_data que front) false (record ctx { buffer = rest })
      | false ↦
          send_slices ctx (push_front_header que trace_push)
          >>= or_close (send_loop fuel empty true)
    ]
  ]

  -- An element takes a round of its own, and one more if the queue must be sent first.
  unfoldable pub send_trace_data : TracerContext p → Outcome (TracerContext p)
  unfolding send_loop
  send_trace_data ctx = send_loop (2 * length ctx.buffer + 1) empty true ctx

  unfoldable pub send_tracepoint_list : TracerContext p → Outcome (TracerContext p)
  unfolding push_names send_slices or_close
  send_tracepoint_list ctx =
      let msg = push_names empty (keys ctx.tracepoints) in
      send_slices ctx (push_front_header msg tracepoint_list_reply) >>= or_close done
