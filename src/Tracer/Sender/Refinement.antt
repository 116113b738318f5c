-- ===== src/Tracer/Sender/Refinement.antt =====
-- `send_trace_data` of src/tcp_handler.rs sends the groups of its buffer, and its fuel suffices.
use libtracy.Common.{
  ℕ, zero, suc, ◌+◌, ◌*◌, ◌≤◌, ◌≡◌, refl, sym, ap, ◌∙◌, Bool, true, false, List, [], ◌∷◌, ◌++◌,
  none, some, arith, length, ltb, All, Outcome, done, panic, ◌>>=◌, Bool-cases, Option-cases, inl,
  inr,
}
use libtracy.Wire.VecDeque.{VecDeque, len, to_list, empty}
use libtracy.Wire.Element.{BufferElement, element_len, encode_append_trace_data}
use libtracy.Wire.Header.{header_len, trace_push, push_front_header}
use libtracy.Wire.HeaderLaws.{to_list-push_front_header}
use libtracy.Wire.Samples.{encoded_all}
use libtracy.Wire.Frames.{frame_bytes}
use libtracy.Platform.{Platform}
use libtracy.Tracer.Context.{TracerContext, queue_total_size}
use libtracy.Tracer.Sender.{write_result, send_slices, or_close, send_loop, send_trace_data}
use libtracy.Tracer.Sender.Groups.{
  Sendable, flatten, groups_from, groups, push_frame, flatten-groups_from, room-len, encode-group,
  nothing, alone, groups_from-nil, groups_from-room, groups_from-full,
}

module _ {p : Platform} where
  open p use {write_all, TcpStream, Net}

  unfoldable pub send_bytes : TracerContext p → List ℕ → Outcome (Bool × TracerContext p)
  send_bytes ctx bytes = elim ctx.connection [
    | none ↦ panic
    | some stream ↦
        let (r, net) = write_all stream bytes ctx.net in
        done (write_result r, record ctx { net = net })
  ]

  -- Each group in turn, with what is behind it left in the buffer; a write that fails closes the
  -- connection and ends the sending.
  unfoldable pub send_groups :
      List (List BufferElement) → TracerContext p → Outcome (TracerContext p)
  unfolding send_bytes
  send_groups [] ctx = done ctx
  send_groups (g ∷ gs) ctx =
      send_bytes (record ctx { buffer = flatten gs }) (frame_bytes (push_frame g))
      >>= or_close (send_groups gs)

  pub send_slices-send_bytes :
      (ctx : TracerContext p) (que : VecDeque) → send_slices ctx que ≡ send_bytes ctx (to_list que)
  unfolding send_slices send_bytes to_list
  send_slices-send_bytes ctx que = refl

  -- The message that the loop sends is the message of the group in its queue.
  pub send_slices-frame :
      (ctx : TracerContext p) (que : VecDeque) (cur : List BufferElement)
      → to_list que ≡ encoded_all cur
      → send_slices ctx (push_front_header que trace_push)
        ≡ send_bytes ctx (frame_bytes (push_frame cur))
  unfolding frame_bytes push_frame
  send_slices-frame ctx que cur h =
      send_slices-send_bytes ctx (push_front_header que trace_push)
      ∙ ap (send_bytes ctx) (rw (to_list-push_front_header que trace_push, h))

  -- What follows a write sees the platform changed, and nothing else.
  send_bytes-cong :
      (ctx : TracerContext p) (bytes : List ℕ) (k k' : TracerContext p → Outcome (TracerContext p))
      → ((net : Net) → k (record ctx { net = net }) ≡ k' (record ctx { net = net }))
      → (send_bytes ctx bytes >>= or_close k) ≡ (send_bytes ctx bytes >>= or_close k')
  unfolding send_bytes or_close
  send_bytes-cong ctx bytes k k' h = elim (Option-cases ctx.connection) [
    | inl e ↦ rw (e, send_bytes)
    | inr (stream, e) ↦ ground (arith, h (write_all stream bytes ctx.net).1)
  ]

  send_groups-buffer :
      (cur es xs : List BufferElement) (ctx : TracerContext p)
      → send_groups (groups_from cur es) (record ctx { buffer = xs })
        ≡ send_groups (groups_from cur es) ctx
  unfolding send_groups groups_from
  send_groups-buffer cur [] xs ctx = refl
  send_groups-buffer cur (e ∷ es) xs ctx =
      elim (ltb (element_len e + length (encoded_all cur) + header_len) queue_total_size)
        as (λ b.
          let gs : List (List BufferElement) = elim b [
            | true ↦ groups_from (cur ++ e ∷ []) es
            | false ↦ cur ∷ groups_from (e ∷ []) es
          ] in
          send_groups gs (record ctx { buffer = xs }) ≡ send_groups gs ctx) [
            | true ↦ send_groups-buffer (cur ++ e ∷ []) es xs ctx
            | false ↦ refl
          ]

  send_loop-room :
      (fuel : ℕ) (que : VecDeque) (last : Bool) (e : BufferElement) (es : List BufferElement)
      (ctx : TracerContext p)
      → ltb (element_len e + len que + header_len) queue_total_size ≡ true
      → send_loop (suc fuel) que last (record ctx { buffer = e ∷ es })
        ≡ send_loop fuel (encode_append_trace_data que e) false (record ctx { buffer = es })
  unfolding send_loop
  send_loop-room fuel que last e es ctx room = rw (room, send_loop)

  send_loop-full :
      (fuel : ℕ) (que : VecDeque) (last : Bool) (e : BufferElement) (es : List BufferElement)
      (ctx : TracerContext p)
      → ltb (element_len e + len que + header_len) queue_total_size ≡ false
      → send_loop (suc fuel) que last (record ctx { buffer = e ∷ es }) ≡ (
          send_slices (record ctx { buffer = e ∷ es }) (push_front_header que trace_push)
          >>= or_close (send_loop fuel empty true))
  unfolding send_loop
  send_loop-full fuel que last e es ctx full = rw (full, send_loop)

  send_loop-empty :
      (fuel : ℕ) (que : VecDeque) (ctx : TracerContext p)
      → send_loop (suc fuel) que false (record ctx { buffer = [] }) ≡ (
          send_slices (record ctx { buffer = [] }) (push_front_header que trace_push)
          >>= or_close done)
  unfolding send_loop
  send_loop-empty fuel que ctx = refl

  send_groups-cons :
      (g : List BufferElement) (gs : List (List BufferElement)) (ctx : TracerContext p)
      → send_groups (g ∷ gs) ctx ≡ (
          send_bytes (record ctx { buffer = flatten gs }) (frame_bytes (push_frame g))
          >>= or_close (send_groups gs))
  unfolding send_groups
  send_groups-cons g gs ctx = refl

  -- A message goes out and the rest of the buffer follows.
  send_slices-groups :
      (que : VecDeque) (cur rest : List BufferElement) (gs : List (List BufferElement))
      (ctx : TracerContext p) (k : TracerContext p → Outcome (TracerContext p))
      → to_list que ≡ encoded_all cur
      → flatten gs ≡ rest
      → ((net : Net)
          → k (record ctx { buffer = rest; net = net })
            ≡ send_groups gs (record ctx { buffer = rest; net = net }))
      → (send_slices (record ctx { buffer = rest }) (push_front_header que trace_push)
          >>= or_close k)
        ≡ send_groups (cur ∷ gs) (record ctx { buffer = rest })
  send_slices-groups que cur rest gs ctx k h hr hk =
      let here : TracerContext p = record ctx { buffer = rest } in
      ap (λ m. m >>= or_close k) (send_slices-frame here que cur h)
      ∙ send_bytes-cong here (frame_bytes (push_frame cur)) k (send_groups gs) hk
      ∙ ap
          (λ b.
            send_bytes (record ctx { buffer = b }) (frame_bytes (push_frame cur))
            >>= or_close (send_groups gs))
          (sym hr)
      ∙ sym (send_groups-cons cur gs here)

  send_loop-groups :
      (fuel : ℕ) (que : VecDeque) (cur es : List BufferElement) (ctx : TracerContext p)
      → to_list que ≡ encoded_all cur
      → All Sendable es
      → 2 * length es + 1 ≤ fuel
      → send_loop fuel que false (record ctx { buffer = es })
        ≡ send_groups (groups_from cur es) (record ctx { buffer = es })
  send_loop-groups zero que cur es ctx h hs hf = absurd (omega arith)
  send_loop-groups (suc fuel) que cur [] ctx h hs hf =
      send_loop-empty fuel que ctx
      ∙ send_slices-groups que cur [] [] ctx done h (unfold flatten in refl)
          (λ net. unfold send_groups in refl)
      ∙ ap (λ gs. send_groups gs (record ctx { buffer = [] })) (sym (groups_from-nil cur))
  send_loop-groups (suc zero) que cur (e ∷ es) ctx h hs hf = absurd (omega arith)
  send_loop-groups (suc (suc fuel)) que cur (e ∷ es) ctx h hs hf =
      elim (Bool-cases
        (ltb (element_len e + length (encoded_all cur) + header_len) queue_total_size)) [
          | inl room ↦
              send_loop-room (suc fuel) que false e es ctx (room-len que cur e h ∙ room)
              ∙ send_loop-groups (suc fuel) (encode_append_trace_data que e) (cur ++ e ∷ []) es ctx
                  (encode-group que cur e h) hs.1 (omega arith)
              ∙ send_groups-buffer (cur ++ e ∷ []) es es ctx
              ∙ sym (send_groups-buffer (cur ++ e ∷ []) es (e ∷ es) ctx)
              ∙ ap (λ gs. send_groups gs (record ctx { buffer = e ∷ es }))
                  (sym (groups_from-room cur e es room))
          | inr full ↦
              send_loop-full (suc fuel) que false e es ctx (room-len que cur e h ∙ full)
              ∙ send_slices-groups que cur (e ∷ es) (groups_from (e ∷ []) es) ctx
                  (send_loop (suc fuel) empty true) h (flatten-groups_from (e ∷ []) es)
                  (λ net.
                    send_loop-room fuel empty true e es (record ctx { net = net }) (alone e hs.0)
                    ∙ send_loop-groups fuel (encode_append_trace_data empty e) (e ∷ []) es
                        (record ctx { net = net }) (encode-group empty [] e nothing) hs.1
                        (omega arith)
                    ∙ send_groups-buffer (e ∷ []) es es (record ctx { net = net })
                    ∙ sym (send_groups-buffer (e ∷ []) es (e ∷ es) (record ctx { net = net })))
              ∙ ap (λ gs. send_groups gs (record ctx { buffer = e ∷ es }))
                  (sym (groups_from-full cur e es full))
        ]

  send_trace_data_fuel :
      (e : BufferElement) (es : List BufferElement) (ctx : TracerContext p)
      → send_trace_data (record ctx { buffer = e ∷ es })
        ≡ send_loop (suc (2 * length es + 2)) empty true (record ctx { buffer = e ∷ es })
  unfolding send_trace_data
  send_trace_data_fuel e es ctx =
      let start : TracerContext p = record ctx { buffer = e ∷ es } in
      ap (λ n. send_loop n empty true start) {y = suc (2 * length es + 2)} (omega arith)

  send_buffer-groups :
      (es : List BufferElement) (ctx : TracerContext p)
      → All Sendable es
      → send_trace_data (record ctx { buffer = es })
        ≡ send_groups (groups es) (record ctx { buffer = es })
  unfolding groups
  send_buffer-groups [] ctx hs = unfold send_trace_data send_loop send_groups in refl
  send_buffer-groups (e ∷ es) ctx hs =
      send_trace_data_fuel e es ctx
      ∙ send_loop-room (2 * length es + 2) empty true e es ctx (alone e hs.0)
      ∙ send_loop-groups (2 * length es + 2) (encode_append_trace_data empty e) (e ∷ []) es ctx
          (encode-group empty [] e nothing) hs.1 (omega arith)
      ∙ send_groups-buffer (e ∷ []) es es ctx
      ∙ sym (send_groups-buffer (e ∷ []) es (e ∷ es) ctx)

  -- Where every buffered element fits a message of its own, `send_trace_data` is the specification:
  -- it sends the groups of its buffer one after the other, up to the first write that fails, which
  -- closes the connection. It does so within its fuel.
  pub send_trace_data-groups :
      (ctx : TracerContext p)
      → All Sendable ctx.buffer
      → send_trace_data ctx ≡ send_groups (groups ctx.buffer) ctx
  send_trace_data-groups ctx h = send_buffer-groups ctx.buffer ctx h
