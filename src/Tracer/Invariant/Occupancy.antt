-- ===== src/Tracer/Invariant/Occupancy.antt =====
-- src/lib.rs: what `buffer_occupancy` counts. It is never set back, since `clear_buffer` has no caller.
use mathlib.Core.Path.{subst}
use libtracy.Common.{
  ◌∙◌, ◌+◌, ◌^◌, ◌<◌, ◌≡◌, refl, sym, true, none, arith, ltb, lt→ltb, Ensures, Ensures-mono,
}
use libtracy.Wire.Element.{BufferElement, element_len}
use libtracy.Platform.{Platform}
use libtracy.Tracer.Context.{TracerContext, append, check_stop_queue_timer, queue_total_size}
use libtracy.Tracer.Sender.{send_trace_data}
use libtracy.Tracer.Sender.Groups.{Sendable}
use libtracy.Tracer.Thread.{channel_data_handler}
use libtracy.Tracer.Invariant.{Inv, IsAfter, Keeps-refl}
use libtracy.Tracer.Invariant.Handlers.{timers-IsAfter}
use libtracy.Tracer.Invariant.Sending.{send_trace_data-IsAfter}
use libtracy.Tracer.Invariant.Calls.{append-Inv}

module _ {p : Platform} where
  -- In a context with the invariant in which more than 4096 bytes were counted, and before the
  -- counter wraps, a payload that fits a message is sent at once with what is buffered; where the
  -- sending ends, the counter is higher by the length of the payload.
  pub occupancy_rises :
      (ctx : TracerContext p) (element : BufferElement)
      → Inv ctx
      → Sendable element
      → queue_total_size < ctx.buffer_occupancy
      → ctx.buffer_occupancy + element_len element < 2 ^ 64
      → (channel_data_handler ctx element
          ≡ send_trace_data (check_stop_queue_timer (append ctx element)))
        × Ensures
            (λ c. c.buffer_occupancy ≡ ctx.buffer_occupancy + element_len element)
            (channel_data_handler ctx element)
  unfolding channel_data_handler append check_stop_queue_timer
  occupancy_rises ctx element v h full fits =
      let ctx1 : TracerContext p = check_stop_queue_timer (append ctx element) in
      let sum : ctx1.buffer_occupancy ≡ ctx.buffer_occupancy + element_len element =
        omega (arith, fits) in
      let big : ltb queue_total_size ctx1.buffer_occupancy ≡ true =
        lt→ltb queue_total_size ctx1.buffer_occupancy (omega (arith, sum, full)) in
      let kept : Inv ctx1 =
        (timers-IsAfter (append ctx element) (append ctx element) ctx1.timer none ctx.udp_timeout
          ctx.net (append-Inv ctx element v h, Keeps-refl (append ctx element))).0 in
      let at_once : channel_data_handler ctx element ≡ send_trace_data ctx1 =
        rw (big, channel_data_handler) refl in
      (
        at_once,
        subst (Ensures (λ c. c.buffer_occupancy ≡ ctx.buffer_occupancy + element_len element))
            (sym at_once)
            (Ensures-mono (IsAfter ctx1)
              (λ c. c.buffer_occupancy ≡ ctx.buffer_occupancy + element_len element)
              (send_trace_data ctx1) (send_trace_data-IsAfter ctx1 ctx1 (kept, Keeps-refl ctx1))
              (λ c (_, k). k.same_occupancy ∙ sum)),
      )
