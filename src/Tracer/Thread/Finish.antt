-- ===== src/Tracer/Thread/Finish.antt =====
-- The loop of `channel_handler` of src/lib.rs empties the channel and ends.
use libtracy.Common.{
  Bool, true, false, List, [], ◌∷◌, All, Outcome, Finishes, Option-cases, inl, inr,
}
use libtracy.Wire.Element.{BufferElement}
use libtracy.Platform.{Platform}
use libtracy.Tracer.Context.{TracerContext, close_and_clean_connection}
use libtracy.Tracer.Sender.{or_close, send_trace_data}
use libtracy.Tracer.Sender.Groups.{Sendable, groups}
use libtracy.Tracer.Sender.Refinement.{send_bytes, send_groups, send_trace_data-groups}

module _ {p : Platform} where
  close-Finishes : (ctx : TracerContext p) → Finishes (close_and_clean_connection ctx)
  unfolding close_and_clean_connection
  close-Finishes ctx = elim (Option-cases ctx.connection) [ inl e ↦ rw e tt | inr (_, e) ↦ rw e tt ]

  or_close-Finishes :
      (k : TracerContext p → Outcome (TracerContext p))
      → ((c : TracerContext p) → Finishes (k c))
      → (r : Bool × TracerContext p) → Finishes (or_close k r)
  unfolding or_close
  or_close-Finishes k h (true, c) = h c
  or_close-Finishes k h (false, c) = close-Finishes c

  send_groups-Finishes :
      (gs : List (List BufferElement)) (ctx : TracerContext p) → Finishes (send_groups gs ctx)
  unfolding send_groups send_bytes
  send_groups-Finishes [] ctx = tt
  send_groups-Finishes (g ∷ gs) ctx = elim (Option-cases ctx.connection) [
    | inl e ↦ rw e tt
    | inr (stream, e) ↦ rw e (or_close-Finishes (send_groups gs) (send_groups-Finishes gs) _)
  ]

  pub send_trace_data-Finishes :
      (ctx : TracerContext p) → All Sendable ctx.buffer → Finishes (send_trace_data ctx)
  send_trace_data-Finishes ctx h =
      rw (send_trace_data-groups ctx h) (send_groups-Finishes (groups ctx.buffer) ctx)
