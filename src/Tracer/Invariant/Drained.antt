-- ===== src/Tracer/Invariant/Drained.antt =====
-- The loop of `channel_handler` of src/lib.rs empties the channel and ends.
use mathlib.Core.Path.{subst}
use libtracy.Common.{
  ℕ, zero, suc, ◌<◌, ◌≡◌, ◌⊎◌, refl, sym, ap, ◌∙◌, true, false, List, [], ◌∷◌, none, is_some,
  length, All, done, ◌>>=◌, Ensures-mono, Total, Total-bind, arith, ltb, inl, inr, if◌then◌else◌,
}
use libtracy.Wire.Element.{BufferElement}
use libtracy.Platform.{Arc, Platform, ChannelMessage, payload, new_tracepoint, terminate}
use libtracy.Tracer.Context.{
  TracerContext, append, insert_tracepoint, check_start_queue_timer, check_stop_queue_timer,
  queue_total_size,
}
use libtracy.Tracer.Sender.{send_trace_data}
use libtracy.Tracer.Sender.Groups.{Sendable}
use libtracy.Tracer.Thread.{
  TracerState, normal, terminated, data_processed, channel_data_handler, last_words, channel_loop,
  channel_handler,
}
use libtracy.Tracer.Thread.Finish.{send_trace_data-Finishes}
use libtracy.Tracer.Invariant.{Keeps-refl, IsGood, IsAfter}
use libtracy.Tracer.Invariant.Sending.{send_trace_data-IsAfter}
use libtracy.Tracer.Invariant.Events.{Fifo, Sound, Leaves-Sound, timers-Sound, start_queue-Sound}
use libtracy.Tracer.Invariant.Calls.{Leaves-IsAfter, append-Inv, insert-Inv}
use libtracy.Tracer.Invariant.Loop.{received_rec-Inv}

module _ (p : Platform) (queued : p.Channel → List ChannelMessage) (cell : Arc) where
  -- Sound, with the channel as it was.
  abbrev pub SoundAt : p.Channel → TracerContext p → Type 0
  SoundAt rec ctx = Sound p queued cell ctx × (ctx.rec ≡ rec)

  send_trace_data-Total :
      (ctx : TracerContext p)
      → Sound p queued cell ctx
      → Total (SoundAt ctx.rec) (send_trace_data ctx)
  send_trace_data-Total ctx s = (
    Ensures-mono (IsAfter ctx) (SoundAt ctx.rec) (send_trace_data ctx)
        (send_trace_data-IsAfter ctx ctx (s.0, Keeps-refl ctx))
        (λ c h. (Leaves-Sound p queued cell ctx c s (Leaves-IsAfter ctx c h), h.1.same_rec)),
    send_trace_data-Finishes ctx s.0.sendable,
  )

  check_start-rec : (ctx : TracerContext p) → (check_start_queue_timer ctx).rec ≡ ctx.rec
  unfolding check_start_queue_timer
  check_start-rec ctx = ground arith

  pub data-Total :
      (ctx : TracerContext p) (element : BufferElement)
      → Sound p queued cell ctx
      → Sendable element
      → Total (SoundAt ctx.rec) (channel_data_handler ctx element)
  unfolding channel_data_handler append check_stop_queue_timer
  data-Total ctx element (v, good) h =
      let ctx1 : TracerContext p = append ctx element in
      let s1 : Sound p queued cell ctx1 = (append-Inv ctx element v h, good) in
      elim (ltb queue_total_size ctx1.buffer_occupancy)
        as (λ b. Total (SoundAt ctx.rec) (
          if b
          then send_trace_data (check_stop_queue_timer ctx1)
          else done (check_start_queue_timer ctx1))) [
            | true ↦
                send_trace_data-Total (check_stop_queue_timer ctx1)
                  (timers-Sound p queued cell ctx1 _ none ctx1.udp_timeout s1)
            | false ↦ ((start_queue-Sound p queued cell ctx1 s1, check_start-rec ctx1), tt)
          ]

  pub last_words-Total :
      (ctx : TracerContext p) → Sound p queued cell ctx → Total (SoundAt ctx.rec) (last_words ctx)
  unfolding last_words
  last_words-Total ctx s =
      elim (is_some ctx.connection)
        as (λ b. Total (SoundAt ctx.rec) (if b then send_trace_data ctx else done ctx)) [
          | true ↦ send_trace_data-Total ctx s
          | false ↦ ((s, refl), tt)
        ]

  -- The thread is told to end, or the channel is empty.
  abbrev pub IsDrained : TracerState × TracerContext p → Type 0
  IsDrained (state, ctx) = Sound p queued cell ctx × ((state ≡ terminated) ⊎ (queued ctx.rec ≡ []))

  channel_loop-Total :
      (fifo : (c : p.Channel) → Fifo p queued c) (ms : List ChannelMessage) (fuel : ℕ)
      (ret : TracerState) (ctx : TracerContext p)
      → Sound p queued cell ctx
      → queued ctx.rec ≡ ms
      → length ms < fuel
      → Total IsDrained (channel_loop fuel ret ctx)
  unfolding channel_loop insert_tracepoint
  channel_loop-Total fifo ms zero ret ctx s e h = absurd (omega arith)
  channel_loop-Total fifo [] (suc fuel) ret ctx s e h =
      let (n, q) = (fifo ctx.rec).empty_none e in
      rw (n, channel_loop)
        (
          (
            (
              received_rec-Inv ctx (p.try_recv ctx.rec).1 s.0,
              record {
                good = subst (All (IsGood ctx.client_connected)) (sym q) tt;
                given = s.1.given;
              },
            ),
            inr q,
          ),
          tt,
        )
  channel_loop-Total fifo (m ∷ ms) (suc fuel) ret ctx s e h =
      let ctx1 : TracerContext p = record ctx { rec = (p.try_recv ctx.rec).1 } in
      let (n, q) = (fifo ctx.rec).first_some m ms e in
      let good : All (IsGood ctx.client_connected) (m ∷ ms) =
        subst (All (IsGood ctx.client_connected)) e s.1.good in
      let s1 : Sound p queued cell ctx1 = (
        received_rec-Inv ctx (p.try_recv ctx.rec).1 s.0,
        record {
          good = subst (All (IsGood ctx.client_connected)) (sym q) good.1;
          given = s.1.given;
        },
      ) in
      rw (n, channel_loop)
        (elim m
            as (λ m.
              IsGood ctx.client_connected m
              → Total IsDrained (elim m [
                | terminate ↦ do ctx2 ← last_words ctx1; done (terminated, ctx2)
                | new_tracepoint tracepoint ↦
                    channel_loop fuel data_processed (insert_tracepoint ctx1 tracepoint)
                | payload element ↦ do
                  ctx2 ← channel_data_handler ctx1 element
                  channel_loop fuel data_processed ctx2
              ])) [
                | terminate ↦ λ _.
                    Total-bind (SoundAt ctx1.rec) IsDrained (last_words ctx1)
                      (λ c. done (terminated, c)) (last_words-Total ctx1 s1)
                      (λ c l. ((l.0, inl refl), tt))
                | new_tracepoint t ↦ λ g.
                    channel_loop-Total fifo ms fuel data_processed (insert_tracepoint ctx1 t)
                      (insert-Inv ctx1 t s1.0 g, s1.1) q (omega (arith, h))
                | payload element ↦ λ g.
                    Total-bind (SoundAt ctx1.rec) IsDrained (channel_data_handler ctx1 element)
                      (λ c. channel_loop fuel data_processed c) (data-Total ctx1 element s1 g)
                      (λ c l.
                        channel_loop-Total fifo ms fuel data_processed c l.0 (ap queued l.1 ∙ q)
                          (omega (arith, h)))
              ]
          good.0)

  -- In a sound context, with a channel that hands out its messages in order and more fuel than it
  -- holds messages, `channel_handler` ends; where it does not panic it leaves a sound context, and
  -- it stops at `Terminate` or with an empty channel.
  pub channel_handler-Total :
      (fifo : (c : p.Channel) → Fifo p queued c) (fuel : ℕ) (ctx : TracerContext p)
      → Sound p queued cell ctx
      → length (queued ctx.rec) < fuel
      → Total IsDrained (channel_handler fuel ctx)
  channel_handler-Total fifo fuel ctx s h =
      unfold channel_handler in channel_loop-Total fifo (queued ctx.rec) fuel normal ctx s refl h
