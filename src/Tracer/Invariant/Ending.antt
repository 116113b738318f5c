-- ===== src/Tracer/Invariant/Ending.antt =====
-- src/lib.rs: what `Terminate` does to the loop of `channel_handler` and to that of the thread.
use mathlib.Core.Path.{subst}
use libtracy.Common.{
  ℕ, zero, suc, ◌<◌, ◌≡◌, refl, sym, ap, ◌∙◌, List, [], ◌∷◌, ◌++◌, some, Option, length, All,
  Outcome, done, ◌>>=◌, Total, Total-bind, arith,
}
use libtracy.Platform.{Arc, Platform, ChannelMessage, payload, new_tracepoint, terminate}
use libtracy.Tracer.Context.{TracerContext, insert_tracepoint}
use libtracy.Tracer.Thread.{
  TracerState, normal, terminated, data_processed, channel_data_handler, last_words, channel_loop,
  channel_handler, event_handler, thread_loop, chan_token,
}
use libtracy.Tracer.Invariant.{IsGood}
use libtracy.Tracer.Invariant.Events.{Fifo, Sound}
use libtracy.Tracer.Invariant.Calls.{insert-Inv}
use libtracy.Tracer.Invariant.Loop.{received_rec-Inv}
use libtracy.Tracer.Invariant.Drained.{SoundAt, data-Total, last_words-Total}

module _ (p : Platform) (queued : p.Channel → List ChannelMessage) (cell : Arc) where
  -- The thread is told to end, and its context is sound.
  abbrev pub IsOver : TracerState × TracerContext p → Type 0
  IsOver (state, ctx) = (state ≡ terminated) × Sound p queued cell ctx

  -- What would go on otherwise ends here.
  IsOver-stops :
      (go_on go_on_processed : Outcome (TracerState × TracerContext p)) (state : TracerState)
      (ctx : TracerContext p)
      → IsOver (state, ctx)
      → Total IsOver (elim state [
        | terminated ↦ done (terminated, ctx)
        | normal ↦ go_on
        | data_processed ↦ go_on_processed
      ])
  IsOver-stops g h normal ctx l = absurd (cc (l.0))
  IsOver-stops g h terminated ctx l = (l, tt)
  IsOver-stops g h data_processed ctx l = absurd (cc (l.0))

  module _ (fifo : (c : p.Channel) → Fifo p queued c) where
    -- The context when the first message has been received.
    received-Sound :
        (ctx : TracerContext p) (m : ChannelMessage) (ms : List ChannelMessage)
        → Sound p queued cell ctx
        → queued ctx.rec ≡ m ∷ ms
        → ((p.try_recv ctx.rec).0 ≡ some m)
          × (queued (p.try_recv ctx.rec).1 ≡ ms)
          × IsGood ctx.client_connected m
          × Sound p queued cell (record ctx { rec = (p.try_recv ctx.rec).1 })
    received-Sound ctx m ms s e =
        let (n, q) = (fifo ctx.rec).first_some m ms e in
        let good : All (IsGood ctx.client_connected) (m ∷ ms) =
          subst (All (IsGood ctx.client_connected)) e s.1.good in
        (
          n,
          q,
          good.0,
          (
            received_rec-Inv ctx (p.try_recv ctx.rec).1 s.0,
            record {
              good = subst (All (IsGood ctx.client_connected)) (sym q) good.1;
              given = s.1.given;
            },
          ),
        )

    channel_loop-IsOver :
        (before after : List ChannelMessage) (fuel : ℕ) (ret : TracerState) (ctx : TracerContext p)
        → Sound p queued cell ctx
        → queued ctx.rec ≡ before ++ terminate ∷ after
        → length before < fuel
        → Total IsOver (channel_loop fuel ret ctx)
    unfolding channel_loop insert_tracepoint
    channel_loop-IsOver before after zero ret ctx s e h = absurd (omega arith)
    channel_loop-IsOver [] after (suc fuel) ret ctx s e h =
        let ctx1 : TracerContext p = record ctx { rec = (p.try_recv ctx.rec).1 } in
        let (n, q, _, s1) = received-Sound ctx terminate after s e in
        rw (n, channel_loop)
          (Total-bind (SoundAt p queued cell ctx1.rec) IsOver (last_words ctx1)
            (λ c. done (terminated, c)) (last_words-Total p queued cell ctx1 s1)
            (λ c l. ((refl, l.0), tt)))
    channel_loop-IsOver (m ∷ before) after (suc fuel) ret ctx s e h =
        let ctx1 : TracerContext p = record ctx { rec = (p.try_recv ctx.rec).1 } in
        let (n, q, good, s1) = received-Sound ctx m (before ++ terminate ∷ after) s e in
        rw (n, channel_loop)
          (elim m
              as (λ m.
                IsGood ctx.client_connected m
                → Total IsOver (elim m [
                  | terminate ↦ do ctx2 ← last_words ctx1; done (terminated, ctx2)
                  | new_tracepoint tracepoint ↦
                      channel_loop fuel data_processed (insert_tracepoint ctx1 tracepoint)
                  | payload element ↦ do
                    ctx2 ← channel_data_handler ctx1 element
                    channel_loop fuel data_processed ctx2
                ])) [
                  | terminate ↦ λ _.
                      Total-bind (SoundAt p queued cell ctx1.rec) IsOver (last_words ctx1)
                        (λ c. done (terminated, c)) (last_words-Total p queued cell ctx1 s1)
                        (λ c l. ((refl, l.0), tt))
                  | new_tracepoint t ↦ λ g.
                      channel_loop-IsOver before after fuel data_processed
                        (insert_tracepoint ctx1 t) (insert-Inv ctx1 t s1.0 g, s1.1) q
                        (omega (arith, h))
                  | payload element ↦ λ g.
                      Total-bind (SoundAt p queued cell ctx1.rec) IsOver
                        (channel_data_handler ctx1 element)
                        (λ c. channel_loop fuel data_processed c)
                        (data-Total p queued cell ctx1 element s1 g)
                        (λ c l.
                          channel_loop-IsOver before after fuel data_processed c l.0
                            (ap queued l.1 ∙ q) (omega (arith, h)))
                ]
            good)

    -- The events behind the channel's, and the polls behind this one, are no longer looked at.
    pub thread_loop-IsOver :
        (before after : List ChannelMessage) (fuel : ℕ) (events : List ℕ)
        (batches : List (Option (List ℕ))) (ctx : TracerContext p)
        → Sound p queued cell ctx
        → queued ctx.rec ≡ before ++ terminate ∷ after
        → length before < fuel
        → Total IsOver (thread_loop p fuel (some (chan_token ∷ events) ∷ batches) ctx)
    unfolding thread_loop event_handler channel_handler
    thread_loop-IsOver before after fuel events batches ctx s e h =
        Total-bind IsOver IsOver (event_handler fuel (chan_token ∷ events) normal ctx) _
          (Total-bind IsOver IsOver (channel_loop fuel normal ctx) _
            (channel_loop-IsOver before after fuel normal ctx s e h)
            (λ (state, c) l. IsOver-stops _ _ state c l))
          (λ (state, c) l. IsOver-stops _ _ state c l)
