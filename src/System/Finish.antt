-- ===== src/System/Finish.antt =====
-- src/lib.rs: `tracy_finit` ends the tracer thread.
use mathlib.Core.Path.{subst}
use libtracy.Common.{
  ℕ, ◌<◌, ◌≡◌, sym, List, [], ◌∷◌, ◌++◌, some, Option, length, All, All-append, Total,
}
use libtracy.Platform.{Platform, ChannelMessage, terminate}
use libtracy.Tracer.Thread.{thread_loop, chan_token}
use libtracy.Tracer.Invariant.{IsGood}
use libtracy.Tracer.Invariant.Events.{Fifo}
use libtracy.Tracer.Invariant.Loop.{received_rec-Inv}
use libtracy.Tracer.Invariant.Ending.{IsOver, thread_loop-IsOver}
use libtracy.Api.Handle.{returned, tracy_finit, send_to_tracer}
use libtracy.System.{System, app_of}
use libtracy.System.Reach.{IsSound}

module _ (p : Platform) (queued : p.Channel → List ChannelMessage) where
  -- In a sound state, with a channel that hands out its messages in order and keeps the one that
  -- `tracy_finit` sends, and more fuel than the channel held messages: when a poll of the thread finds
  -- the channel ready first, its loop ends, whatever other events and polls would follow. It ends in
  -- a panic, or terminated and with a sound context.
  pub tracy_finit-IsOver :
      (fifo : (c : p.Channel) → Fifo p queued c) (s : System p) (fuel : ℕ) (events : List ℕ)
      (batches : List (Option (List ℕ))) (channel : p.Channel)
      → IsSound p queued s
      → tracy_finit (some (app_of s)) ≡ returned channel
      → queued (p.send s.ctx.rec terminate).1 ≡ queued s.ctx.rec ++ terminate ∷ []
      → length (queued s.ctx.rec) < fuel
      → Total (IsOver p queued s.tracey.client_connected) (
          thread_loop p fuel
            (some (chan_token ∷ events) ∷ batches)
            (record s.ctx { rec = channel }))
  unfolding tracy_finit send_to_tracer app_of
  tracy_finit-IsOver fifo s fuel events batches channel h r kept enough =
      let same : (p.send s.ctx.rec terminate).1 ≡ channel = cc r in
      let holds : queued channel ≡ queued s.ctx.rec ++ terminate ∷ [] =
        subst (λ c. queued c ≡ queued s.ctx.rec ++ terminate ∷ []) same kept in
      let good : All (IsGood s.ctx.client_connected) (queued channel) =
        subst (All (IsGood s.ctx.client_connected)) (sym holds) (
          All-append (IsGood s.ctx.client_connected) (queued s.ctx.rec) (terminate ∷ [])
            h.thread.1.good (tt, tt)) in
      thread_loop-IsOver p queued s.tracey.client_connected fifo (queued s.ctx.rec) [] fuel events
        batches (record s.ctx { rec = channel })
        (
          received_rec-Inv s.ctx channel h.thread.0,
          record { good = good; given = h.thread.1.given },
        )
        holds enough
