-- ===== src/Tracer/Invariant/Loop.antt =====
-- The tracer thread of src/lib.rs keeps the invariant, from its start to its end.
use mathlib.Core.Path.{subst}
use libtracy.Common.{
  ℕ, zero, suc, ◌≡◌, refl, sym, true, false, List, [], ◌∷◌, Option, none, some, is_some, All, done,
  ◌>>=◌, Ensures, Ensures-bind, ◌==◌, Bool-cases, inl, inr, if◌then◌else◌,
}
use libtracy.Platform.{Arc, Platform, ChannelMessage, payload, new_tracepoint, terminate}
use libtracy.Tracer.Context.{TracerContext, insert_tracepoint, check_stop_udp_timer}
use libtracy.Tracer.Receiver.{receive, establish_connection}
use libtracy.Tracer.Thread.{
  TracerState, normal, terminated, data_processed, channel_data_handler, last_words, channel_loop,
  channel_handler, timer_handler, on_connect, event_handler, thread_loop, chan_token, timer_token,
  con_new_token, con_data_token,
}
use libtracy.Tracer.Invariant.{Inv, IsGood}
use libtracy.Tracer.Invariant.Reading.{receive-IsAfter}
use libtracy.Tracer.Invariant.Events.{
  Fifo, Sound, Ensures-Leaves, Ensures-IsAfter, timers-Sound, channel_data_handler-Sound,
  last_words-Sound, timer_handler-Sound,
}
use libtracy.Tracer.Invariant.Calls.{establish-Leaves, insert-Inv}

pub received_rec-Inv :
    {p : Platform} (ctx : TracerContext p) (rec : p.Channel)
    → Inv ctx
    → Inv (record ctx { rec = rec })
received_rec-Inv ctx rec v = record {
  online = v.online;
  cell = v.cell;
  apart = v.apart;
  names = v.names;
  sendable = v.sendable;
  addressed = v.addressed;
}

module _ (p : Platform) (queued : p.Channel → List ChannelMessage) (cell : Arc)
    (fifo : (c : p.Channel) → Fifo p queued c) where
  abbrev pub SoundState : TracerState × TracerContext p → Type 0
  SoundState r = Sound p queued cell r.1

  -- What holds of the messages in the channel holds of the one received and of those left.
  received-All :
      (P : ChannelMessage → Type 0) (c : p.Channel)
      → All P (queued c)
      → All P (queued (p.try_recv c).1) × ((m : ChannelMessage) → (p.try_recv c).0 ≡ some m → P m)
  received-All P c h =
      elim (queued c)
          as (λ q.
            queued c ≡ q
            → All P q
            → All P (queued (p.try_recv c).1)
              × ((m : ChannelMessage) → (p.try_recv c).0 ≡ some m → P m)) [
                | [] ↦ λ e _.
                    let (n, q) = (fifo c).empty_none e in
                    (subst (All P) (sym q) tt, λ m f. absurd (cc (n, f)))
                | m ∷ ms ↦ λ e g.
                    let (n, q) = (fifo c).first_some m ms e in
                    (
                      subst (All P) (sym q) g.1,
                      λ m' f. let same : m ≡ m' = cc (n, f) in subst P same g.0,
                    )
              ]
        refl h

  channel_loop-Sound :
      (fuel : ℕ) (ret : TracerState) (ctx : TracerContext p)
      → Sound p queued cell ctx
      → Ensures SoundState (channel_loop fuel ret ctx)
  unfolding channel_loop insert_tracepoint
  channel_loop-Sound zero ret ctx s = tt
  channel_loop-Sound (suc fuel) ret ctx s =
      let ctx1 : TracerContext p = record ctx { rec = (p.try_recv ctx.rec).1 } in
      let received = received-All (IsGood ctx.client_connected) ctx.rec s.1.good in
      let s1 : Sound p queued cell ctx1 = (
        received_rec-Inv ctx (p.try_recv ctx.rec).1 s.0,
        (record { good = received.0; given = s.1.given }),
      ) in
      elim (p.try_recv ctx.rec).0
          as (λ message.
            ((m : ChannelMessage) → message ≡ some m → IsGood ctx.client_connected m)
            → Ensures SoundState (elim message [
              | none ↦ done (ret, ctx1)
              | some terminate ↦ do ctx2 ← last_words ctx1; done (terminated, ctx2)
              | some (new_tracepoint tracepoint) ↦
                  channel_loop fuel data_processed (insert_tracepoint ctx1 tracepoint)
              | some (payload element) ↦ do
                ctx2 ← channel_data_handler ctx1 element
                channel_loop fuel data_processed ctx2
            ])) [
              | none ↦ λ _. s1
              | some terminate ↦ λ _.
                  Ensures-bind (Sound p queued cell) SoundState (last_words ctx1)
                    (λ c. done (terminated, c)) (last_words-Sound p queued cell ctx1 s1) (λ c h. h)
              | some (new_tracepoint tracepoint) ↦ λ g.
                  channel_loop-Sound fuel data_processed (insert_tracepoint ctx1 tracepoint)
                    (insert-Inv ctx1 tracepoint s1.0 (g (new_tracepoint tracepoint) refl), s1.1)
              | some (payload element) ↦ λ g.
                  Ensures-bind (Sound p queued cell) SoundState (channel_data_handler ctx1 element)
                    (λ c. channel_loop fuel data_processed c)
                    (channel_data_handler-Sound p queued cell ctx1 element s1
                      (g (payload element) refl))
                    (λ c h. channel_loop-Sound fuel data_processed c h)
            ]
        received.1

  channel_handler-Sound :
      (fuel : ℕ) (ctx : TracerContext p)
      → Sound p queued cell ctx
      → Ensures SoundState (channel_handler fuel ctx)
  channel_handler-Sound fuel ctx s = unfold channel_handler in channel_loop-Sound fuel normal ctx s

  on_connect-Sound :
      (ctx : TracerContext p)
      → Sound p queued cell ctx
      → Ensures (Sound p queued cell) (on_connect ctx)
  unfolding on_connect check_stop_udp_timer
  on_connect-Sound ctx s =
      elim (is_some ctx.connection)
        as (λ b. Ensures (Sound p queued cell) (
          if b
          then done ctx
          else (establish_connection ctx >>= λ ctx'. done (check_stop_udp_timer ctx')))) [
            | true ↦ s
            | false ↦
                Ensures-bind (Sound p queued cell) (Sound p queued cell) (establish_connection ctx)
                  (λ c. done (check_stop_udp_timer c))
                  (Ensures-Leaves p queued cell ctx (establish_connection ctx) s
                    (establish-Leaves ctx s.0))
                  (λ c h. timers-Sound p queued cell c _ c.queue_timeout none h)
          ]

  pub event_handler-Sound :
      (fuel : ℕ) (events : List ℕ) (ret : TracerState) (ctx : TracerContext p)
      → Sound p queued cell ctx
      → Ensures SoundState (event_handler fuel events ret ctx)
  unfolding event_handler
  event_handler-Sound fuel [] ret ctx s = s
  event_handler-Sound fuel (token ∷ events) ret ctx s =
      let go_on = λ (ctx' : TracerContext p). event_handler fuel events ret ctx' in
      let rest = λ (c : TracerContext p) (h : Sound p queued cell c).
        event_handler-Sound fuel events ret c h in
      elim (Bool-cases (token == chan_token)) [
        | inl e ↦ rw e (
            Ensures-bind SoundState SoundState (channel_handler fuel ctx) _
              (channel_handler-Sound fuel ctx s)
              λ (state, c) h.
                elim state
                  as (λ st. Ensures SoundState (elim st [
                    | terminated ↦ done (terminated, c)
                    | normal ↦ event_handler fuel events normal c
                    | data_processed ↦ event_handler fuel events data_processed c
                  ])) [
                    | terminated ↦ h
                    | normal ↦ event_handler-Sound fuel events normal c h
                    | data_processed ↦ event_handler-Sound fuel events data_processed c h
                  ])
        | inr e1 ↦ elim (Bool-cases (token == timer_token)) [
          | inl e ↦
              rw (e1, e)
                (Ensures-bind (Sound p queued cell) SoundState (timer_handler fuel ctx) go_on
                  (timer_handler-Sound p queued cell fuel ctx s) rest)
          | inr e2 ↦ elim (Bool-cases (token == con_new_token)) [
            | inl e ↦
                rw (e1, e2, e)
                  (Ensures-bind (Sound p queued cell) SoundState (on_connect ctx) go_on
                    (on_connect-Sound ctx s) rest)
            | inr e3 ↦ elim (Bool-cases (token == con_data_token)) [
              | inl e ↦
                  rw (e1, e2, e3, e)
                    (Ensures-bind (Sound p queued cell) SoundState (receive fuel ctx) go_on
                      (Ensures-IsAfter p queued cell ctx (receive fuel ctx) s
                        (receive-IsAfter fuel ctx s.0))
                      rest)
              | inr e4 ↦ rw (e1, e2, e3, e4) (rest ctx s)
            ]
          ]
        ]
      ]

  -- The loop of the thread keeps the invariant, whatever the network does.
  pub thread_loop-Sound :
      (fuel : ℕ) (batches : List (Option (List ℕ))) (ctx : TracerContext p)
      → Sound p queued cell ctx
      → Ensures SoundState (thread_loop p fuel batches ctx)
  unfolding thread_loop
  thread_loop-Sound fuel [] ctx s = s
  thread_loop-Sound fuel (none ∷ batches) ctx s = tt
  thread_loop-Sound fuel (some events ∷ batches) ctx s =
      Ensures-bind SoundState SoundState (event_handler fuel events normal ctx) _
        (event_handler-Sound fuel events normal ctx s)
        λ (state, c) h.
          elim state
            as (λ st. Ensures SoundState (elim st [
              | terminated ↦ done (terminated, c)
              | normal ↦ thread_loop p fuel batches c
              | data_processed ↦ thread_loop p fuel batches c
            ])) [
              | terminated ↦ h
              | normal ↦ thread_loop-Sound fuel batches c h
              | data_processed ↦ thread_loop-Sound fuel batches c h
            ]
