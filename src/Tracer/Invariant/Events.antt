-- ===== src/Tracer/Invariant/Events.antt =====
-- The handlers of src/lib.rs keep the invariant, and with it the thread.
use mathlib.Core.Path.{subst}
use libtracy.Common.{
  ℕ, zero, suc, ◌≡◌, sym, true, false, List, [], ◌∷◌, Option, none, some, is_some, All, Outcome,
  done, ◌>>=◌, Ensures, Ensures-bind, Ensures-mono, ltb, ◌==◌, Bool-cases, inl, inr, if◌then◌else◌,
}
use libtracy.Wire.Element.{BufferElement}
use libtracy.Platform.{Platform, Arc, ChannelMessage}
use libtracy.Tracer.Context.{
  TracerContext, append, check_start_queue_timer, queue_total_size, queue_timeout_ident,
  udp_timeout_ident, check_stop_queue_timer, check_start_udp_timer,
}
use libtracy.Tracer.Sender.{send_trace_data}
use libtracy.Tracer.Sender.Groups.{Sendable}
use libtracy.Tracer.Beacon.{announce_tracer}
use libtracy.Tracer.Thread.{channel_data_handler, last_words, on_timeout, timer_handler}
use libtracy.Tracer.Invariant.{Inv, Keeps-refl, IsAfter, IsGood}
use libtracy.Tracer.Invariant.Handlers.{timers-IsAfter, start_udp-IsAfter}
use libtracy.Tracer.Invariant.Sending.{send_trace_data-IsAfter}
use libtracy.Tracer.Invariant.Calls.{Leaves, Leaves-IsAfter, announce-Leaves, append-Inv}

module _ (p : Platform) (queued : p.Channel → List ChannelMessage) where
  -- The channel hands out what it holds, in order, and changes in nothing else.
  pub record Fifo (c : p.Channel) : Type 0 where
    pub empty_none : queued c ≡ [] → ((p.try_recv c).0 ≡ none) × (queued (p.try_recv c).1 ≡ [])
    pub first_some :
        (m : ChannelMessage) (ms : List ChannelMessage)
        → queued c ≡ m ∷ ms
        → ((p.try_recv c).0 ≡ some m) × (queued (p.try_recv c).1 ≡ ms)

module _ (p : Platform) (queued : p.Channel → List ChannelMessage) (cell : Arc) where
  -- Messages in the channel that are the application's, and the cell that the thread was given.
  pub record IsGiven (rec : p.Channel) (client_connected : Arc) : Type 0 where
    pub good : All (IsGood client_connected) (queued rec)
    pub given : client_connected ≡ cell

  -- The invariant, with such a channel and cell.
  abbrev pub Sound : TracerContext p → Type 0
  Sound ctx = Inv ctx × IsGiven ctx.rec ctx.client_connected

  pub Leaves-Sound : (ctx ctx' : TracerContext p) → Sound ctx → Leaves ctx ctx' → Sound ctx'
  Leaves-Sound ctx ctx' (v, g) (v', r, c) = (
    v',
    subst (λ a. IsGiven ctx'.rec a) (sym c) (subst (λ x. IsGiven x ctx.client_connected) (sym r) g),
  )

  pub Ensures-Leaves :
      (ctx : TracerContext p) (m : Outcome (TracerContext p))
      → Sound ctx
      → Ensures (Leaves ctx) m
      → Ensures Sound m
  Ensures-Leaves ctx m s h = Ensures-mono (Leaves ctx) Sound m h (λ c l. Leaves-Sound ctx c s l)

  pub Ensures-IsAfter :
      (ctx : TracerContext p) (m : Outcome (TracerContext p))
      → Sound ctx
      → Ensures (IsAfter ctx) m
      → Ensures Sound m
  Ensures-IsAfter ctx m s h =
      Ensures-mono (IsAfter ctx) Sound m h (λ c l. Leaves-Sound ctx c s (Leaves-IsAfter ctx c l))

  pub timers-Sound :
      (ctx : TracerContext p) (timer : p.Timer) (queue udp : Option p.Timeout)
      → Sound ctx
      → Sound (record ctx { timer = timer; queue_timeout = queue; udp_timeout = udp })
  timers-Sound ctx timer queue udp s =
      Leaves-Sound ctx (record ctx { timer = timer; queue_timeout = queue; udp_timeout = udp }) s
        (Leaves-IsAfter ctx (record ctx { timer = timer; queue_timeout = queue; udp_timeout = udp })
          (timers-IsAfter ctx ctx timer queue udp ctx.net (s.0, Keeps-refl ctx)))

  pub send_trace_data-Sound :
      (ctx : TracerContext p) → Sound ctx → Ensures Sound (send_trace_data ctx)
  send_trace_data-Sound ctx s =
      Ensures-IsAfter ctx (send_trace_data ctx) s
        (send_trace_data-IsAfter ctx ctx (s.0, Keeps-refl ctx))

  pub start_queue-Sound : (ctx : TracerContext p) → Sound ctx → Sound (check_start_queue_timer ctx)
  unfolding check_start_queue_timer
  start_queue-Sound ctx s =
      let set = p.set_timeout ctx.timer ctx.app_cfg.send_interval queue_timeout_ident in
      elim (is_some ctx.queue_timeout)
        as (λ b.
          Sound (if b then ctx else record ctx { timer = set.1; queue_timeout = some set.0 })) [
            | true ↦ s
            | false ↦ timers-Sound ctx set.1 (some set.0) ctx.udp_timeout s
          ]

  pub channel_data_handler-Sound :
      (ctx : TracerContext p) (element : BufferElement)
      → Sound ctx
      → Sendable element
      → Ensures Sound (channel_data_handler ctx element)
  unfolding channel_data_handler append check_stop_queue_timer
  channel_data_handler-Sound ctx element (v, good) h =
      let ctx1 : TracerContext p = append ctx element in
      let s1 : Sound ctx1 = (append-Inv ctx element v h, good) in
      elim (ltb queue_total_size ctx1.buffer_occupancy)
        as (λ b. Ensures Sound (
          if b
          then send_trace_data (check_stop_queue_timer ctx1)
          else done (check_start_queue_timer ctx1))) [
            | true ↦
                send_trace_data-Sound (check_stop_queue_timer ctx1)
                  (timers-Sound ctx1 _ none ctx1.udp_timeout s1)
            | false ↦ start_queue-Sound ctx1 s1
          ]

  pub last_words-Sound : (ctx : TracerContext p) → Sound ctx → Ensures Sound (last_words ctx)
  unfolding last_words
  last_words-Sound ctx s =
      elim (is_some ctx.connection)
        as (λ b. Ensures Sound (if b then send_trace_data ctx else done ctx)) [
          | true ↦ send_trace_data-Sound ctx s
          | false ↦ s
        ]

  pub on_timeout-Sound :
      (ident : ℕ) (ctx : TracerContext p) → Sound ctx → Ensures Sound (on_timeout ident ctx)
  unfolding on_timeout
  on_timeout-Sound ident ctx s =
      let queue : TracerContext p = record ctx { queue_timeout = none } in
      let udp : TracerContext p = record ctx { udp_timeout = none } in
      let queue_s : Sound queue = timers-Sound ctx ctx.timer none ctx.udp_timeout s in
      let udp_s : Sound udp = timers-Sound ctx ctx.timer ctx.queue_timeout none s in
      elim (Bool-cases (ident == queue_timeout_ident)) [
        | inl e ↦ rw e (send_trace_data-Sound queue queue_s)
        | inr e ↦ elim (Bool-cases (ident == udp_timeout_ident)) [
          | inl f ↦
              rw (e, f)
                (Ensures-bind Sound Sound (announce_tracer udp)
                  (λ c. done (check_start_udp_timer c))
                  (Ensures-Leaves udp (announce_tracer udp) udp_s (announce-Leaves udp udp_s.0))
                  (λ c h. Leaves-Sound c (check_start_udp_timer c) h (
                    Leaves-IsAfter c (check_start_udp_timer c)
                      (start_udp-IsAfter c c (h.0, Keeps-refl c)))))
          | inr f ↦ rw (e, f) s
        ]
      ]

  pub timer_handler-Sound :
      (fuel : ℕ) (ctx : TracerContext p) → Sound ctx → Ensures Sound (timer_handler fuel ctx)
  unfolding timer_handler
  timer_handler-Sound zero ctx s = tt
  timer_handler-Sound (suc fuel) ctx s =
      let (timeout, timer) = p.poll_timer ctx.timer in
      let ctx1 : TracerContext p = record ctx { timer = timer } in
      let s1 : Sound ctx1 = timers-Sound ctx timer ctx.queue_timeout ctx.udp_timeout s in
      elim timeout
        as (λ t. Ensures Sound (elim t [
          | none ↦ done ctx1
          | some ident ↦ on_timeout ident ctx1 >>= timer_handler fuel
        ])) [
          | none ↦ s1
          | some ident ↦
              Ensures-bind Sound Sound (on_timeout ident ctx1) (timer_handler fuel)
                (on_timeout-Sound ident ctx1 s1) (λ c h. timer_handler-Sound fuel c h)
        ]
