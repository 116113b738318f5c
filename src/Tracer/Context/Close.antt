-- ===== src/Tracer/Context/Close.antt =====
-- src/lib.rs: what `close_and_clean_connection` leaves behind.
use mathlib.Core.Path.{subst}
use libtracy.Common.{
  sym, refl, ℕ, ◌≡◌, ◌⊎◌, Bool, true, false, List, [], ◌∷◌, none, some, arith, is_some, done, panic,
  Option-cases, inl, inr,
}
use libtracy.Platform.{Platform, Arc}
use libtracy.Tracer.HashMap.{get, values}
use libtracy.Tracer.Flags.{load, store, store_all, load-store_self_false, store_all-load-false}
use libtracy.Tracer.Context.Timers.{
  IsArmed, IsStopped, check_stop_queue_timer-IsStopped, check_start_udp_timer-IsArmed,
}
use libtracy.Tracer.Context.{
  udp_timeout_ident, check_start_udp_timer, check_stop_queue_timer, leave_poll, TracerContext,
  clean_connection, close_and_clean_connection,
}

-- The flag of every tracepoint in the map is switched off.
pub store_all-get :
    (m : List (List ℕ × Arc)) (cells : List Bool) (k : List ℕ) (a : Arc)
    → get k m ≡ some a
    → load (store_all cells (values m) false) a ≡ false
unfolding get values store_all
store_all-get [] cells k a h = cc
store_all-get ((j, w) ∷ m) cells k a h = ground (
  arith,
  store_all-get m (store cells w false) k a,
  store_all-load-false (store cells w false) (values m) w (load-store_self_false cells w),
)

module _ {p : Platform} where
  -- No client, and nothing of the last one is left but the buffer.
  pub record IsOffline (ctx : TracerContext p) : Type 0 where
    pub alone : ctx.connection ≡ none
    pub disconnected : load ctx.flags ctx.client_connected ≡ false
    pub disabled :
        (k : List ℕ) (a : Arc) → get k ctx.tracepoints ≡ some a → load ctx.flags a ≡ false
    pub quiet : ctx.queue_timeout ≡ none
    pub announcing : is_some ctx.udp_timeout ≡ true

  clean_connection-IsOffline :
      (ctx : TracerContext p) (stream : p.TcpStream)
      → load ctx.flags ctx.client_connected ≡ false
      → IsOffline (clean_connection ctx stream)
  unfolding clean_connection
  clean_connection-IsOffline ctx stream h = record {
    alone = ground arith;
    disconnected =
        ground
          (arith, store_all-load-false ctx.flags (values ctx.tracepoints) ctx.client_connected h);
    disabled = λ k a e. ground (arith, store_all-get ctx.tracepoints ctx.flags k a);
    quiet = ground arith;
    announcing = ground arith;
  }

  -- The queue timeout is stopped first, and the beacon's is armed then.
  abbrev pub Retimed : TracerContext p → TracerContext p → Type 0
  Retimed ctx ctx' =
      (timer : p.Timer) × IsStopped p ctx.timer ctx.queue_timeout timer ctx'.queue_timeout
      × IsArmed p timer ctx.udp_timeout ctx.app_cfg.announce_interval udp_timeout_ident ctx'.timer
          ctx'.udp_timeout

  start_udp-queue :
      (ctx : TracerContext p) → (check_start_udp_timer ctx).queue_timeout ≡ ctx.queue_timeout
  unfolding check_start_udp_timer
  start_udp-queue ctx = ground arith

  stop_queue-udp :
      (ctx : TracerContext p) → (check_stop_queue_timer ctx).udp_timeout ≡ ctx.udp_timeout
  unfolding check_stop_queue_timer
  stop_queue-udp ctx = refl

  clean_connection-Retimed :
      (ctx : TracerContext p) (stream : p.TcpStream) → Retimed ctx (clean_connection ctx stream)
  unfolding clean_connection
  clean_connection-Retimed ctx stream =
      let ctx1 : TracerContext p = record ctx {
        net = leave_poll p stream ctx.net;
        connection = none;
      } in
      let ctx2 : TracerContext p = check_stop_queue_timer ctx1 in
      let ctx3 : TracerContext p = record ctx2 {
        flags = store_all ctx2.flags (values ctx2.tracepoints) false;
      } in
      (
        ctx2.timer,
        subst (IsStopped p ctx.timer ctx.queue_timeout ctx2.timer) (sym (start_udp-queue ctx3))
            (check_stop_queue_timer-IsStopped ctx1),
        subst
            (λ held.
              IsArmed p ctx2.timer held ctx.app_cfg.announce_interval udp_timeout_ident
                (check_start_udp_timer ctx3).timer (check_start_udp_timer ctx3).udp_timeout)
            (stop_queue-udp ctx1) (check_start_udp_timer-IsArmed ctx3),
      )

  pub clean_connection-net :
      (ctx : TracerContext p) (stream : p.TcpStream)
      → (clean_connection ctx stream).net ≡ (elim (p.try_clone stream ctx.net).0 [
        | none ↦ (p.try_clone stream ctx.net).1
        | some tmp ↦ p.deregister tmp (p.try_clone stream ctx.net).1
      ])
  unfolding clean_connection check_start_udp_timer check_stop_queue_timer leave_poll
  clean_connection-net ctx stream = elim (Option-cases ctx.udp_timeout) [
    | inl e ↦ ground arith
    | inr (_, e) ↦ ground arith
  ]

  -- Closing ends exactly if there is a connection; where there is none it panics. Afterwards the client
  -- counts as gone and no tracepoint is enabled; a queue timeout that was held is cancelled in the timer
  -- and none is held; a beacon timeout is held, the one that was or a new one, set with the interval for
  -- announcing; the connection is taken out of `poll` if it can be cloned; the buffer, the counted
  -- bytes and the map are kept.
  pub close_cases :
      (ctx : TracerContext p)
      → ((ctx.connection ≡ none) × (close_and_clean_connection ctx ≡ panic))
        ⊎ ((stream : p.TcpStream) × (ctx' : TracerContext p) × (ctx.connection ≡ some stream)
            × (close_and_clean_connection ctx ≡ done ctx')
            × IsOffline ctx'
            × (ctx'.buffer ≡ ctx.buffer)
            × (ctx'.buffer_occupancy ≡ ctx.buffer_occupancy)
            × (ctx'.tracepoints ≡ ctx.tracepoints)
            × Retimed ctx ctx'
            × (ctx'.net ≡ (elim (p.try_clone stream ctx.net).0 [
              | none ↦ (p.try_clone stream ctx.net).1
              | some tmp ↦ p.deregister tmp (p.try_clone stream ctx.net).1
            ])))
  unfolding close_and_clean_connection
  close_cases ctx = elim (Option-cases ctx.connection) [
    | inl e ↦ inl (e, ground arith)
    | inr (stream, e) ↦
        let ctx1 : TracerContext p = record ctx {
          flags = store ctx.flags ctx.client_connected false;
        } in
        inr (
          stream,
          clean_connection ctx1 stream,
          e,
          ground arith,
          clean_connection-IsOffline ctx1 stream
              (load-store_self_false ctx.flags ctx.client_connected),
          ground arith,
          ground arith,
          ground arith,
          clean_connection-Retimed ctx1 stream,
          clean_connection-net ctx1 stream,
        )
  ]

  pub close_none :
      (ctx : TracerContext p) → ctx.connection ≡ none → close_and_clean_connection ctx ≡ panic
  unfolding close_and_clean_connection
  close_none ctx h = ground arith

  pub close_some :
      (ctx : TracerContext p) (stream : p.TcpStream)
      → ctx.connection ≡ some stream
      → (ctx' : TracerContext p) × (close_and_clean_connection ctx ≡ done ctx')
        × IsOffline ctx'
        × (ctx'.buffer ≡ ctx.buffer)
        × (ctx'.tracepoints ≡ ctx.tracepoints)
  close_some ctx stream h = elim (close_cases ctx) [
    | inl (e, _) ↦ cc
    | inr (_, ctx', _, r, off, kept, _, names, _, _) ↦ (ctx', r, off, kept, names)
  ]
