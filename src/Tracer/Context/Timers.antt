-- ===== src/Tracer/Context/Timers.antt =====
-- src/lib.rs: what starting and stopping do to the timer and to the timeout that is held for it.
use libtracy.Common.{ℕ, ◌≡◌, ◌⊎◌, refl, Option, none, some, arith, Option-cases, inl, inr}
use libtracy.Platform.{Platform}
use libtracy.Tracer.Context.{
  TracerContext, queue_timeout_ident, udp_timeout_ident, check_start_queue_timer,
  check_stop_queue_timer, check_start_udp_timer, check_stop_udp_timer, cancel,
}

module _ (p : Platform) (timer : p.Timer) (held : Option p.Timeout) where
  -- A timeout that is held goes on as it is; without one, a timeout of this delay and identity is set,
  -- and held.
  abbrev pub IsArmed : ℕ → ℕ → p.Timer → Option p.Timeout → Type 0
  IsArmed delay ident timer' held' =
      ((held ≡ none)
        × (timer' ≡ (p.set_timeout timer delay ident).1)
        × (held' ≡ some (p.set_timeout timer delay ident).0))
      ⊎ ((timeout : p.Timeout) × (held ≡ some timeout) × (timer' ≡ timer) × (held' ≡ some timeout))

  -- A timeout that is held is cancelled in the timer, and none is held afterwards.
  abbrev pub IsStopped : p.Timer → Option p.Timeout → Type 0
  IsStopped timer' held' =
      ((held ≡ none) × (timer' ≡ timer) × (held' ≡ none))
      ⊎ ((timeout : p.Timeout) × (held ≡ some timeout)
          × (timer' ≡ p.cancel_timeout timer timeout)
          × (held' ≡ none))

module _ {p : Platform} (ctx : TracerContext p) where
  pub check_start_queue_timer-IsArmed :
      IsArmed p ctx.timer ctx.queue_timeout ctx.app_cfg.send_interval queue_timeout_ident
        (check_start_queue_timer ctx).timer
        (check_start_queue_timer ctx).queue_timeout
  unfolding check_start_queue_timer
  check_start_queue_timer-IsArmed = elim (Option-cases ctx.queue_timeout) [
    | inl e ↦ inl (e, ground arith, ground arith)
    | inr (t, e) ↦ inr (t, e, ground arith, ground arith)
  ]

  pub check_start_udp_timer-IsArmed :
      IsArmed p ctx.timer ctx.udp_timeout ctx.app_cfg.announce_interval udp_timeout_ident
        (check_start_udp_timer ctx).timer
        (check_start_udp_timer ctx).udp_timeout
  unfolding check_start_udp_timer
  check_start_udp_timer-IsArmed = elim (Option-cases ctx.udp_timeout) [
    | inl e ↦ inl (e, ground arith, ground arith)
    | inr (t, e) ↦ inr (t, e, ground arith, ground arith)
  ]

  pub check_stop_queue_timer-IsStopped :
      IsStopped p ctx.timer ctx.queue_timeout
        (check_stop_queue_timer ctx).timer
        (check_stop_queue_timer ctx).queue_timeout
  unfolding check_stop_queue_timer cancel
  check_stop_queue_timer-IsStopped = elim (Option-cases ctx.queue_timeout) [
    | inl e ↦ inl (e, ground arith, refl)
    | inr (t, e) ↦ inr (t, e, ground arith, refl)
  ]

  pub check_stop_udp_timer-IsStopped :
      IsStopped p ctx.timer ctx.udp_timeout
        (check_stop_udp_timer ctx).timer
        (check_stop_udp_timer ctx).udp_timeout
  unfolding check_stop_udp_timer cancel
  check_stop_udp_timer-IsStopped = elim (Option-cases ctx.udp_timeout) [
    | inl e ↦ inl (e, ground arith, refl)
    | inr (t, e) ↦ inr (t, e, ground arith, refl)
  ]
