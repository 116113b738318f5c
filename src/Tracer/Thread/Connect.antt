-- ===== src/Tracer/Thread/Connect.antt =====
-- src/lib.rs: what a readable listener does.
use libtracy.Common.{
  ◌≡◌, ◌⊎◌, ◌∙◌, refl, true, false, none, some, done, panic, arith, Option-cases, inl, inr,
  Bool-cases,
}
use libtracy.Platform.{Platform}
use libtracy.Tracer.Flags.{store}
use libtracy.Tracer.Context.Timers.{IsStopped, check_stop_udp_timer-IsStopped}
use libtracy.Tracer.Context.{TracerContext, check_stop_udp_timer}
use libtracy.Tracer.Receiver.{establish_connection}
use libtracy.Tracer.Thread.{on_connect}

module _ {p : Platform} where
  -- With a client, a second one is not even accepted.
  pub on_connect-busy :
      (ctx : TracerContext p) (stream : p.TcpStream)
      → ctx.connection ≡ some stream
      → on_connect ctx ≡ done ctx
  unfolding on_connect
  on_connect-busy ctx stream h = rw h

  stop-buffer : (ctx : TracerContext p) → (check_stop_udp_timer ctx).buffer ≡ ctx.buffer
  unfolding check_stop_udp_timer
  stop-buffer ctx = refl

  stop-connection : (ctx : TracerContext p) → (check_stop_udp_timer ctx).connection ≡ ctx.connection
  unfolding check_stop_udp_timer
  stop-connection ctx = refl

  stop-flags : (ctx : TracerContext p) → (check_stop_udp_timer ctx).flags ≡ ctx.flags
  unfolding check_stop_udp_timer
  stop-flags ctx = refl

  stop-net : (ctx : TracerContext p) → (check_stop_udp_timer ctx).net ≡ ctx.net
  unfolding check_stop_udp_timer
  stop-net ctx = refl

  -- What a readable listener leaves in both cases that are no panic.
  abbrev pub Silent : TracerContext p → TracerContext p → Type 0
  Silent ctx ctx' =
      IsStopped p ctx.timer ctx.udp_timeout ctx'.timer ctx'.udp_timeout × (ctx'.buffer ≡ ctx.buffer)

  -- Without a client: where no client can be accepted, there is none afterwards and no flag is changed;
  -- where the one that was accepted can be cloned and the copy be registered, it is the connection and
  -- the shared flag is set; else the thread panics. In both of the former cases a beacon timeout that
  -- was held is cancelled in the timer and none is held, and the buffer is kept.
  pub on_connect_cases :
      (ctx : TracerContext p)
      → ctx.connection ≡ none
      → let (accepted, net) = p.accept ctx.listener ctx.net in
        ((accepted ≡ none)
          × ((ctx' : TracerContext p) × (on_connect ctx ≡ done ctx')
              × Silent ctx ctx'
              × (ctx'.connection ≡ none)
              × (ctx'.flags ≡ ctx.flags)
              × (ctx'.net ≡ net)))
        ⊎ ((socket : p.TcpStream) × (accepted ≡ some socket)
            × ((p.try_clone socket net).0 ≡ none)
            × (on_connect ctx ≡ panic))
        ⊎ ((socket copy : p.TcpStream) × (accepted ≡ some socket)
            × ((p.try_clone socket net).0 ≡ some copy)
            × ((p.register copy (p.try_clone socket net).1).0 ≡ false)
            × (on_connect ctx ≡ panic))
        ⊎ ((socket copy : p.TcpStream) × (accepted ≡ some socket)
            × ((p.try_clone socket net).0 ≡ some copy)
            × ((p.register copy (p.try_clone socket net).1).0 ≡ true)
            × ((ctx' : TracerContext p) × (on_connect ctx ≡ done ctx')
                × Silent ctx ctx'
                × (ctx'.connection ≡ some socket)
                × (ctx'.flags ≡ store ctx.flags ctx.client_connected true)
                × (ctx'.net ≡ (p.register copy (p.try_clone socket net).1).1)))
  unfolding on_connect establish_connection
  on_connect_cases ctx h =
      let net = (p.accept ctx.listener ctx.net).1 in
      elim (Option-cases (p.accept ctx.listener ctx.net).0) [
        | inl e ↦
            let found : TracerContext p = record ctx { net = net } in
            inl (
              e,
              (
                check_stop_udp_timer found,
                ground arith,
                (check_stop_udp_timer-IsStopped found, stop-buffer found),
                stop-connection found ∙ h,
                stop-flags found,
                stop-net found,
              ),
            )
        | inr (socket, e) ↦ elim (Option-cases (p.try_clone socket net).0) [
          | inl f ↦ inr (inl (socket, e, f, ground arith))
          | inr (copy, f) ↦ elim (Bool-cases (p.register copy (p.try_clone socket net).1).0) [
            | inr g ↦ inr (inr (inl (socket, copy, e, f, g, ground arith)))
            | inl g ↦
                let found : TracerContext p = record ctx {
                  net = (p.register copy (p.try_clone socket net).1).1;
                  connection = some socket;
                  flags = store ctx.flags ctx.client_connected true;
                } in
                inr (
                  inr (
                    inr (
                      socket,
                      copy,
                      e,
                      f,
                      g,
                      (
                        check_stop_udp_timer found,
                        ground arith,
                        (check_stop_udp_timer-IsStopped found, stop-buffer found),
                        stop-connection found,
                        stop-flags found,
                        stop-net found,
                      ),
                    )))
          ]
        ]
      ]
