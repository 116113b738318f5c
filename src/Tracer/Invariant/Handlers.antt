-- ===== src/Tracer/Invariant/Handlers.antt =====
-- The timers and `close_and_clean_connection` of src/lib.rs keep the invariant.
use libtracy.Common.{
  refl, Bool, true, false, List, Option, none, some, is_some, if◌then◌else◌, done, panic, Ensures,
  Ensures-mono, arith,
}
use libtracy.Platform.{Platform}
use libtracy.Tracer.HashMap.{values}
use libtracy.Tracer.Flags.{
  store, store_all, length-store, length-store_all, load-store_self_false, store_all-load-false,
}
use libtracy.Tracer.Context.{
  udp_timeout_ident, check_start_udp_timer, TracerContext, clean_connection,
  close_and_clean_connection,
}
use libtracy.Tracer.Invariant.{Inv, Keeps-trans, IsAfter}

module _ {p : Platform} where
  -- Timers, platform and queue are not the invariant's concern.
  pub timers-IsAfter :
      (ctx0 ctx : TracerContext p) (timer : p.Timer) (queue udp : Option p.Timeout) (net : p.Net)
      → IsAfter ctx0 ctx
      → IsAfter ctx0
          (record ctx { timer = timer; queue_timeout = queue; udp_timeout = udp; net = net })
  timers-IsAfter ctx0 ctx timer queue udp net (v, k) = (
    record {
      online = v.online;
      cell = v.cell;
      apart = v.apart;
      names = v.names;
      sendable = v.sendable;
      addressed = v.addressed;
    },
    record {
      same_cfg = k.same_cfg;
      same_occupancy = k.same_occupancy;
      same_rec = k.same_rec;
      same_sock = k.same_sock;
      same_cell = k.same_cell;
      same_tracepoints = k.same_tracepoints;
      same_sequence = k.same_sequence;
    },
  )

  pub start_udp-IsAfter :
      (ctx0 ctx : TracerContext p) → IsAfter ctx0 ctx → IsAfter ctx0 (check_start_udp_timer ctx)
  unfolding check_start_udp_timer
  start_udp-IsAfter ctx0 ctx h =
      let set = p.set_timeout ctx.timer ctx.app_cfg.announce_interval udp_timeout_ident in
      elim (is_some ctx.udp_timeout)
        as (λ b.
          IsAfter ctx0
            (if b then ctx else record ctx { timer = set.1; udp_timeout = some set.0 })) [
              | true ↦ h
              | false ↦ timers-IsAfter ctx0 ctx set.1 ctx.queue_timeout (some set.0) ctx.net h
            ]

  cleared-IsAfter :
      (ctx : TracerContext p) (timer : p.Timer) (net : p.Net)
      → Inv ctx
      → IsAfter ctx (record ctx {
        timer = timer;
        queue_timeout = none;
        connection = none;
        net = net;
        flags =
            store_all (store ctx.flags ctx.client_connected false) (values ctx.tracepoints) false;
      })
  cleared-IsAfter ctx timer net v =
      let cells : List Bool = store ctx.flags ctx.client_connected false in
      (
        record {
          online =
              store_all-load-false cells (values ctx.tracepoints) ctx.client_connected
                (load-store_self_false ctx.flags ctx.client_connected);
          cell = omega (
            arith,
            v.cell,
            length-store_all cells (values ctx.tracepoints) false,
            length-store ctx.flags ctx.client_connected false,
          );
          apart = v.apart;
          names = v.names;
          sendable = v.sendable;
          addressed = v.addressed;
        },
        record {
          same_cfg = refl;
          same_occupancy = refl;
          same_rec = refl;
          same_sock = refl;
          same_cell = refl;
          same_tracepoints = refl;
          same_sequence = refl;
        },
      )

  clean-IsAfter :
      (ctx : TracerContext p) (stream : p.TcpStream)
      → Inv ctx
      → IsAfter ctx (
          clean_connection
            (record ctx { flags = store ctx.flags ctx.client_connected false })
            stream)
  clean-IsAfter ctx stream v =
      unfold clean_connection in start_udp-IsAfter ctx _ (cleared-IsAfter ctx _ _ v)

  -- Closing keeps the invariant.
  pub close-IsAfter :
      (ctx : TracerContext p) → Inv ctx → Ensures (IsAfter ctx) (close_and_clean_connection ctx)
  unfolding close_and_clean_connection
  close-IsAfter ctx v =
      let ctx1 : TracerContext p = record ctx {
        flags = store ctx.flags ctx.client_connected false;
      } in
      elim ctx.connection
        as (λ c.
          Ensures (IsAfter ctx)
            (elim c [ none ↦ panic | some stream ↦ done (clean_connection ctx1 stream) ])) [
              | none ↦ tt
              | some stream ↦ clean-IsAfter ctx stream v
            ]

  pub close-IsAfter_from :
      (ctx0 ctx : TracerContext p)
      → IsAfter ctx0 ctx
      → Ensures (IsAfter ctx0) (close_and_clean_connection ctx)
  close-IsAfter_from ctx0 ctx (v, k) =
      Ensures-mono (IsAfter ctx) (IsAfter ctx0) (close_and_clean_connection ctx)
        (close-IsAfter ctx v) λ c (w, l). (w, Keeps-trans ctx0 ctx c k l)
