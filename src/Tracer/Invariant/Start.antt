-- ===== src/Tracer/Invariant/Start.antt =====
-- `tracer_thread_main` of src/lib.rs establishes the invariant before its loop begins.
use libtracy.Common.{
  ℕ, ◌<◌, ◌≡◌, refl, Bool, true, false, ◌&&◌, not, List, [], none, some, is_some, length, All, done,
  panic, ◌>>=◌, Ensures, Ensures-bind, if◌then◌else◌,
}
use libtracy.Platform.{Platform, Arc, ChannelMessage}
use libtracy.Tracer.HashMap.{keys, values}
use libtracy.Tracer.Flags.{load}
use libtracy.Tracer.Context.{InitData, TracerContext, check_start_udp_timer}
use libtracy.Tracer.Thread.{
  thread_start, tcp_init, udp_init, expect_registered, start_announcing, chan_token, timer_token,
  con_new_token,
}
use libtracy.Tracer.Invariant.{Inv, Keeps-refl, IsGood}
use libtracy.Tracer.Invariant.Handlers.{start_udp-IsAfter}
use libtracy.Tracer.Invariant.Events.{Leaves-Sound, Sound}
use libtracy.Tracer.Invariant.Calls.{Leaves-IsAfter}

-- What the thread is given: its cell is off, it announces only to an address, and the channel holds
-- messages of the application's.
pub record IsOffered (p : Platform) (queued : p.Channel → List ChannelMessage)
    (app_cfg : InitData p) (client_connected : Arc) (rec : p.Channel) (announce : Bool)
    (flags : List Bool) : Type 0 where
  pub off : load flags client_connected ≡ false
  pub inside : client_connected < length flags
  pub has_address : (announce && not (is_some app_cfg.announce_addr)) ≡ false
  pub good : All (IsGood client_connected) (queued rec)

module _ (p : Platform) (queued : p.Channel → List ChannelMessage) (cell : Arc) where
  registered-Sound :
      (token : ℕ) (ctx : TracerContext p)
      → Sound p queued cell ctx
      → Ensures (Sound p queued cell) (expect_registered p token ctx)
  unfolding expect_registered
  registered-Sound token ctx (v, good) =
      let (registered, net) = p.register_source token ctx.net in
      elim registered
        as (λ r.
          Ensures (Sound p queued cell) (if r then done (record ctx { net = net }) else panic)) [
            | true ↦ (
              record {
                online = v.online;
                cell = v.cell;
                apart = v.apart;
                names = v.names;
                sendable = v.sendable;
                addressed = v.addressed;
              },
              good,
            )
            | false ↦ tt
          ]

  announcing-Sound :
      (announce : Bool) (ctx : TracerContext p)
      → (announce && not (is_some ctx.app_cfg.announce_addr)) ≡ false
      → Sound p queued cell ctx
      → Sound p queued cell (start_announcing p announce ctx)
  unfolding start_announcing
  announcing-Sound false ctx h s = s
  announcing-Sound true ctx h (v, good) =
      let (sock, net) = udp_init p ctx.app_cfg.announce_iface ctx.net in
      let ctx1 : TracerContext p = record ctx { udp_sock = sock; net = net } in
      let v1 : Inv ctx1 = record {
        online = v.online;
        cell = v.cell;
        apart = v.apart;
        names = v.names;
        sendable = v.sendable;
        addressed =
            elim (is_some sock) as (λ b. (b && not (is_some ctx.app_cfg.announce_addr)) ≡ false) [
              | true ↦ h
              | false ↦ refl
            ];
      } in
      Leaves-Sound p queued cell ctx1 (check_start_udp_timer ctx1) (v1, good)
        (Leaves-IsAfter ctx1 (check_start_udp_timer ctx1)
          (start_udp-IsAfter ctx1 ctx1 (v1, Keeps-refl ctx1)))

  pub thread_start-Sound :
      (app_cfg : InitData p) (rec : p.Channel) (announce : Bool) (flags : List Bool) (net : p.Net)
      → IsOffered p queued app_cfg cell rec announce flags
      → Ensures (Sound p queued cell) (thread_start p app_cfg cell rec announce flags net)
  unfolding thread_start
  thread_start-Sound app_cfg rec announce flags net offer =
      let (created, net1) = p.poll_new net in
      let (bound, net2) = tcp_init p net1 in
      let start = λ (listener : p.TcpListener).
        let ctx : TracerContext p = record {
          app_cfg = app_cfg;
          buffer = [];
          buffer_occupancy = 0;
          rec = rec;
          timer = p.new_timer;
          queue_timeout = none;
          udp_timeout = none;
          udp_sock = none;
          listener = listener;
          connection = none;
          client_connected = cell;
          tracepoints = [];
          sequence_no = 0;
          flags = flags;
          net = net2;
        } in
        ctx in
      let go = λ (listener : p.TcpListener).
        expect_registered p chan_token (start_announcing p announce (start listener))
        >>= (λ ctx1. expect_registered p timer_token ctx1 >>= expect_registered p con_new_token) in
      elim created
        as (λ b. Ensures (Sound p queued cell) (elim b [
          | false ↦ panic
          | true ↦ elim bound [ none ↦ panic | some listener ↦ go listener ]
        ])) [
          | false ↦ tt
          | true ↦
              elim bound
                as (λ b.
                  Ensures (Sound p queued cell)
                    (elim b [ none ↦ panic | some listener ↦ go listener ])) [
                      | none ↦ tt
                      | some listener ↦
                          let ctx = start listener in
                          let s : Sound p queued cell ctx = (
                            record {
                              online = offer.off;
                              cell = offer.inside;
                              apart = unfold values in tt;
                              names = unfold keys in tt;
                              sendable = tt;
                              addressed = refl;
                            },
                            record { good = offer.good; given = refl },
                          ) in
                          Ensures-bind (Sound p queued cell) (Sound p queued cell)
                            (expect_registered p chan_token (start_announcing p announce ctx))
                            (λ ctx1.
                              expect_registered p timer_token ctx1
                              >>= expect_registered p con_new_token)
                            (registered-Sound chan_token _
                              (announcing-Sound announce ctx offer.has_address s))
                            (λ c h.
                              Ensures-bind (Sound p queued cell) (Sound p queued cell)
                                (expect_registered p timer_token c)
                                (expect_registered p con_new_token)
                                (registered-Sound timer_token c h) (registered-Sound con_new_token))
                    ]
        ]
