-- ===== src/Tracer/Thread.antt =====
-- src/lib.rs: `tracer_thread_main` and the handlers that it calls, and `init` of src/tcp_handler.rs
-- and src/udp_beacon.rs, which it calls first.
pub mod Payloads
pub mod Connect
pub mod Finish
pub mod Port
use libtracy.Common.{
  ℕ, zero, suc, ◌+◌, Bool, true, false, List, [], ◌∷◌, ◌++◌, Option, none, some, if◌then◌else◌, ltb,
  ◌==◌, is_some, Outcome, done, panic, out_of_fuel, ◌>>=◌,
}
use libtracy.Text.Decimal.{codes}
use libtracy.Wire.Element.{BufferElement}
use libtracy.Platform.{Platform, Arc, ChannelMessage, payload, new_tracepoint, terminate}
use libtracy.Tracer.Context.{
  InitData, TracerContext, append, insert_tracepoint, check_start_queue_timer,
  check_stop_queue_timer, check_start_udp_timer, check_stop_udp_timer, queue_total_size,
  queue_timeout_ident, udp_timeout_ident,
}
use libtracy.Tracer.Sender.{send_trace_data}
use libtracy.Tracer.Receiver.{receive, establish_connection}
use libtracy.Tracer.Beacon.{announce_tracer}

pub data TracerState : Type 0 where
  normal terminated data_processed : TracerState

abbrev pub chan_token : ℕ
chan_token = 1

abbrev pub timer_token : ℕ
timer_token = 2

abbrev pub con_new_token : ℕ
con_new_token = 3

abbrev pub con_data_token : ℕ
con_data_token = 4

module _ {p : Platform} where
  open p use {try_recv, poll_timer}

  unfoldable pub channel_data_handler : TracerContext p → BufferElement → Outcome (TracerContext p)
  channel_data_handler ctx element =
      let ctx1 = append ctx element in
      if ltb queue_total_size ctx1.buffer_occupancy
      then send_trace_data (check_stop_queue_timer ctx1)
      else done (check_start_queue_timer ctx1)

  -- `Terminate`: what is buffered goes out one last time.
  unfoldable pub last_words : TracerContext p → Outcome (TracerContext p)
  last_words ctx = if is_some ctx.connection then send_trace_data ctx else done ctx

  -- `ret` is what the loop has found so far.
  unfoldable pub channel_loop :
      ℕ → TracerState → TracerContext p → Outcome (TracerState × TracerContext p)
  unfolding last_words
  channel_loop zero ret ctx = out_of_fuel
  channel_loop (suc fuel) ret ctx =
      let (message, channel) = try_recv ctx.rec in
      let ctx1 = record ctx { rec = channel } in
      elim message [
        | none ↦ done (ret, ctx1)
        | some terminate ↦ do ctx2 ← last_words ctx1; done (terminated, ctx2)
        | some (new_tracepoint tracepoint) ↦
            channel_loop fuel data_processed (insert_tracepoint ctx1 tracepoint)
        | some (payload element) ↦ do
          ctx2 ← channel_data_handler ctx1 element
          channel_loop fuel data_processed ctx2
      ]

  unfoldable pub channel_handler : ℕ → TracerContext p → Outcome (TracerState × TracerContext p)
  unfolding channel_loop
  channel_handler fuel ctx = channel_loop fuel normal ctx

  -- One round of the loop of `timer_handler`.
  unfoldable pub on_timeout : ℕ → TracerContext p → Outcome (TracerContext p)
  on_timeout ident ctx =
      if ident == queue_timeout_ident
      then send_trace_data (record ctx { queue_timeout = none })
      else if ident == udp_timeout_ident
      then (announce_tracer (record ctx { udp_timeout = none }) >>= λ ctx'.
          done (check_start_udp_timer ctx'))
      else done ctx

  unfoldable pub timer_handler : ℕ → TracerContext p → Outcome (TracerContext p)
  unfolding on_timeout
  timer_handler zero ctx = out_of_fuel
  timer_handler (suc fuel) ctx =
      let (timeout, timer) = poll_timer ctx.timer in
      let ctx1 = record ctx { timer = timer } in
      elim timeout [ none ↦ done ctx1 | some ident ↦ on_timeout ident ctx1 >>= timer_handler fuel ]

  -- A readable listener. The announcing stops whether or not a client was accepted.
  unfoldable pub on_connect : TracerContext p → Outcome (TracerContext p)
  on_connect ctx =
      if is_some ctx.connection
      then done ctx
      else (establish_connection ctx >>= λ ctx'. done (check_stop_udp_timer ctx'))

  -- The events of one `poll`, by their tokens.
  unfoldable pub event_handler :
      ℕ → List ℕ → TracerState → TracerContext p → Outcome (TracerState × TracerContext p)
  unfolding on_connect
  event_handler fuel [] ret ctx = done (ret, ctx)
  event_handler fuel (token ∷ events) ret ctx =
      let go_on = λ (ctx' : TracerContext p). event_handler fuel events ret ctx' in
      if token == chan_token
      then (channel_handler fuel ctx >>= λ (state, ctx'). elim state [
        | terminated ↦ done (terminated, ctx')
        | normal ↦ event_handler fuel events normal ctx'
        | data_processed ↦ event_handler fuel events data_processed ctx'
      ])
      else if token == timer_token
      then (timer_handler fuel ctx >>= go_on)
      else if token == con_new_token
      then (on_connect ctx >>= go_on)
      else if token == con_data_token
      then (receive fuel ctx >>= go_on)
      else go_on ctx

module _ (p : Platform) where
  open p use {Net, TcpListener, UdpSocket, tcp_bind, udp_bind, poll_new, register_source, new_timer}

  -- `for port in 61455..65535`, with the number of ports that are left.
  unfoldable pub bind_from : ℕ → ℕ → Net → Option TcpListener × Net
  bind_from zero port net = (none, net)
  bind_from (suc left) port net =
      let (bound, net') = tcp_bind port net in
      elim bound [ some listener ↦ (some listener, net') | none ↦ bind_from left (port + 1) net' ]

  unfoldable pub tcp_init : Net → Option TcpListener × Net
  unfolding bind_from
  tcp_init net = bind_from 4080 61455 net

  -- An ephemeral port on the interface, or on any.
  unfoldable pub udp_init : Option (List ℕ) → Net → Option UdpSocket × Net
  udp_init (some addr) net = udp_bind addr 0 net
  udp_init none net = udp_bind (codes "0.0.0.0") 0 net

  unfoldable pub expect_registered : ℕ → TracerContext p → Outcome (TracerContext p)
  expect_registered token ctx =
      let (registered, net) = register_source token ctx.net in
      if registered then done (record ctx { net = net }) else panic

  unfoldable pub start_announcing : Bool → TracerContext p → TracerContext p
  unfolding udp_init
  start_announcing false ctx = ctx
  start_announcing true ctx =
      let (sock, net) = udp_init ctx.app_cfg.announce_iface ctx.net in
      check_start_udp_timer (record ctx { udp_sock = sock; net = net })

  -- `tracer_thread_main` up to its loop.
  unfoldable pub thread_start :
      InitData p → Arc → p.Channel → Bool → List Bool → Net → Outcome (TracerContext p)
  unfolding tcp_init expect_registered start_announcing
  thread_start app_cfg client_connected rec announce flags net =
      let (created, net1) = poll_new net in
      let (bound, net2) = tcp_init net1 in
      elim created [
        | false ↦ panic
        | true ↦ elim bound [
          | none ↦ panic
          | some listener ↦ do
            let ctx : TracerContext p = record {
              app_cfg = app_cfg;
              buffer = [];
              buffer_occupancy = 0;
              rec = rec;
              timer = new_timer;
              queue_timeout = none;
              udp_timeout = none;
              udp_sock = none;
              listener = listener;
              connection = none;
              client_connected = client_connected;
              tracepoints = [];
              sequence_no = 0;
              flags = flags;
              net = net2;
            }
            ctx1 ← expect_registered chan_token (start_announcing announce ctx)
            ctx2 ← expect_registered timer_token ctx1
            expect_registered con_new_token ctx2
        ]
      ]

  -- The loop of `tracer_thread_main`, over what its calls of `poll` return: a batch of events, or
  -- `none` where a call fails.
  unfoldable pub thread_loop :
      ℕ → List (Option (List ℕ)) → TracerContext p → Outcome (TracerState × TracerContext p)
  unfolding event_handler
  thread_loop fuel [] ctx = done (normal, ctx)
  thread_loop fuel (none ∷ batches) ctx = panic
  thread_loop fuel (some events ∷ batches) ctx =
      event_handler fuel events normal ctx >>= λ (state, ctx'). elim state [
        | terminated ↦ done (terminated, ctx')
        | normal ↦ thread_loop fuel batches ctx'
        | data_processed ↦ thread_loop fuel batches ctx'
      ]
