-- ===== src/Tracer/Context.antt =====
-- `InitData` and `TracerContext` of src/lib.rs with the methods of the latter.
pub mod Close
pub mod Timers
use libtracy.Common.{
  ℕ, ◌+◌, ◌%◌, ◌^◌, Bool, false, List, [], ◌∷◌, ◌++◌, Option, none, some, if◌then◌else◌, is_some,
  Outcome, done, panic,
}
use libtracy.Wire.Element.{BufferElement, element_len}
use libtracy.Platform.{Platform, Arc, Tracepoint}
use libtracy.Tracer.HashMap.{insert, values}
use libtracy.Tracer.Flags.{store, store_all}

abbrev pub queue_total_size : ℕ
queue_total_size = 4096

abbrev pub queue_timeout_ident : ℕ
queue_timeout_ident = 42

abbrev pub udp_timeout_ident : ℕ
udp_timeout_ident = 9001

-- Durations are in milliseconds, as `tracy_init` is given them.
pub record InitData (p : Platform) : Type 0 where
  pub hostname : List ℕ
  pub process_name : List ℕ
  pub send_interval : ℕ
  pub announce_interval : ℕ
  pub announce_addr : Option p.SocketAddr
  pub announce_iface : Option (List ℕ)

-- `net` stands for `poll` and what lies behind the sockets, `flags` for the cells that the `Arc`s
-- point to.
pub record TracerContext (p : Platform) : Type 0 where
  pub app_cfg : InitData p
  pub buffer : List BufferElement
  pub buffer_occupancy : ℕ
  pub rec : p.Channel
  pub timer : p.Timer
  pub queue_timeout : Option p.Timeout
  pub udp_timeout : Option p.Timeout
  pub udp_sock : Option p.UdpSocket
  pub listener : p.TcpListener
  pub connection : Option p.TcpStream
  pub client_connected : Arc
  pub tracepoints : List (List ℕ × Arc)
  pub sequence_no : ℕ
  pub flags : List Bool
  pub net : p.Net

module _ (p : Platform) where
  open p use {TcpStream, Timer, Timeout, Net, cancel_timeout, try_clone, deregister}

  -- The timer without a timeout that is set.
  unfoldable pub cancel : Timer → Option Timeout → Timer
  cancel timer none = timer
  cancel timer (some timeout) = cancel_timeout timer timeout

  -- `if let Ok(tmp) = stream.try_clone() { poll.deregister(&tmp) }`
  unfoldable pub leave_poll : TcpStream → Net → Net
  leave_poll stream net =
      let (copy, net') = try_clone stream net in
      elim copy [ none ↦ net' | some tmp ↦ deregister tmp net' ]

module _ {p : Platform} where
  open p use {TcpStream, set_timeout}

  unfoldable pub append : TracerContext p → BufferElement → TracerContext p
  append ctx element = record ctx {
    buffer_occupancy = (ctx.buffer_occupancy + element_len element) % 2 ^ 64;
    buffer = ctx.buffer ++ element ∷ [];
  }

  unfoldable pub clear_buffer : TracerContext p → TracerContext p
  clear_buffer ctx = record ctx { buffer = []; buffer_occupancy = 0 }

  unfoldable pub check_start_queue_timer : TracerContext p → TracerContext p
  check_start_queue_timer ctx =
      let (timeout, timer) = set_timeout ctx.timer ctx.app_cfg.send_interval queue_timeout_ident in
      if is_some ctx.queue_timeout
      then ctx
      else record ctx { timer = timer; queue_timeout = some timeout }

  unfoldable pub check_stop_queue_timer : TracerContext p → TracerContext p
  unfolding cancel
  check_stop_queue_timer ctx = record ctx {
    timer = cancel p ctx.timer ctx.queue_timeout;
    queue_timeout = none;
  }

  unfoldable pub check_start_udp_timer : TracerContext p → TracerContext p
  check_start_udp_timer ctx =
      let (timeout, timer) =
        set_timeout ctx.timer ctx.app_cfg.announce_interval udp_timeout_ident in
      if is_some ctx.udp_timeout
      then ctx
      else record ctx { timer = timer; udp_timeout = some timeout }

  unfoldable pub check_stop_udp_timer : TracerContext p → TracerContext p
  unfolding cancel
  check_stop_udp_timer ctx = record ctx {
    timer = cancel p ctx.timer ctx.udp_timeout;
    udp_timeout = none;
  }

  -- The part of `close_and_clean_connection` behind `unwrap`.
  unfoldable pub clean_connection : TracerContext p → TcpStream → TracerContext p
  unfolding leave_poll check_stop_queue_timer check_start_udp_timer
  clean_connection ctx stream =
      let ctx1 = record ctx { net = leave_poll p stream ctx.net; connection = none } in
      let ctx2 = check_stop_queue_timer ctx1 in
      let ctx3 = record ctx2 { flags = store_all ctx2.flags (values ctx2.tracepoints) false } in
      check_start_udp_timer ctx3

  unfoldable pub close_and_clean_connection : TracerContext p → Outcome (TracerContext p)
  unfolding clean_connection
  close_and_clean_connection ctx =
      let ctx1 = record ctx { flags = store ctx.flags ctx.client_connected false } in
      elim ctx1.connection [ none ↦ panic | some stream ↦ done (clean_connection ctx1 stream) ]

  unfoldable pub insert_tracepoint : TracerContext p → Tracepoint → TracerContext p
  insert_tracepoint ctx tracepoint = record ctx {
    tracepoints = insert tracepoint.name tracepoint.state ctx.tracepoints;
  }
