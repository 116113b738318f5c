-- ===== src/Tests/ThreadRuns.antt =====
-- The thread at concrete contexts.
use libtracy.Common.{
  false, Option, Ensures, ℕ, ◌+◌, ◌%◌, ◌^◌, ◌≤◌, ◌<◌, ◌≡◌, ◌⊎◌, refl, true, List, [], ◌∷◌, ◌++◌,
  none, some, is_some, arith, done, panic, Total,
}
use libtracy.Wire.Header.{magic_numb}
use libtracy.Wire.Element.{BufferElement, since_epoch, element_len}
use libtracy.Platform.{payload, new_tracepoint}
use libtracy.Tracer.Flags.{store}
use libtracy.Tracer.Context.{TracerContext, queue_total_size, queue_timeout_ident}
use libtracy.Tracer.Sender.{send_trace_data}
use libtracy.Tracer.Beacon.{update_interval, announce_tracer}
use libtracy.Tracer.Context.Timers.{IsArmed, IsStopped}
use libtracy.Tracer.Beacon.Json.{read_object}
use libtracy.Tracer.Beacon.Text.{told}
use libtracy.Tracer.Beacon.Announce.{update_interval_cases, announce_tracer_cases}
use libtracy.Tracer.Thread.{channel_data_handler, on_timeout, on_connect, channel_handler}
use libtracy.Tracer.Context.{append, check_stop_queue_timer}
use libtracy.Tracer.Thread.{tcp_init}
use libtracy.Tracer.Thread.Port.{Ends, tcp_init-Ends}
use libtracy.Tracer.Invariant.{Inv}
use libtracy.Tracer.Invariant.Occupancy.{occupancy_rises}
use libtracy.Tracer.Thread.Payloads.{channel_data_handler_cases, late_payload_panics}
use libtracy.Tracer.Thread.Connect.{Silent, on_connect_cases}
use libtracy.Tracer.Invariant.Events.{Sound}
use libtracy.Tracer.Invariant.Drained.{IsDrained, channel_handler-Total}
use libtracy.Tests.Loopback.{loopback, silent, queued, loopback-Fifo}
use libtracy.Tests.SenderRuns.{idle_context, busy_context, busy_Inv}

abbrev datum : BufferElement
datum = record { tracepoint = b'a' ∷ []; timestamp = since_epoch 1 5; payload = 7 ∷ 8 ∷ [] }

channel_data_handler_cases_example :
    (((0 + element_len datum) % 2 ^ 64 ≤ queue_total_size)
      × ((ctx' : TracerContext loopback) × (channel_data_handler busy_context datum ≡ done ctx')
          × (ctx'.buffer ≡ busy_context.buffer ++ datum ∷ [])
          × (ctx'.buffer_occupancy ≡ (0 + element_len datum) % 2 ^ 64)
          × (is_some ctx'.queue_timeout ≡ true)
          × (ctx'.connection ≡ busy_context.connection)
          × IsArmed loopback [] none 500 42 ctx'.timer ctx'.queue_timeout))
    ⊎ ((queue_total_size < (0 + element_len datum) % 2 ^ 64)
        × ((ctx' : TracerContext loopback) × (channel_data_handler busy_context datum
              ≡ send_trace_data ctx')
            × (ctx'.buffer ≡ busy_context.buffer ++ datum ∷ [])
            × (ctx'.buffer_occupancy ≡ (0 + element_len datum) % 2 ^ 64)
            × (ctx'.queue_timeout ≡ none)
            × (ctx'.connection ≡ busy_context.connection)
            × IsStopped loopback [] none ctx'.timer ctx'.queue_timeout))
channel_data_handler_cases_example = channel_data_handler_cases busy_context datum

late_payload_panics_example :
    (channel_data_handler idle_context datum ≡ panic)
    ⊎ ((ctx' : TracerContext loopback) × (channel_data_handler idle_context datum ≡ done ctx')
        × (is_some ctx'.queue_timeout ≡ true)
        × (on_timeout queue_timeout_ident ctx' ≡ panic))
unfolding element_len
late_payload_panics_example = late_payload_panics idle_context datum refl tt (omega arith)

on_connect_cases_example :
    ((◌≡◌ {A = Option (Unit {0})} (some tt) none)
      × ((ctx' : TracerContext loopback) × (on_connect idle_context ≡ done ctx')
          × Silent idle_context ctx'
          × (ctx'.connection ≡ none)
          × (ctx'.flags ≡ idle_context.flags)
          × (ctx'.net ≡ silent)))
    ⊎ ((socket : Unit {0}) × (◌≡◌ {A = Option (Unit {0})} (some tt) (some socket))
        × (◌≡◌ {A = Option (Unit {0})} (some tt) none)
        × (on_connect idle_context ≡ panic))
    ⊎ ((socket copy : Unit {0}) × (◌≡◌ {A = Option (Unit {0})} (some tt) (some socket))
        × (◌≡◌ {A = Option (Unit {0})} (some tt) (some copy))
        × (true ≡ false)
        × (on_connect idle_context ≡ panic))
    ⊎ ((socket copy : Unit {0}) × (◌≡◌ {A = Option (Unit {0})} (some tt) (some socket))
        × (◌≡◌ {A = Option (Unit {0})} (some tt) (some copy))
        × (true ≡ true)
        × ((ctx' : TracerContext loopback) × (on_connect idle_context ≡ done ctx')
            × Silent idle_context ctx'
            × (ctx'.connection ≡ some socket)
            × (ctx'.flags ≡ store idle_context.flags idle_context.client_connected true)
            × (ctx'.net ≡ silent)))
on_connect_cases_example = on_connect_cases idle_context refl

update_interval_cases_example :
    ((1500 < 1000) × (update_interval 1500 ≡ 1500))
    ⊎ ((1000 ≤ 1500) × (update_interval 1500 < 1500))
update_interval_cases_example = update_interval_cases 1500 (omega arith)

some_port : (port : ℕ) → loopback.local_port idle_context.listener ≡ some port → port ≡ 61455
some_port port e = cc e

announce_tracer_cases_example :
    ((loopback.local_port idle_context.listener ≡ none) × (announce_tracer idle_context ≡ panic))
    ⊎ ((idle_context.udp_sock ≡ none)
        × (announce_tracer idle_context
            ≡ done (record idle_context { sequence_no = (3 + 1) % 2 ^ 64 })))
    ⊎ ((sock : Unit {0}) × (idle_context.udp_sock ≡ some sock)
        × (idle_context.app_cfg.announce_addr ≡ none)
        × (announce_tracer idle_context ≡ panic))
    ⊎ ((sock : Unit {0}) × (addr : List ℕ) × (port : ℕ) × (data_ : List ℕ) × (idle_context.udp_sock
          ≡ some sock)
        × (idle_context.app_cfg.announce_addr ≡ some addr)
        × (loopback.local_port idle_context.listener ≡ some port)
        × (announce_tracer idle_context
            ≡ done (record idle_context {
              net = loopback.send_to sock (magic_numb ++ data_) addr silent;
              sequence_no = (3 + 1) % 2 ^ 64;
            }))
        × (read_object 7 data_ ≡ some (told idle_context port)))
announce_tracer_cases_example =
    announce_tracer_cases idle_context (λ port e. omega (arith, some_port port e)) (omega arith)
      (omega arith) (omega arith)

abbrev waiting : TracerContext loopback
waiting = record busy_context {
  rec = payload datum ∷ new_tracepoint (record { name = b'n' ∷ []; state = 1 }) ∷ [];
}

waiting-Sound : Sound loopback queued 0 waiting
unfolding element_len
waiting-Sound = (
  record {
    online = busy_Inv.online;
    cell = busy_Inv.cell;
    apart = busy_Inv.apart;
    names = busy_Inv.names;
    sendable = busy_Inv.sendable;
    addressed = refl;
  },
  record {
    good = (
      omega arith,
      ((record { short = omega arith; letters = omega arith }, (λ e. omega (arith, e))), tt),
    );
    given = refl;
  },
)

channel_handler-Total_example : Total (IsDrained loopback queued 0) (channel_handler 3 waiting)
channel_handler-Total_example =
    channel_handler-Total loopback queued 0 loopback-Fifo 3 waiting waiting-Sound (omega arith)

tcp_init-Ends_example : Ends loopback 4080 61455 silent (tcp_init loopback silent)
tcp_init-Ends_example = tcp_init-Ends loopback silent

abbrev worn : TracerContext loopback
worn = record busy_context { buffer_occupancy = 5000 }

worn-Inv : Inv worn
worn-Inv = record {
  online = busy_Inv.online;
  cell = busy_Inv.cell;
  apart = busy_Inv.apart;
  names = busy_Inv.names;
  sendable = busy_Inv.sendable;
  addressed = refl;
}

occupancy_rises_example :
    (channel_data_handler worn datum ≡ send_trace_data (check_stop_queue_timer (append worn datum)))
    × Ensures (λ c. c.buffer_occupancy ≡ 5000 + element_len datum) (channel_data_handler worn datum)
unfolding element_len
occupancy_rises_example =
    occupancy_rises worn datum worn-Inv (omega arith) (omega arith) (omega arith)
