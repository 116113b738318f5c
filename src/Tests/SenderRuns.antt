-- ===== src/Tests/SenderRuns.antt =====
-- The sender at concrete contexts.
use libtracy.Common.{
  Total, ℕ, ◌≡◌, refl, true, false, List, [], ◌∷◌, ◌++◌, map, none, some, done, arith, All,
}
use libtracy.Wire.Element.{BufferElement, since_epoch, before_epoch, element_len}
use libtracy.Wire.Samples.{sample}
use libtracy.Tracer.HashMap.{keys, values}
use libtracy.Tracer.Flags.{load}
use libtracy.Tracer.Invariant.{Inv}
use libtracy.Common.Bytes.{to_be_bytes}
use libtracy.Text.Names.{IsName}
use libtracy.Wire.Header.{tracepoint_list_reply}
use libtracy.Wire.Frames.{read_frame}
use libtracy.Wire.NameList.{name_bytes, read_names}
use libtracy.Tracer.Sender.Messages.{Logs, Wrote, send_trace_data-IsBounded}
use libtracy.Tracer.Sender.ListReply.{send_tracepoint_list_delivers}
use libtracy.Tracer.Sender.{send_tracepoint_list}
use libtracy.Tracer.Context.{TracerContext}
use libtracy.Tracer.Sender.{send_trace_data}
use libtracy.Tracer.Sender.Groups.{Sendable, groups}
use libtracy.Tracer.Sender.Refinement.{send_groups, send_trace_data-groups}
use libtracy.Tracer.Sender.Delivery.{read_pushes, send_trace_data_delivers}
use libtracy.Tests.Loopback.{loopback, silent}

abbrev one : BufferElement
one = record { tracepoint = b'a' ∷ []; timestamp = since_epoch 1 5; payload = 7 ∷ 8 ∷ [] }

abbrev two : BufferElement
two = record { tracepoint = b'b' ∷ b'c' ∷ []; timestamp = before_epoch; payload = 9 ∷ [] }

abbrev pub idle_context : TracerContext loopback
idle_context = record {
  app_cfg = record {
    hostname = b'h' ∷ [];
    process_name = b'p' ∷ [];
    send_interval = 500;
    announce_interval = 1500;
    announce_addr = some (b'x' ∷ []);
    announce_iface = none;
  };
  buffer = [];
  buffer_occupancy = 0;
  rec = [];
  timer = [];
  queue_timeout = none;
  udp_timeout = none;
  udp_sock = some tt;
  listener = 61455;
  connection = none;
  client_connected = 0;
  tracepoints = (b'a' ∷ [], 1) ∷ (b'b' ∷ b'c' ∷ [], 2) ∷ [];
  sequence_no = 3;
  flags = false ∷ false ∷ false ∷ [];
  net = silent;
}

abbrev pub busy_context : TracerContext loopback
busy_context = record idle_context {
  buffer = one ∷ two ∷ [];
  connection = some tt;
  flags = true ∷ true ∷ true ∷ [];
}

pub busy_Sendable : All Sendable busy_context.buffer
unfolding element_len
busy_Sendable = omega arith

send_trace_data-groups_example :
    send_trace_data busy_context ≡ send_groups (groups busy_context.buffer) busy_context
send_trace_data-groups_example = send_trace_data-groups busy_context busy_Sendable

loopback-Logs : Logs loopback (λ w. w.writes)
loopback-Logs = record {
  writes = λ stream bytes net. refl;
  clones = λ stream net. refl;
  leaves = λ stream net. refl;
}

send_trace_data-IsBounded_example :
    Total
      (λ c. Wrote loopback (λ w. w.writes) busy_context.net c.net)
      (send_trace_data busy_context)
send_trace_data-IsBounded_example =
    send_trace_data-IsBounded loopback (λ w. w.writes) loopback-Logs busy_context busy_Sendable

send_trace_data_delivers_example :
    (bytes : List ℕ) × (net : loopback.Net) × (send_trace_data busy_context
      ≡ done (record busy_context { buffer = []; net = net }))
    × (net.outbox ≡ [] ++ bytes)
    × (read_pushes bytes ≡ some (map sample (one ∷ two ∷ [])))
send_trace_data_delivers_example =
    send_trace_data_delivers loopback tt (λ w. w.outbox) busy_context (λ bytes net. refl)
      (λ bytes net. refl) refl busy_Sendable

pub busy_Inv : Inv busy_context
unfolding load keys values element_len
busy_Inv = record {
  online = refl;
  cell = omega arith;
  apart = ((λ e. omega (arith, e)), ((λ e. omega (arith, e)), tt));
  names = (
    record { short = omega arith; letters = omega arith },
    (record { short = omega arith; letters = omega arith }, tt),
  );
  sendable = busy_Sendable;
  addressed = refl;
}

busy-IsName : All IsName (keys busy_context.tracepoints)
unfolding keys
busy-IsName = busy_Inv.names

send_tracepoint_list_delivers_example :
    (bytes body : List ℕ) × (net : loopback.Net) × (send_tracepoint_list busy_context
      ≡ done (record busy_context { net = net }))
    × (net.outbox ≡ [] ++ bytes)
    × (read_frame bytes ≡ some (record { command = tracepoint_list_reply; body = body }, []))
    × (read_names 2 body ≡ some (keys busy_context.tracepoints))
unfolding name_bytes to_be_bytes keys
send_tracepoint_list_delivers_example =
    send_tracepoint_list_delivers loopback tt (λ w. w.outbox) busy_context (λ bytes net. refl)
      (λ bytes net. refl) refl busy-IsName (omega arith)
