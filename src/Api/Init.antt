-- ===== src/Api/Init.antt =====
-- `tracy_init`, `rawpt_to_str`, `rawpt_to_addr` and `string_to_addr` of src/lib.rs.
use libtracy.Common.{
  ℕ, Bool, false, ◌&&◌, List, [], Option, none, some, if◌then◌else◌, ltb, ◌==◌, is_some,
}
use libtracy.Text.Utf8.{to_string_lossy}
use libtracy.Platform.{Platform}
use libtracy.Tracer.Flags.{alloc}
use libtracy.Tracer.Context.{InitData}
use libtracy.Api.Handle.{App, CStr}

unfoldable pub rawpt_to_str : CStr → Option (List ℕ)
rawpt_to_str none = none
rawpt_to_str (some raw) = some (to_string_lossy raw)

-- What `tracy_init` leaves: the handle for the application, and the arguments of the thread.
pub record Started (p : Platform) : Type 0 where
  pub app : App p
  pub app_cfg : InitData p
  pub announce : Bool

module _ (p : Platform) where
  open p use {SocketAddr, Channel, parse_addr}

  unfoldable pub string_to_addr : List ℕ → Option SocketAddr
  string_to_addr s = parse_addr s

  unfoldable pub rawpt_to_addr : CStr → Option SocketAddr
  unfolding rawpt_to_str string_to_addr
  rawpt_to_addr cstring = elim (rawpt_to_str cstring) [ none ↦ none | some s ↦ string_to_addr s ]

  unfoldable pub should_announce : InitData p → Bool
  should_announce cfg =
      ltb 0 cfg.announce_interval && (is_some cfg.announce_iface && is_some cfg.announce_addr)

  -- `none` is a NULL pointer. `channel` is a new channel, `flags` are the cells of the process.
  unfoldable pub tracy_init :
      Channel → List Bool → CStr → CStr → ℕ → ℕ → CStr → CStr → Option (Started p)
  unfolding rawpt_to_str rawpt_to_addr should_announce
  tracy_init channel flags hostname process_name flush_interval announce_interval iface addr =
      let (client_connected, flags') = alloc flags false in
      elim (rawpt_to_str hostname) [
        | none ↦ none
        | some host ↦ elim (rawpt_to_str process_name) [
          | none ↦ none
          | some process ↦
              let init_data : InitData p = record {
                hostname = host;
                process_name = process;
                send_interval = flush_interval;
                announce_interval = announce_interval;
                announce_addr = rawpt_to_addr addr;
                announce_iface = rawpt_to_str iface;
              } in
              if flush_interval == 0
              then none
              else some (record {
                app = record {
                  tracey = record { client_connected = client_connected; tracepoints = [] };
                  flags = flags';
                  send_to_tracer_thread = channel;
                };
                app_cfg = init_data;
                announce = should_announce init_data;
              })
        ]
      ]
