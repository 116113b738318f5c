-- ===== src/Tracer/Beacon.antt =====
-- src/udp_beacon.rs, and `init` of src/tcp_handler.rs.
pub mod Announce
pub mod Json
pub mod Text
use libtracy.Common.{
  ℕ, zero, suc, ◌+◌, ◌/◌, ◌%◌, ◌^◌, List, [], ◌∷◌, ◌++◌, Option, none, some, Outcome, done, panic,
  ◌>>=◌,
}
use libtracy.Text.Decimal.{codes, decimal}
use libtracy.Wire.Header.{magic_numb}
use libtracy.Platform.{Platform}
use libtracy.Tracer.Context.{TracerContext}

abbrev pub server_version : List ℕ
server_version = codes "1.1.0"

abbrev pub protocoll_version : List ℕ
protocoll_version = codes "1.1.0"

-- `announce_interval.as_secs()` plus `subsec_millis()`.
unfoldable pub update_interval : ℕ → ℕ
update_interval announce_interval = (announce_interval / 1000 + announce_interval % 1000) % 2 ^ 64

module _ (p : Platform) where
  open p use {UdpSocket, SocketAddr, Net, send_to}

  -- `sock.send_to(&msg, announce_addr.unwrap())`, if there is a socket.
  unfoldable pub send_beacon : Option UdpSocket → Option SocketAddr → List ℕ → Net → Outcome Net
  send_beacon none addr msg net = done net
  send_beacon (some sock) none msg net = panic
  send_beacon (some sock) (some addr) msg net = done (send_to sock msg addr net)

module _ {p : Platform} where
  open p use {local_port}

  -- The text that `format!` makes, with the port of the listener.
  unfoldable pub json_text : TracerContext p → ℕ → List ℕ
  unfolding update_interval decimal
  json_text ctx port =
      codes "{ \"sequence_nr\": "
      ++ (decimal ctx.sequence_no
          ++ (codes ",\"server_version\": \""
              ++ (server_version
                  ++ (codes "\", \"protocoll_version\": \""
                      ++ (protocoll_version
                          ++ (codes "\",\"update_interval_msecs\": "
                              ++ (decimal (update_interval ctx.app_cfg.announce_interval)
                                  ++ (codes ",\"hostname\": \""
                                      ++ (ctx.app_cfg.hostname
                                          ++ (codes "\", \"process_name\": \""
                                              ++ (ctx.app_cfg.process_name
                                                  ++ (codes "\",\"port\": "
                                                      ++ (decimal port ++ codes "}")))))))))))))

  -- `local_addr().unwrap()` panics where the listener has no address.
  unfoldable pub format_json : TracerContext p → Outcome (List ℕ)
  unfolding json_text
  format_json ctx = elim (local_port ctx.listener) [
    | none ↦ panic
    | some port ↦ done (json_text ctx port)
  ]

  -- The text is made before the socket is looked at.
  unfoldable pub announce_tracer : TracerContext p → Outcome (TracerContext p)
  unfolding send_beacon format_json
  announce_tracer ctx = do
    tracer_data ← format_json ctx
    let announce_msg = magic_numb ++ tracer_data
    net ← send_beacon p ctx.udp_sock ctx.app_cfg.announce_addr announce_msg ctx.net
    done (record ctx { net = net; sequence_no = (ctx.sequence_no + 1) % 2 ^ 64 })
