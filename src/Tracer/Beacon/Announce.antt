-- ===== src/Tracer/Beacon/Announce.antt =====
-- src/udp_beacon.rs: what a beacon says, and what announcing does on every branch.
use libtracy.Common.{
  List, All, panic, ℕ, ◌+◌, ◌%◌, ◌^◌, ◌≤◌, ◌<◌, ◌≡◌, ◌⊎◌, ◌++◌, none, some, done, arith,
  Option-cases, inl, inr, ltb, Bool-cases,
}
use libtracy.Wire.Header.{magic_numb}
use libtracy.Platform.{Platform}
use libtracy.Tracer.Context.{TracerContext}
use libtracy.Tracer.Beacon.{update_interval, send_beacon, format_json, json_text, announce_tracer}
use libtracy.Tracer.Beacon.Json.{IsPlain, read_object}
use libtracy.Tracer.Beacon.Text.{told, read_object-json_text}

-- For an interval below 2^64 ms, what a beacon states is the interval below a second, and less than
-- it from there on.
pub update_interval_cases :
    (ms : ℕ)
    → ms < 2 ^ 64
    → ((ms < 1000) × (update_interval ms ≡ ms)) ⊎ ((1000 ≤ ms) × (update_interval ms < ms))
unfolding update_interval
update_interval_cases ms h = elim (Bool-cases (ltb ms 1000)) [
  | inl small ↦ inl (ground arith, ground arith)
  | inr big ↦ inr (ground arith, ground arith)
]

module _ {p : Platform} where
  -- For a listener whose port, if it has an address, is below 2^16, a sequence number below 2^64, and a
  -- host and a process whose names need no escapes in JSON: without a port a beacon panics, also where
  -- there is no socket. Without a socket nothing is sent; with a socket and no address a beacon panics;
  -- with both, one datagram goes to the address, which is the magic number and a JSON object of the
  -- sequence number, the two versions, the interval, both names and the port. The sequence number is
  -- counted where there is no panic, and nothing else changes.
  pub announce_tracer_cases :
      (ctx : TracerContext p)
      → ((port : ℕ) → p.local_port ctx.listener ≡ some port → port < 2 ^ 16)
      → ctx.sequence_no < 2 ^ 64
      → All IsPlain ctx.app_cfg.hostname
      → All IsPlain ctx.app_cfg.process_name
      → let next = (ctx.sequence_no + 1) % 2 ^ 64 in
        ((p.local_port ctx.listener ≡ none) × (announce_tracer ctx ≡ panic))
        ⊎ ((ctx.udp_sock ≡ none) × (announce_tracer ctx ≡ done (record ctx { sequence_no = next })))
        ⊎ ((sock : p.UdpSocket) × (ctx.udp_sock ≡ some sock)
            × (ctx.app_cfg.announce_addr ≡ none)
            × (announce_tracer ctx ≡ panic))
        ⊎ ((sock : p.UdpSocket) × (addr : p.SocketAddr) × (port : ℕ) × (data_ : List ℕ)
            × (ctx.udp_sock ≡ some sock)
            × (ctx.app_cfg.announce_addr ≡ some addr)
            × (p.local_port ctx.listener ≡ some port)
            × (announce_tracer ctx
                ≡ done (record ctx {
                  net = p.send_to sock (magic_numb ++ data_) addr ctx.net;
                  sequence_no = next;
                }))
            × (read_object 7 data_ ≡ some (told ctx port)))
  unfolding announce_tracer send_beacon format_json
  announce_tracer_cases ctx hport hseq hhost hproc =
      elim (Option-cases (p.local_port ctx.listener)) [
        | inl n ↦ inl (n, ground arith)
        | inr (port, n) ↦ elim (Option-cases ctx.udp_sock) [
          | inl e ↦ inr (inl (e, ground arith))
          | inr (sock, e) ↦ elim (Option-cases ctx.app_cfg.announce_addr) [
            | inl f ↦ inr (inr (inl (sock, e, f, ground arith)))
            | inr (addr, f) ↦ inr (
                inr (
                  inr (
                    sock,
                    addr,
                    port,
                    json_text ctx port,
                    e,
                    f,
                    n,
                    ground arith,
                    read_object-json_text ctx port hseq (hport port n) hhost hproc,
                  )))
          ]
        ]
      ]
