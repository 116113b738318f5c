-- ===== src/Tracer/Receiver/Service.antt =====
-- src/tcp_handler.rs: `receive` on a request that keeps to the protocol and arrives in one piece.
use libtracy.Common.{
  ℕ, zero, suc, ◌^◌, ◌≤◌, ◌<◌, ◌≡◌, refl, sym, ap, ◌∙◌, Bool, true, false, List, [], ◌∷◌, ◌++◌,
  append-nil, some, length, All, done, ◌>>=◌, arith, Option-cases, inl, inr,
}
use libtracy.Text.Utf8.{from_utf8_or_default}
use libtracy.Wire.Header.{
  Command, header_len, tracepoint_enable_request, tracepoint_disable_request,
}
use libtracy.Wire.HeaderLaws.{header_bytes, length-header_bytes, check_parse-header_bytes}
use libtracy.Platform.{Arc, Platform, ok, err, would_block}
use libtracy.Tracer.HashMap.{get}
use libtracy.Tracer.Flags.{load, store, length-store, load-store_self}
use libtracy.Tracer.Context.{TracerContext}
use libtracy.Tracer.Reader.{rec_buf_sz, fill}
use libtracy.Tracer.Receiver.{
  Session, execute_command, set_tracepoint, set_tracepoints, header_failed, receive_loop, receive,
}
use libtracy.Tracer.Receiver.Requests.{request_body, set_all, IsShort, set_tracepoints-request_body}
use libtracy.Tracer.Receiver.Rounds.{
  read_exact-fails, round_failed, round_accepted, receive-receive_loop,
}
use libtracy.Tracer.Receiver.Faults.{first_header}

-- The request that switches tracepoints on, or off.
abbrev pub setting : Bool → Command
setting true = tracepoint_enable_request
setting false = tracepoint_disable_request

module _ {p : Platform} where
  set_tracepoint-net :
      (ctx : TracerContext p) (name : List ℕ) (state : Bool)
      → (set_tracepoint ctx name state).net ≡ ctx.net
  unfolding set_tracepoint
  set_tracepoint-net ctx name state = ground arith

  set_all-net :
      (ns : List (List ℕ)) (ctx : TracerContext p) (state : Bool)
      → (set_all ctx ns state).net ≡ ctx.net
  unfolding set_all
  set_all-net [] ctx state = refl
  set_all-net (n ∷ ns) ctx state =
      set_all-net ns (set_tracepoint ctx (from_utf8_or_default n) state) state
      ∙ set_tracepoint-net ctx (from_utf8_or_default n) state

  execute_setting :
      (state : Bool) (fuel : ℕ) (session : Session p) (stream : p.TcpStream) (size : ℕ)
      → execute_command fuel session stream (setting state) size
        ≡ set_tracepoints fuel session stream 0 size state
  unfolding execute_command
  execute_setting true fuel session stream size = refl
  execute_setting false fuel session stream size = refl

  -- Where nothing is to be read, the loop ends and changes nothing.
  round_idle :
      (fuel : ℕ) (ctx : TracerContext p) (stream : p.TcpStream) (net net' : p.Net)
      → ctx.net ≡ net
      → p.read stream rec_buf_sz net ≡ (err would_block, net')
      → receive_loop (suc (suc fuel)) (ctx, []) stream ≡ done (record ctx { net = net' })
  unfolding header_failed fill
  round_idle fuel ctx stream net net' e r = round_failed (suc fuel) ctx [] stream would_block net' (
      read_exact-fails p stream fuel [] ctx.net header_len [] (err would_block) would_block net'
        (omega arith) (ap (p.read stream rec_buf_sz) e ∙ r) refl)

  -- A request to enable or to disable tracepoints whose names have at most 32 bytes and whose
  -- length is below 2^32, which one read of a connection brings with nothing behind it, and after
  -- which nothing is there to read, is served as a whole, where the fuel suffices for its names:
  -- `receive` ends, the named tracepoints that are registered are switched, and nothing else
  -- changes but the platform.
  pub receive_request :
      (fuel : ℕ) (ctx : TracerContext p) (connection stream : p.TcpStream) (net1 net2 net3 : p.Net)
      (state : Bool) (ns : List (List ℕ))
      → ctx.connection ≡ some connection
      → p.try_clone connection ctx.net ≡ (some stream, net1)
      → p.read stream rec_buf_sz net1
        ≡ (ok (header_bytes (setting state) (length (request_body ns)) ++ request_body ns), net2)
      → p.read stream rec_buf_sz net2 ≡ (err would_block, net3)
      → All IsShort ns
      → length ns ≤ fuel
      → length (request_body ns) < 2 ^ 32
      → receive (suc (suc (suc fuel))) ctx
        ≡ done (record (set_all (record ctx { net = net2 }) ns state) { net = net3 })
  receive_request fuel ctx connection stream net1 net2 net3 state ns hc ht hr hb hs hf hn =
      let size : ℕ = length (request_body ns) in
      let header : List ℕ = header_bytes (setting state) size in
      let ctx1 : TracerContext p = record ctx { net = net1 } in
      let ctx2 : TracerContext p = record ctx { net = net2 } in
      let whole : p.read stream rec_buf_sz net1 ≡ (ok (header ++ (request_body ns ++ [])), net2) =
        hr
        ∙ ap (λ (body : List ℕ). (ok (header ++ body), net2))
            (sym (append-nil (request_body ns))) in
      receive-receive_loop (suc (suc (suc fuel))) ctx connection stream net1 hc ht
      ∙ round_accepted (suc (suc fuel)) ctx1 [] stream header (request_body ns ++ []) net2
          (setting state) size
          (first_header fuel stream net1 net2 header (request_body ns ++ [])
            (length-header_bytes (setting state) size) whole)
          (check_parse-header_bytes (setting state) size hn)
      ∙ ap (λ m. m >>= λ session. receive_loop (suc (suc fuel)) session stream)
          (execute_setting state (suc (suc fuel)) (ctx2, request_body ns ++ []) stream size
            ∙ set_tracepoints-request_body {p = p} stream ns (suc (suc fuel)) state [] ctx2 hs
                (omega (arith, hf)) hn)
      ∙ round_idle fuel (set_all ctx2 ns state) stream net2 net3 (set_all-net ns ctx2 state) hb

-- Storing a value leaves the cells that hold it.
load-store_held :
    (cells : List Bool) (a b : ℕ) (state : Bool)
    → load cells a ≡ state
    → a < length cells
    → load (store cells b state) a ≡ state
unfolding load store
load-store_held [] a b state h l = absurd (omega arith)
load-store_held (c ∷ cs) zero zero state h l = refl
load-store_held (c ∷ cs) zero (suc b) state h l = h
load-store_held (c ∷ cs) (suc a) zero state h l = h
load-store_held (c ∷ cs) (suc a) (suc b) state h l = load-store_held cs a b state h (omega arith)

module _ {p : Platform} where
  set_tracepoint-tracepoints :
      (ctx : TracerContext p) (name : List ℕ) (state : Bool)
      → (set_tracepoint ctx name state).tracepoints ≡ ctx.tracepoints
  unfolding set_tracepoint
  set_tracepoint-tracepoints ctx name state = ground arith

  set_tracepoint-length :
      (ctx : TracerContext p) (name : List ℕ) (state : Bool)
      → length (set_tracepoint ctx name state).flags ≡ length ctx.flags
  unfolding set_tracepoint
  set_tracepoint-length ctx name state = elim (Option-cases (get name ctx.tracepoints)) [
    | inl e ↦ ground arith
    | inr (a, e) ↦ ground (arith, length-store ctx.flags a state)
  ]

  set_tracepoint-held :
      (ctx : TracerContext p) (name : List ℕ) (state : Bool) (a : Arc)
      → load ctx.flags a ≡ state
      → a < length ctx.flags
      → load (set_tracepoint ctx name state).flags a ≡ state
  unfolding set_tracepoint
  set_tracepoint-held ctx name state a h l = elim (Option-cases (get name ctx.tracepoints)) [
    | inl e ↦ ground arith
    | inr (b, e) ↦ ground (arith, load-store_held ctx.flags a b state h l)
  ]

  set_tracepoint-switched :
      (ctx : TracerContext p) (name : List ℕ) (state : Bool) (a : Arc)
      → get name ctx.tracepoints ≡ some a
      → a < length ctx.flags
      → load (set_tracepoint ctx name state).flags a ≡ state
  unfolding set_tracepoint
  set_tracepoint-switched ctx name state a e l = ground (arith, load-store_self ctx.flags a state l)

  set_all-held :
      (ns : List (List ℕ)) (ctx : TracerContext p) (state : Bool) (a : Arc)
      → load ctx.flags a ≡ state
      → a < length ctx.flags
      → load (set_all ctx ns state).flags a ≡ state
  unfolding set_all
  set_all-held [] ctx state a h l = h
  set_all-held (n ∷ ns) ctx state a h l =
      let name : List ℕ = from_utf8_or_default n in
      set_all-held ns (set_tracepoint ctx name state) state a
        (set_tracepoint-held ctx name state a h l)
        (omega (arith, set_tracepoint-length ctx name state, l))

  -- The tracepoint of each name in a request that is registered with a cell of the store is in the
  -- state that was asked for when the request has been served, whatever stands in the request
  -- before and behind it.
  pub set_all-switched :
      (before after : List (List ℕ)) (n : List ℕ) (ctx : TracerContext p) (state : Bool) (a : Arc)
      → get (from_utf8_or_default n) ctx.tracepoints ≡ some a
      → a < length ctx.flags
      → load (set_all ctx (before ++ n ∷ after) state).flags a ≡ state
  unfolding set_all
  set_all-switched [] after n ctx state a e l =
      let name : List ℕ = from_utf8_or_default n in
      set_all-held after (set_tracepoint ctx name state) state a
        (set_tracepoint-switched ctx name state a e l)
        (omega (arith, set_tracepoint-length ctx name state, l))
  set_all-switched (b ∷ before) after n ctx state a e l =
      let name : List ℕ = from_utf8_or_default b in
      set_all-switched before after n (set_tracepoint ctx name state) state a
        (ap (get (from_utf8_or_default n)) (set_tracepoint-tracepoints ctx name state) ∙ e)
        (omega (arith, set_tracepoint-length ctx name state, l))
