-- ===== src/Tracer/Receiver.antt =====
-- src/tcp_handler.rs: `receive`, `execute_command`, `set_tracepoints`, `read_empty` and
-- `establish_connection`.
pub mod Requests
pub mod Rounds
pub mod Faults
pub mod Service
use libtracy.Common.{
  ℕ, zero, suc, ◌+◌, ◌%◌, ◌^◌, Bool, true, false, List, [], ◌∷◌, Option, none, some, if◌then◌else◌,
  ltb, length, Outcome, done, panic, out_of_fuel, ◌>>=◌,
}
use libtracy.Common.Bytes.{from_be_bytes}
use libtracy.Text.Utf8.{from_utf8_or_default}
use libtracy.Text.Ascii.{max_tracepoint_name_len}
use libtracy.Wire.Header.{
  Command, tracepoint_list_request, tracepoint_enable_request, tracepoint_disable_request,
  header_len, check_parse_header,
}
use libtracy.Platform.{
  Platform, IoResult, ok, err, ErrorKind, would_block, interrupted, unexpected_eof, other,
}
use libtracy.Tracer.HashMap.{get}
use libtracy.Tracer.Flags.{store}
use libtracy.Tracer.Context.{TracerContext, close_and_clean_connection}
use libtracy.Tracer.Sender.{send_tracepoint_list}
use libtracy.Tracer.Reader.{Read, read_exact, read_some}

-- The context, and the bytes that the reader still holds.
abbrev pub Session : Platform → Type 0
Session p = TracerContext p × List ℕ

-- What `read_empty` makes of a read.
pub data Drain : Type 0 where
  empty more broken : Drain

unfoldable pub drain : IoResult (List ℕ) → Drain
drain (ok []) = empty
drain (ok (_ ∷ _)) = more
drain (err would_block) = empty
drain (err _) = broken

module _ {p : Platform} where
  open p use {TcpStream, accept, try_clone, register}

  -- `if let Some(val_ref) = ctx.tracepoints.get_mut(name) { val_ref.store(state) }`
  unfoldable pub set_tracepoint : TracerContext p → List ℕ → Bool → TracerContext p
  set_tracepoint ctx name state = elim (get name ctx.tracepoints) [
    | none ↦ ctx
    | some arc ↦ record ctx { flags = store ctx.flags arc state }
  ]

  -- Closes the connection and leaves the reader as it is.
  unfoldable pub close_session :
      TracerContext p → List ℕ → Outcome (Option (ℕ × List ℕ) × Session p)
  close_session ctx buffered = do
    ctx' ← close_and_clean_connection ctx
    done (none, (ctx', buffered))

  -- A name with its length, as a round of `set_tracepoints` reads it; `none` after a failure, which
  -- closes the connection.
  unfoldable pub read_name : ℕ → Session p → TcpStream → Outcome (Option (ℕ × List ℕ) × Session p)
  unfolding close_session
  read_name fuel (ctx, buffered) stream = do
    r1 ← read_exact p fuel stream buffered ctx.net 2 []
    let ctx1 = record ctx { net = r1.net }
    elim r1.result [
      | err _ ↦ close_session ctx1 r1.buffered
      | ok name_len_arr ↦
          let name_len = from_be_bytes name_len_arr in
          elim (ltb max_tracepoint_name_len name_len) [
            | true ↦ close_session ctx1 r1.buffered
            | false ↦ do
              r2 ← read_exact p fuel stream r1.buffered ctx1.net name_len []
              let ctx2 = record ctx1 { net = r2.net }
              elim r2.result [
                | err _ ↦ close_session ctx2 r2.buffered
                | ok name ↦ done (some (name_len, name), (ctx2, r2.buffered))
              ]
          ]
    ]

  -- The `while i < len` loop; `i` wraps at 32 bits, as in a release build.
  unfoldable pub set_tracepoints : ℕ → Session p → TcpStream → ℕ → ℕ → Bool → Outcome (Session p)
  set_tracepoints zero session stream i size state = out_of_fuel
  set_tracepoints (suc fuel) session stream i size state = elim (ltb i size) [
    | false ↦ done session
    | true ↦ do
      (read, (ctx, buffered)) ← read_name fuel session stream
      elim read [
        | none ↦ done (ctx, buffered)
        | some (name_len, name) ↦
            let tp_name = from_utf8_or_default name in
            set_tracepoints fuel (set_tracepoint ctx tp_name state, buffered) stream
              ((i + 2 + name_len) % 2 ^ 32) size state
      ]
  ]

  -- A list request does not read; any other command that passes the header is ignored.
  unfoldable pub execute_command : ℕ → Session p → TcpStream → Command → ℕ → Outcome (Session p)
  unfolding set_tracepoints
  execute_command fuel (ctx, buffered) stream tracepoint_list_request size = do
    ctx' ← send_tracepoint_list ctx
    done (ctx', buffered)
  execute_command fuel session stream tracepoint_enable_request size =
      set_tracepoints fuel session stream 0 size true
  execute_command fuel session stream tracepoint_disable_request size =
      set_tracepoints fuel session stream 0 size false
  execute_command fuel session stream _ size = done session

  -- Reads until nothing is there; an error other than that closes the connection.
  unfoldable pub read_empty : ℕ → Session p → TcpStream → Outcome (TracerContext p)
  unfolding drain
  read_empty zero (ctx, buffered) stream = out_of_fuel
  read_empty (suc fuel) (ctx, buffered) stream =
      let r = read_some p stream buffered ctx.net 64 in
      let ctx1 = record ctx { net = r.net } in
      elim (drain r.result) [
        | empty ↦ done ctx1
        | more ↦ read_empty fuel (ctx1, r.buffered) stream
        | broken ↦ close_and_clean_connection ctx1
      ]

  -- What `receive` does when no header can be read.
  unfoldable pub header_failed : TracerContext p → ErrorKind → Outcome (TracerContext p)
  header_failed ctx would_block = done ctx
  header_failed ctx _ = close_and_clean_connection ctx

  -- The loop of `receive`, on the clone of the connection.
  unfoldable pub receive_loop : ℕ → Session p → TcpStream → Outcome (TracerContext p)
  unfolding header_failed read_empty execute_command
  receive_loop zero (ctx, buffered) stream = out_of_fuel
  receive_loop (suc fuel) (ctx, buffered) stream = do
    r ← read_exact p fuel stream buffered ctx.net header_len []
    let ctx1 = record ctx { net = r.net }
    elim r.result [
      | err kind ↦ header_failed ctx1 kind
      | ok header ↦ elim (check_parse_header header) [
        | none ↦ do
          ctx2 ← close_and_clean_connection ctx1
          read_empty fuel (ctx2, r.buffered) stream
        | some (cmd, size) ↦ do
          session ← execute_command fuel (ctx1, r.buffered) stream cmd size
          receive_loop fuel session stream
      ]
    ]

  -- Both `unwrap`s panic. The reader lives as long as the call: what it holds is lost at the end.
  unfoldable pub receive : ℕ → TracerContext p → Outcome (TracerContext p)
  unfolding receive_loop
  receive fuel ctx = elim ctx.connection [
    | none ↦ panic
    | some connection ↦
        let (clone, net) = try_clone connection ctx.net in
        elim clone [
          | none ↦ panic
          | some stream ↦ receive_loop fuel (record ctx { net = net }, []) stream
        ]
  ]

  -- `accept`, `try_clone().unwrap()` and `register(..).expect(..)`.
  unfoldable pub establish_connection : TracerContext p → Outcome (TracerContext p)
  establish_connection ctx =
      let (accepted, net) = accept ctx.listener ctx.net in
      elim accepted [
        | none ↦ done (record ctx { net = net })
        | some socket ↦
            let (clone, net1) = try_clone socket net in
            elim clone [
              | none ↦ panic
              | some temp_con ↦
                  let (registered, net2) = register temp_con net1 in
                  elim registered [
                    | false ↦ panic
                    | true ↦ done (record ctx {
                      net = net2;
                      connection = some socket;
                      flags = store ctx.flags ctx.client_connected true;
                    })
                  ]
            ]
      ]
