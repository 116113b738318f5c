-- ===== src/Tracer/Sender/Messages.antt =====
-- src/tcp_handler.rs: how long the messages are that `send_trace_data` hands to the platform.
use mathlib.Core.Path.{subst}
use libtracy.Common.{
  ℕ, ◌%◌, ◌^◌, ◌<◌, ◌≡◌, refl, sym, ap, ◌∙◌, true, false, List, [], ◌∷◌, ◌++◌, append_assoc,
  append-nil, none, some, arith, length, length-append, All, All-append, done, panic, ◌>>=◌,
  Ensures, Ensures-mono, Total,
}
use libtracy.Wire.Element.{BufferElement}
use libtracy.Wire.HeaderLaws.{header_bytes, length-header_bytes}
use libtracy.Wire.Samples.{encoded_all}
use libtracy.Wire.Header.{trace_push}
use libtracy.Wire.Frames.{frame_bytes}
use libtracy.Platform.{Platform}
use libtracy.Tracer.Flags.{store}
use libtracy.Tracer.Context.{TracerContext, clean_connection, close_and_clean_connection}
use libtracy.Tracer.Context.Close.{clean_connection-net}
use libtracy.Tracer.Sender.{write_result, or_close, send_trace_data}
use libtracy.Tracer.Sender.Groups.{
  Sendable, FitsMessage, flatten, groups, groups-FitsMessage, push_frame,
}
use libtracy.Tracer.Sender.Refinement.{send_bytes, send_groups, send_trace_data-groups}
use libtracy.Tracer.Thread.Finish.{send_trace_data-Finishes}

-- The total size of 4096 bytes, and three bytes more.
abbrev pub IsBounded : List ℕ → Type 0
IsBounded message = length message < 4100

frame-IsBounded : (g : List BufferElement) → FitsMessage g → IsBounded (frame_bytes (push_frame g))
unfolding frame_bytes push_frame
frame-IsBounded g h = omega (
  arith,
  h,
  length-append (header_bytes trace_push (length (encoded_all g) % 2 ^ 32)) (encoded_all g),
  length-header_bytes trace_push (length (encoded_all g) % 2 ^ 32),
)

-- `sent` is the log of the messages that were handed to the platform.
module _ (p : Platform) (sent : p.Net → List (List ℕ)) where
  -- A write is logged whether or not it succeeds, and nothing else is.
  pub record Logs : Type 0 where
    pub writes :
        (stream : p.TcpStream) (bytes : List ℕ) (net : p.Net)
        → sent (p.write_all stream bytes net).1 ≡ sent net ++ bytes ∷ []
    pub clones : (stream : p.TcpStream) (net : p.Net) → sent (p.try_clone stream net).1 ≡ sent net
    pub leaves : (stream : p.TcpStream) (net : p.Net) → sent (p.deregister stream net) ≡ sent net

  -- Bounded messages were handed over between the first state and the second.
  abbrev pub Wrote : p.Net → p.Net → Type 0
  Wrote net net' = (ms : List (List ℕ)) × (sent net' ≡ sent net ++ ms) × All IsBounded ms

  silent-Wrote : (net net' : p.Net) → sent net' ≡ sent net → Wrote net net'
  silent-Wrote net net' e = ([], e ∙ sym (append-nil (sent net)), tt)

  Wrote-trans : (a b c : p.Net) → Wrote a b → Wrote b c → Wrote a c
  Wrote-trans a b c (ms, e, h) (ns, f, k) = (
    ms ++ ns,
    f ∙ ap (λ xs. xs ++ ns) e ∙ append_assoc (sent a) ms ns,
    All-append IsBounded ms ns h k,
  )

  module _ (logs : Logs) where
    clean-Wrote :
        (ctx : TracerContext p) (stream : p.TcpStream)
        → Wrote ctx.net (clean_connection ctx stream).net
    clean-Wrote ctx stream =
        let net = (p.try_clone stream ctx.net).1 in
        silent-Wrote ctx.net (clean_connection ctx stream).net (
          ap sent (clean_connection-net ctx stream)
          ∙ (elim (p.try_clone stream ctx.net).0
              as (λ copy.
                sent (elim copy [ none ↦ net | some tmp ↦ p.deregister tmp net ]) ≡ sent net) [
                  | none ↦ refl
                  | some tmp ↦ logs.leaves tmp net
                ])
          ∙ logs.clones stream ctx.net)

    close-Wrote :
        (ctx : TracerContext p)
        → Ensures (λ c. Wrote ctx.net c.net) (close_and_clean_connection ctx)
    unfolding close_and_clean_connection
    close-Wrote ctx =
        let ctx1 : TracerContext p = record ctx {
          flags = store ctx.flags ctx.client_connected false;
        } in
        elim ctx.connection
          as (λ c.
            Ensures (λ c'. Wrote ctx.net c'.net)
              (elim c [ none ↦ panic | some stream ↦ done (clean_connection ctx1 stream) ])) [
                | none ↦ tt
                | some stream ↦ clean-Wrote ctx1 stream
              ]

    send_groups-Wrote :
        (gs : List (List BufferElement)) (ctx : TracerContext p)
        → All FitsMessage gs
        → Ensures (λ c. Wrote ctx.net c.net) (send_groups gs ctx)
    unfolding send_groups send_bytes or_close
    send_groups-Wrote [] ctx h = silent-Wrote ctx.net ctx.net refl
    send_groups-Wrote (g ∷ gs) ctx h =
        let frame : List ℕ = frame_bytes (push_frame g) in
        let behind : TracerContext p = record ctx { buffer = flatten gs } in
        elim ctx.connection
          as (λ c.
            Ensures (λ c'. Wrote ctx.net c'.net)
              ((elim c [
                | none ↦ panic
                | some stream ↦
                    let (r, net) = p.write_all stream frame ctx.net in
                    done (write_result r, record behind { net = net })
              ])
                >>= or_close (send_groups gs))) [
                  | none ↦ tt
                  | some stream ↦
                      let (r, net) = p.write_all stream frame ctx.net in
                      let next : TracerContext p = record behind { net = net } in
                      let wrote : Wrote ctx.net net = (
                        frame ∷ [],
                        logs.writes stream frame ctx.net,
                        (frame-IsBounded g h.0, tt),
                      ) in
                      elim (write_result r)
                        as (λ b.
                          Ensures (λ c'. Wrote ctx.net c'.net)
                            (or_close (send_groups gs) (b, next))) [
                              | true ↦
                                  Ensures-mono (λ c. Wrote net c.net) (λ c. Wrote ctx.net c.net)
                                    (send_groups gs next) (send_groups-Wrote gs next h.1)
                                    (λ c w. Wrote-trans ctx.net net c.net wrote w)
                              | false ↦
                                  Ensures-mono (λ c. Wrote net c.net) (λ c. Wrote ctx.net c.net)
                                    (close_and_clean_connection next) (close-Wrote next)
                                    (λ c w. Wrote-trans ctx.net net c.net wrote w)
                            ]
                ]

    -- For a buffer whose elements each fit a message of their own, and a platform that logs each write
    -- and nothing else, `send_trace_data` ends within its fuel, and where it does not panic, every
    -- message that it hands over, also one whose write fails, is shorter than 4100 bytes with its header.
    pub send_trace_data-IsBounded :
        (ctx : TracerContext p)
        → All Sendable ctx.buffer
        → Total (λ c. Wrote ctx.net c.net) (send_trace_data ctx)
    send_trace_data-IsBounded ctx h = (
      subst (Ensures (λ c. Wrote ctx.net c.net)) (sym (send_trace_data-groups ctx h))
          (send_groups-Wrote (groups ctx.buffer) ctx (groups-FitsMessage ctx.buffer h)),
      send_trace_data-Finishes ctx h,
    )
