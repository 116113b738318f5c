-- ===== src/Tracer/Invariant/Setting.antt =====
-- `set_tracepoints` of src/tcp_handler.rs keeps the invariant, whatever the client sends.
use libtracy.Common.{
  ℕ, zero, suc, ◌+◌, ◌%◌, ◌^◌, ◌≡◌, ◌≢◌, refl, ◌∙◌, Bool, List, [], ◌∷◌, Option, none, some, All,
  Outcome, done, ◌>>=◌, Ensures, Ensures-bind, arith, ltb, Ensures-any, Bool-cases, Option-cases,
  inl, inr,
}
use libtracy.Common.Bytes.{from_be_bytes}
use libtracy.Text.Utf8.{from_utf8_or_default}
use libtracy.Text.Ascii.{max_tracepoint_name_len}
use libtracy.Platform.{Platform, Arc, IoResult-cases}
use libtracy.Tracer.HashMap.{get, values}
use libtracy.Tracer.Flags.{store, length-store, load-store_ne}
use libtracy.Tracer.Context.{TracerContext, close_and_clean_connection}
use libtracy.Tracer.Reader.{Read, read_exact}
use libtracy.Tracer.Receiver.{Session, set_tracepoint, close_session, read_name, set_tracepoints}
use libtracy.Tracer.Invariant.{IsAfter}
use libtracy.Tracer.Invariant.Handlers.{timers-IsAfter, close-IsAfter_from}

-- A cell that the map holds is none of those that it does not hold.
get-values {κ} :
    (P : Arc → Type κ) (k : List ℕ) (m : List (List ℕ × Arc)) (a : Arc)
    → All P (values m)
    → get k m ≡ some a
    → P a
unfolding get values
get-values P k [] a h e = cc
get-values P k ((j, w) ∷ m) a h e = ground (arith, get-values P k m a)

module _ {p : Platform} where
  pub net-IsAfter :
      (ctx0 ctx : TracerContext p) (net : p.Net)
      → IsAfter ctx0 ctx
      → IsAfter ctx0 (record ctx { net = net })
  net-IsAfter ctx0 ctx net h =
      timers-IsAfter ctx0 ctx ctx.timer ctx.queue_timeout ctx.udp_timeout net h

  -- A tracepoint's cell is not the one that says whether a client is connected.
  stored-IsAfter :
      (ctx0 ctx : TracerContext p) (a : Arc) (state : Bool)
      → a ≢ ctx.client_connected
      → IsAfter ctx0 ctx
      → IsAfter ctx0 (record ctx { flags = store ctx.flags a state })
  stored-IsAfter ctx0 ctx a state ne (v, k) = (
    record {
      online = load-store_ne ctx.flags a ctx.client_connected state ne ∙ v.online;
      cell = omega (arith, v.cell, length-store ctx.flags a state);
      apart = v.apart;
      names = v.names;
      sendable = v.sendable;
      addressed = v.addressed;
    },
    record {
      same_cfg = k.same_cfg;
      same_occupancy = k.same_occupancy;
      same_rec = k.same_rec;
      same_sock = k.same_sock;
      same_cell = k.same_cell;
      same_tracepoints = k.same_tracepoints;
      same_sequence = k.same_sequence;
    },
  )

  set_tracepoint-IsAfter :
      (ctx0 ctx : TracerContext p) (name : List ℕ) (state : Bool)
      → IsAfter ctx0 ctx
      → IsAfter ctx0 (set_tracepoint ctx name state)
  unfolding set_tracepoint
  set_tracepoint-IsAfter ctx0 ctx name state h =
      elim (get name ctx.tracepoints)
          as (λ g.
            ((a : Arc) → g ≡ some a → a ≢ ctx.client_connected)
            → IsAfter ctx0 (elim g [
              | none ↦ ctx
              | some arc ↦ record ctx { flags = store ctx.flags arc state }
            ])) [
              | none ↦ λ _. h
              | some arc ↦ λ ne. stored-IsAfter ctx0 ctx arc state (ne arc refl) h
            ]
        (λ a e. get-values (λ b. b ≢ ctx.client_connected) name ctx.tracepoints a h.0.apart e)

  -- A session is judged by its context.
  abbrev pub SessionAfter : TracerContext p → Session p → Type 0
  SessionAfter ctx0 session = IsAfter ctx0 session.0

  abbrev NameAfter : TracerContext p → Option (ℕ × List ℕ) × Session p → Type 0
  NameAfter ctx0 r = IsAfter ctx0 r.1.0

  close_session-IsAfter :
      (ctx0 ctx : TracerContext p) (buffered : List ℕ)
      → IsAfter ctx0 ctx
      → Ensures (NameAfter ctx0) (close_session ctx buffered)
  unfolding close_session
  close_session-IsAfter ctx0 ctx buffered h =
      Ensures-bind (IsAfter ctx0) (NameAfter ctx0) (close_and_clean_connection ctx)
        (λ c. done (none, (c, buffered))) (close-IsAfter_from ctx0 ctx h) (λ c hc. hc)

  -- What follows a read is judged whatever it found.
  pub read-Ensures :
      {B : Type 0} (Q : B → Type 0) (fuel : ℕ) (stream : p.TcpStream) (buffered : List ℕ)
      (net : p.Net) (need : ℕ) (f : Read p (List ℕ) → Outcome B)
      → ((r : Read p (List ℕ)) → Ensures Q (f r))
      → Ensures Q (read_exact p fuel stream buffered net need [] >>= f)
  read-Ensures Q fuel stream buffered net need f h =
      Ensures-bind (λ _. Unit {0}) Q (read_exact p fuel stream buffered net need []) f
        (Ensures-any (read_exact p fuel stream buffered net need [])) (λ r _. h r)

  read_name-IsAfter :
      (fuel : ℕ) (ctx0 ctx : TracerContext p) (buffered : List ℕ) (stream : p.TcpStream)
      → IsAfter ctx0 ctx
      → Ensures (NameAfter ctx0) (read_name fuel (ctx, buffered) stream)
  unfolding read_name
  read_name-IsAfter fuel ctx0 ctx buffered stream h =
      read-Ensures (NameAfter ctx0) fuel stream buffered ctx.net 2 _ λ r1.
        let h1 : IsAfter ctx0 (record ctx { net = r1.net }) = net-IsAfter ctx0 ctx r1.net h in
        elim (IoResult-cases r1.result) [
          | inr (_, e) ↦
              rw e (close_session-IsAfter ctx0 (record ctx { net = r1.net }) r1.buffered h1)
          | inl (arr, e) ↦
              rw e (elim (Bool-cases (ltb max_tracepoint_name_len (from_be_bytes arr))) [
                | inl long ↦
                    rw long
                      (close_session-IsAfter ctx0 (record ctx { net = r1.net }) r1.buffered h1)
                | inr short ↦ rw short (
                    read-Ensures (NameAfter ctx0) fuel stream r1.buffered r1.net (from_be_bytes arr)
                      _
                      λ r2.
                        let h2 : IsAfter ctx0 (record ctx { net = r2.net }) =
                          net-IsAfter ctx0 ctx r2.net h in
                        elim (IoResult-cases r2.result) [
                          | inr (_, e2) ↦ rw e2 (
                              close_session-IsAfter ctx0 (record ctx { net = r2.net }) r2.buffered
                                h2)
                          | inl (name, e2) ↦ rw e2 h2
                        ])
              ])
        ]

  pub set_tracepoints-IsAfter :
      (fuel : ℕ) (ctx0 : TracerContext p) (session : Session p) (stream : p.TcpStream) (i size : ℕ)
      (state : Bool)
      → SessionAfter ctx0 session
      → Ensures (SessionAfter ctx0) (set_tracepoints fuel session stream i size state)
  unfolding set_tracepoints
  set_tracepoints-IsAfter zero ctx0 session stream i size state h = tt
  set_tracepoints-IsAfter (suc fuel) ctx0 (ctx, buffered) stream i size state h =
      elim (Bool-cases (ltb i size)) [
        | inr stop ↦ rw (stop, set_tracepoints) h
        | inl go ↦
            rw (go, set_tracepoints)
              (Ensures-bind (NameAfter ctx0) (SessionAfter ctx0)
                (read_name fuel (ctx, buffered) stream) _
                (read_name-IsAfter fuel ctx0 ctx buffered stream h)
                λ (read, (c, b)) hc. elim (Option-cases read) [
                  | inl e ↦ rw e hc
                  | inr ((name_len, name), e) ↦ rw e (
                      set_tracepoints-IsAfter fuel ctx0
                        (set_tracepoint c (from_utf8_or_default name) state, b) stream
                        ((i + 2 + name_len) % 2 ^ 32) size state
                        (set_tracepoint-IsAfter ctx0 c (from_utf8_or_default name) state hc))
                ])
      ]
