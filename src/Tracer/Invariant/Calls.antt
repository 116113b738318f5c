-- ===== src/Tracer/Invariant/Calls.antt =====
-- The calls that the handlers of src/lib.rs make keep the invariant: `append`, `insert_tracepoint`,
-- `announce_tracer` and `establish_connection`.
use libtracy.Common.{
  ◌++◌, ℕ, ◌≡◌, ◌≢◌, refl, true, false, List, [], ◌∷◌, none, some, All, All-append, done, panic,
  Ensures, Ensures-bind, arith, Ensures-any,
}
use libtracy.Text.Names.{IsName}
use libtracy.Wire.Element.{BufferElement}
use libtracy.Platform.{Platform, Arc, Tracepoint, new_tracepoint}
use libtracy.Tracer.HashMap.{insert, values, keys-insert}
use libtracy.Tracer.Flags.{store, length-store, load-store_self}
use libtracy.Tracer.Context.{TracerContext, append, insert_tracepoint}
use libtracy.Tracer.Sender.Groups.{Sendable}
use libtracy.Tracer.Receiver.{establish_connection}
use libtracy.Wire.Header.{magic_numb}
use libtracy.Tracer.Beacon.{announce_tracer, send_beacon, format_json}
use libtracy.Tracer.Invariant.{Inv, Keeps-refl, IsAfter, IsGood}
use libtracy.Tracer.Invariant.Handlers.{timers-IsAfter}

values-insert {κ} :
    (P : Arc → Type κ) (k : List ℕ) (a : Arc) (m : List (List ℕ × Arc))
    → P a
    → All P (values m)
    → All P (values (insert k a m))
unfolding values insert
values-insert P k a [] ha hm = (ha, tt)
values-insert P k a ((j, w) ∷ m) ha hm = ground (arith, values-insert P k a m)

module _ {p : Platform} where
  -- The end of a call that does not look into the channel.
  abbrev pub Leaves : TracerContext p → TracerContext p → Type 0
  Leaves ctx ctx' = Inv ctx' × (ctx'.rec ≡ ctx.rec) × (ctx'.client_connected ≡ ctx.client_connected)

  pub Leaves-IsAfter : (ctx ctx' : TracerContext p) → IsAfter ctx ctx' → Leaves ctx ctx'
  Leaves-IsAfter ctx ctx' (v, k) = (v, k.same_rec, k.same_cell)

  -- What the application sends keeps the invariant.
  pub append-Inv :
      (ctx : TracerContext p) (element : BufferElement)
      → Inv ctx
      → Sendable element
      → Inv (append ctx element)
  unfolding append
  append-Inv ctx element v h = record {
    online = v.online;
    cell = v.cell;
    apart = v.apart;
    names = v.names;
    sendable = All-append Sendable ctx.buffer (element ∷ []) v.sendable (h, tt);
    addressed = v.addressed;
  }

  pub insert-Inv :
      (ctx : TracerContext p) (t : Tracepoint)
      → Inv ctx
      → IsGood ctx.client_connected (new_tracepoint t)
      → Inv (insert_tracepoint ctx t)
  unfolding insert_tracepoint
  insert-Inv ctx t v (n, ne) = record {
    online = v.online;
    cell = v.cell;
    apart = values-insert (λ a. a ≢ ctx.client_connected) t.name t.state ctx.tracepoints ne v.apart;
    names = keys-insert IsName t.name t.state ctx.tracepoints n v.names;
    sendable = v.sendable;
    addressed = v.addressed;
  }

  pub announce-Leaves :
      (ctx : TracerContext p) → Inv ctx → Ensures (Leaves ctx) (announce_tracer ctx)
  unfolding announce_tracer
  announce-Leaves ctx v =
      Ensures-bind (λ _. Unit {0}) (Leaves ctx) (format_json ctx) _ (Ensures-any _)
        λ data_ _.
          Ensures-bind (λ _. Unit {0}) (Leaves ctx)
            (send_beacon p ctx.udp_sock ctx.app_cfg.announce_addr (magic_numb ++ data_) ctx.net) _
            (Ensures-any _)
            λ net _. (
              record {
                online = v.online;
                cell = v.cell;
                apart = v.apart;
                names = v.names;
                sendable = v.sendable;
                addressed = v.addressed;
              },
              refl,
              refl,
            )

  connected-Inv :
      (ctx : TracerContext p) (net : p.Net) (socket : p.TcpStream)
      → Inv ctx
      → Inv (record ctx {
        net = net;
        connection = some socket;
        flags = store ctx.flags ctx.client_connected true;
      })
  connected-Inv ctx net socket v = record {
    online = load-store_self ctx.flags ctx.client_connected true v.cell;
    cell = omega (arith, v.cell, length-store ctx.flags ctx.client_connected true);
    apart = v.apart;
    names = v.names;
    sendable = v.sendable;
    addressed = v.addressed;
  }

  -- A client that is accepted is on line at once, and one that is not changes nothing.
  pub establish-Leaves :
      (ctx : TracerContext p) → Inv ctx → Ensures (Leaves ctx) (establish_connection ctx)
  unfolding establish_connection
  establish-Leaves ctx v =
      let net : p.Net = (p.accept ctx.listener ctx.net).1 in
      let connect = λ (net2 : p.Net) (socket : p.TcpStream). record ctx {
        net = net2;
        connection = some socket;
        flags = store ctx.flags ctx.client_connected true;
      } in
      elim (p.accept ctx.listener ctx.net).0
        as (λ accepted. Ensures (Leaves ctx) (elim accepted [
          | none ↦ done (record ctx { net = net })
          | some socket ↦
              let (clone, net1) = p.try_clone socket net in
              elim clone [
                | none ↦ panic
                | some temp_con ↦
                    let (registered, net2) = p.register temp_con net1 in
                    elim registered [ false ↦ panic | true ↦ done (connect net2 socket) ]
              ]
        ])) [
          | none ↦
              Leaves-IsAfter ctx (record ctx { net = net })
                (timers-IsAfter ctx ctx ctx.timer ctx.queue_timeout ctx.udp_timeout net
                  (v, Keeps-refl ctx))
          | some socket ↦
              elim (p.try_clone socket net).0
                as (λ clone. Ensures (Leaves ctx) (elim clone [
                  | none ↦ panic
                  | some temp_con ↦
                      let (registered, net2) = p.register temp_con (p.try_clone socket net).1 in
                      elim registered [ false ↦ panic | true ↦ done (connect net2 socket) ]
                ])) [
                  | none ↦ tt
                  | some temp_con ↦
                      let (registered, net2) = p.register temp_con (p.try_clone socket net).1 in
                      elim registered
                        as (λ r.
                          Ensures (Leaves ctx)
                            (elim r [ false ↦ panic | true ↦ done (connect net2 socket) ])) [
                              | false ↦ tt
                              | true ↦ (connected-Inv ctx net2 socket v, refl, refl)
                            ]
                ]
        ]
