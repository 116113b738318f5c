-- ===== src/Tracer/Invariant.antt =====
-- What holds of the tracer thread's context between its calls.
pub mod Handlers
pub mod Sending
pub mod Reading
pub mod Setting
pub mod Events
pub mod Calls
pub mod Loop
pub mod Start
pub mod Drained
pub mod Ending
pub mod Occupancy
use libtracy.Common.{
  ℕ, arith, ◌<◌, ◌≡◌, ◌≢◌, Bool, true, false, ◌&&◌, not, List, Option, none, some, is_some, length,
  All,
}
use libtracy.Text.Names.{IsName}
use libtracy.Wire.Element.{BufferElement}
use libtracy.Platform.{
  Platform, Arc, Tracepoint, ChannelMessage, payload, new_tracepoint, terminate,
}
use libtracy.Tracer.HashMap.{keys, values}
use libtracy.Tracer.Flags.{load}
use libtracy.Tracer.Context.{TracerContext}
use libtracy.Tracer.Sender.Groups.{Sendable}

-- A message of the application's: an element that can be sent, or a repaired name whose cell is not
-- the one that says whether a client is connected.
abbrev pub IsGood : Arc → ChannelMessage → Type 0
IsGood client_connected (payload element) = Sendable element
IsGood client_connected (new_tracepoint t) = IsName t.name × (t.state ≢ client_connected)
IsGood client_connected terminate = Unit

module _ {p : Platform} where
  pub record Inv (ctx : TracerContext p) : Type 0 where
    -- The shared flag says whether there is a connection.
    pub online : load ctx.flags ctx.client_connected ≡ is_some ctx.connection
    pub cell : ctx.client_connected < length ctx.flags
    pub apart : All (λ a. a ≢ ctx.client_connected) (values ctx.tracepoints)
    pub names : All IsName (keys ctx.tracepoints)
    pub sendable : All Sendable ctx.buffer
    -- Whoever has a socket to announce on has an address to announce to.
    pub addressed : (is_some ctx.udp_sock && not (is_some ctx.app_cfg.announce_addr)) ≡ false

  -- What no handler but those named changes: the configuration, the announcing, the cell and the
  -- channel.
  pub record Keeps (ctx ctx' : TracerContext p) : Type 0 where
    pub same_cfg : ctx'.app_cfg ≡ ctx.app_cfg
    pub same_occupancy : ctx'.buffer_occupancy ≡ ctx.buffer_occupancy
    pub same_rec : ctx'.rec ≡ ctx.rec
    pub same_sock : ctx'.udp_sock ≡ ctx.udp_sock
    pub same_cell : ctx'.client_connected ≡ ctx.client_connected
    pub same_tracepoints : ctx'.tracepoints ≡ ctx.tracepoints
    pub same_sequence : ctx'.sequence_no ≡ ctx.sequence_no

  pub Keeps-trans : (a b c : TracerContext p) → Keeps a b → Keeps b c → Keeps a c
  Keeps-trans a b c h k = ground arith

  pub Keeps-refl : (a : TracerContext p) → Keeps a a
  Keeps-refl a = ground arith

  -- The end of a handler that started in `ctx`.
  abbrev pub IsAfter : TracerContext p → TracerContext p → Type 0
  IsAfter ctx ctx' = Inv ctx' × Keeps ctx ctx'
