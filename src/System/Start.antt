-- ===== src/System/Start.antt =====
-- From `tracy_init` of src/lib.rs to every state that is reached later.
use mathlib.Core.Path.{subst}
use libtracy.Common.{ℕ, ◌≡◌, inl, inr, List, [], Bool, some, length, done, Ensures-done}
use libtracy.Platform.{Platform, ChannelMessage}
use libtracy.Tracer.HashMap.{keys}
use libtracy.Tracer.Context.{TracerContext}
use libtracy.Tracer.Thread.{thread_start}
use libtracy.Tracer.Invariant.Events.{Fifo, Sound}
use libtracy.Tracer.Invariant.Start.{thread_start-Sound}
use libtracy.Api.Handle.{CStr}
use libtracy.Api.Init.{Started, tracy_init}
use libtracy.Api.Start.{started_with, started-IsOffered, tracy_init_cases}
use libtracy.System.{System, Reaches}
use libtracy.System.Reach.{Sends, IsSound, Reaches-IsSound}

module _ (p : Platform) (queued : p.Channel → List ChannelMessage) where
  -- The arguments of the thread are those that `tracy_init` leaves for it.
  abbrev pub ComesUp : Started p → p.Net → TracerContext p → Type 0
  ComesUp started net ctx =
      thread_start p started.app_cfg started.app.tracey.client_connected
        started.app.send_to_tracer_thread started.announce started.app.flags net
      ≡ done ctx

  abbrev pub first_state : Started p → TracerContext p → System p
  first_state started ctx = record { tracey = started.app.tracey; ctx = ctx }

  started-IsSound :
      (channel : p.Channel) (flags : List Bool) (host process : List ℕ)
      (flush_interval announce_interval : ℕ) (iface addr : CStr) (net : p.Net)
      (ctx : TracerContext p)
      → queued channel ≡ []
      → ComesUp
          (started_with p channel flags host process flush_interval announce_interval iface addr)
          net
          ctx
      → IsSound p queued (
          first_state
            (started_with p channel flags host process flush_interval announce_interval iface addr)
            ctx)
  started-IsSound channel flags host process f a iface addr net ctx e h =
      let started = started_with p channel flags host process f a iface addr in
      record {
        thread =
            Ensures-done (Sound p queued (length flags)) _
              (thread_start-Sound p queued (length flags) started.app_cfg channel started.announce
                started.app.flags net
                (started-IsOffered p channel flags queued host process f a iface addr e))
              h;
        names = unfold keys in tt;
      }

  -- From a `tracy_init` that returns a handle, whose thread comes up with a channel that is empty,
  -- every state that application, thread and network reach together is sound, if the channel hands
  -- out its messages in order and a send appends its message or loses it. Sound means: the shared
  -- flag says whether there is a connection, the cells of the tracepoints are other cells, all
  -- names are repaired, what is buffered or under way fits a message, and whoever has a socket to
  -- announce on has an address.
  pub init-Reaches-IsSound :
      (fifo : (c : p.Channel) → Fifo p queued c)
      (sends : (c : p.Channel) (m : ChannelMessage) → Sends p queued c m) (channel : p.Channel)
      (flags : List Bool) (hostname process_name : CStr) (flush_interval announce_interval : ℕ)
      (iface addr : CStr) (started : Started p) (net : p.Net) (ctx : TracerContext p) (t : System p)
      → queued channel ≡ []
      → tracy_init p channel flags hostname process_name flush_interval announce_interval iface addr
        ≡ some started
      → ComesUp started net ctx
      → Reaches (first_state started ctx) t
      → IsSound p queued t
  init-Reaches-IsSound fifo sends channel flags hostname process_name f a iface addr started net ctx
        t e i h r =
      elim (tracy_init_cases p channel flags hostname process_name f a iface addr) [
        | inl (_, n) ↦ cc (n, i)
        | inr (host, process, _, _, _, s) ↦
            let same : started_with p channel flags host process f a iface addr ≡ started =
              cc (s, i) in
            Reaches-IsSound p queued sends fifo r (
              subst (λ st. ComesUp st net ctx → IsSound p queued (first_state st ctx)) same
                (started-IsSound channel flags host process f a iface addr net ctx e) h)
      ]
