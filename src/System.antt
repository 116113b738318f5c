-- ===== src/System.antt =====
-- src/lib.rs as a whole: the application's calls and the tracer thread's rounds, one after the other in
-- any order, on the cells and the channel that they share.
pub mod Reach
pub mod Start
pub mod Finish
use libtracy.Common.{ℕ, ◌≡◌, List, Option, some, Bool, done}
use libtracy.Wire.Element.{SystemTime}
use libtracy.Platform.{Platform}
use libtracy.Tracer.Context.{TracerContext}
use libtracy.Tracer.Thread.{TracerState, normal, event_handler}
use libtracy.Api.Handle.{TracerNg, App, CStr, returned, tracy_register, tracy_submit}

pub record System (p : Platform) : Type 0 where
  pub tracey : TracerNg
  pub ctx : TracerContext p

module _ {p : Platform} where
  -- The application's view: its handle, with the shared cells and the channel's sender.
  unfoldable pub app_of : System p → App p
  app_of s = record { tracey = s.tracey; flags = s.ctx.flags; send_to_tracer_thread = s.ctx.rec }

  unfoldable pub with_app : System p → App p → System p
  with_app s app = record {
    tracey = app.tracey;
    ctx = record s.ctx { flags = app.flags; rec = app.send_to_tracer_thread };
  }

  -- A call of the application's, the events of one `poll` in the thread, or what happens outside: the
  -- network and the clock of the timer do as they like.
  pub data Step : System p → System p → Type 0 where
    registers :
        (s : System p) (raw : List ℕ) (status : Bool) (app : App p)
        → tracy_register (some (app_of s)) (some raw) ≡ returned (status, some app)
        → Step s (with_app s app)
    submits :
        (s : System p) (name : CStr) (data_ : Option (List ℕ)) (now : SystemTime) (app : App p)
        → tracy_submit (some (app_of s)) name data_ now ≡ some app
        → Step s (with_app s app)
    handles :
        (s : System p) (fuel : ℕ) (events : List ℕ) (state : TracerState) (ctx : TracerContext p)
        → event_handler fuel events normal s.ctx ≡ done (state, ctx)
        → Step s (record s { ctx = ctx })
    elapses :
        (s : System p) (net : p.Net) (timer : p.Timer)
        → Step s (record s { ctx = record s.ctx { net = net; timer = timer } })

  pub data Reaches (s : System p) : System p → Type 0 where
    stays : Reaches s s
    goes_on : {t u : System p} → Reaches s t → Step t u → Reaches s u
