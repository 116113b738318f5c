-- ===== src/Tests/SystemRuns.antt =====
-- Application and thread together, from a concrete start.
use libtracy.Common.{ℕ, ◌≡◌, inl, refl, true, false, List, [], ◌∷◌, none, some, done, Total, arith}
use libtracy.Text.Utf8.{to_string_lossy}
use libtracy.Text.Ascii.{fix_tracepoint_str}
use libtracy.Wire.Element.{since_epoch}
use libtracy.Platform.{ChannelMessage, new_tracepoint, terminate}
use libtracy.Tracer.HashMap.{get, insert, contains_key}
use libtracy.Tracer.Flags.{alloc}
use libtracy.Tracer.Context.{TracerContext, insert_tracepoint}
use libtracy.Tracer.Thread.{
  tcp_init, bind_from, expect_registered, start_announcing, normal, terminated, data_processed,
  thread_start, thread_loop, event_handler, channel_handler,
}
use libtracy.Api.Handle.{App, returned, tracy_register, tracy_submit, tracy_finit, send_to_tracer}
use libtracy.Api.Init.{should_announce, rawpt_to_str, Started, tracy_init}
use libtracy.Api.Start.{started_with}
use libtracy.System.{System, app_of, with_app, registers, handles, Reaches, stays, goes_on}
use libtracy.System.Reach.{Sends, IsSound, submit_offline}
use libtracy.System.Start.{ComesUp, first_state, init-Reaches-IsSound}
use libtracy.System.Finish.{tracy_finit-IsOver}
use libtracy.Tracer.Invariant.Ending.{IsOver}
use libtracy.Tests.Loopback.{loopback, silent, queued, loopback-Fifo}

loopback-Sends : (c : List ChannelMessage) (m : ChannelMessage) → Sends loopback queued c m
loopback-Sends c m = record { appends = inl refl }

abbrev raw : List ℕ
raw = b'A' ∷ []

abbrev started : Started loopback
started = started_with loopback [] [] raw raw 500 1000 none none

init_succeeds : tracy_init loopback [] [] (some raw) (some raw) 500 1000 none none ≡ some started
unfolding tracy_init alloc
init_succeeds = refl

abbrev fresh : TracerContext loopback
fresh = record {
  app_cfg = started.app_cfg;
  buffer = [];
  buffer_occupancy = 0;
  rec = [];
  timer = [];
  queue_timeout = none;
  udp_timeout = none;
  udp_sock = none;
  listener = 61455;
  connection = none;
  client_connected = 0;
  tracepoints = [];
  sequence_no = 0;
  flags = false ∷ [];
  net = silent;
}

comes_up : ComesUp loopback queued started silent fresh
unfolding thread_start tcp_init bind_from expect_registered start_announcing should_announce
    rawpt_to_str
comes_up = refl

abbrev begun : System loopback
begun = first_state loopback queued started fresh

abbrev lower_name : List ℕ
lower_name = b'a' ∷ []

abbrev registering : App loopback
registering = record {
  tracey = record { client_connected = 0; tracepoints = (lower_name, 1) ∷ [] };
  flags = false ∷ false ∷ [];
  send_to_tracer_thread = new_tracepoint (record { name = lower_name; state = 1 }) ∷ [];
}

registers_once : tracy_register (some (app_of begun)) (some raw) ≡ returned (true, some registering)
unfolding tracy_register fix_tracepoint_str to_string_lossy contains_key get app_of insert alloc
registers_once = refl

abbrev told : System loopback
told = record {
  tracey = registering.tracey;
  ctx = record fresh { flags = registering.flags; rec = registering.send_to_tracer_thread };
}

abbrev knows : System loopback
knows = record told { ctx = record told.ctx { rec = []; tracepoints = (lower_name, 1) ∷ [] } }

handles_it : event_handler 9 (1 ∷ []) normal told.ctx ≡ done (data_processed, knows.ctx)
unfolding event_handler channel_handler insert_tracepoint insert
handles_it = refl

knows_reached : Reaches begun knows
unfolding with_app
knows_reached =
    goes_on (goes_on stays (registers begun raw true registering registers_once))
      (handles told 9 (1 ∷ []) data_processed knows.ctx handles_it)

init-Reaches-IsSound_example : IsSound loopback queued knows
init-Reaches-IsSound_example =
    init-Reaches-IsSound loopback queued loopback-Fifo loopback-Sends [] [] (some raw) (some raw)
      500 1000 none none started silent fresh knows refl init_succeeds comes_up knows_reached

begun-IsSound : IsSound loopback queued begun
begun-IsSound =
    init-Reaches-IsSound loopback queued loopback-Fifo loopback-Sends [] [] (some raw) (some raw)
      500 1000 none none started silent fresh begun refl init_succeeds comes_up stays

submit_offline_example :
    tracy_submit (some (app_of knows)) (some raw) (some (7 ∷ [])) (since_epoch 1 2)
    ≡ some (app_of knows)
submit_offline_example =
    submit_offline loopback queued loopback-Sends loopback-Fifo (some raw) (some (7 ∷ []))
      (since_epoch 1 2) begun-IsSound knows_reached refl

told-IsSound : IsSound loopback queued told
unfolding with_app
told-IsSound =
    init-Reaches-IsSound loopback queued loopback-Fifo loopback-Sends [] [] (some raw) (some raw)
      500 1000 none none started silent fresh told refl init_succeeds comes_up
      (goes_on stays (registers begun raw true registering registers_once))

-- The channel's messages when the handle has been freed.
abbrev last_messages : List ChannelMessage
last_messages = new_tracepoint (record { name = lower_name; state = 1 }) ∷ terminate ∷ []

finishes : tracy_finit (some (app_of told)) ≡ returned last_messages
unfolding tracy_finit send_to_tracer app_of
finishes = refl

tracy_finit-IsOver_example : Total (IsOver loopback queued 0) (
    thread_loop loopback 2
      (some (1 ∷ 3 ∷ []) ∷ none ∷ [])
      (record told.ctx { rec = last_messages }))
tracy_finit-IsOver_example =
    tracy_finit-IsOver loopback queued loopback-Fifo told 2 (3 ∷ []) (none ∷ []) last_messages
      told-IsSound finishes refl (omega arith)

-- No panic in this run.
ends_well :
    thread_loop loopback 2 (some (1 ∷ 3 ∷ []) ∷ none ∷ []) (record told.ctx { rec = last_messages })
    ≡ done (terminated, knows.ctx)
unfolding thread_loop event_handler channel_handler insert_tracepoint insert
ends_well = refl
