-- ===== src/Api/Handle.antt =====
-- `TracerNg` of src/lib.rs and the functions that take it: `tracy_register`,
-- `tracy_tracepoint_enabled`, `tracy_submit`, `tracy_finit` and what they call.
use libtracy.Common.{
  ℕ, Bool, true, false, ◌||◌, List, Option, none, some, if◌then◌else◌, ltb, ◌==◌, length,
}
use libtracy.Text.Utf8.{to_string_lossy}
use libtracy.Text.Ascii.{fix_tracepoint_str}
use libtracy.Wire.Element.{BufferElement, SystemTime}
use libtracy.Platform.{
  Platform, Arc, Tracepoint, ChannelMessage, payload, new_tracepoint, terminate,
}
use libtracy.Tracer.HashMap.{get, insert, contains_key}
use libtracy.Tracer.Flags.{load, alloc}

abbrev pub max_submit_len : ℕ
max_submit_len = 2048

pub record TracerNg : Type 0 where
  pub client_connected : Arc
  pub tracepoints : List (List ℕ × Arc)

-- The application's side: its handle, the cells that it shares with the tracer thread, and the
-- sender of the channel.
pub record App (p : Platform) : Type 0 where
  pub tracey : TracerNg
  pub flags : List Bool
  pub send_to_tracer_thread : p.Channel

-- A C string: the bytes in front of its zero, or a NULL pointer.
abbrev pub CStr : Type 0
CStr = Option (List ℕ)

-- What a call returns; `fault` is undefined behaviour, the use of a NULL pointer.
pub data Returns {ℓ} (A : Type ℓ) : Type ℓ where
  returned : A → Returns A
  fault : Returns A

unfoldable pub tracepoint_enabled : TracerNg → List Bool → List ℕ → Bool
tracepoint_enabled tracey flags tracepoint = elim (get tracepoint tracey.tracepoints) [
  | none ↦ false
  | some truth ↦ load flags truth
]

-- 0 or -1: `true` is 0.
abbrev pub Status : Type 0
Status = Bool

module _ {p : Platform} where
  open p use {send}

  -- A message that cannot be sent is reported and dropped.
  unfoldable pub send_to_tracer : App p → ChannelMessage → App p
  send_to_tracer app msg =
      let (sent, channel) = send app.send_to_tracer_thread msg in
      record app { send_to_tracer_thread = channel }

  -- The handle's part of `tracy_register`, with the repaired name.
  unfoldable pub register_repaired : App p → List ℕ → Status × App p
  unfolding send_to_tracer
  register_repaired app name =
      let (state, flags) = alloc app.flags false in
      let tracey = record app.tracey { tracepoints = insert name state app.tracey.tracepoints } in
      let app1 = record app { tracey = tracey; flags = flags } in
      let tracepoint : Tracepoint = record { name = name; state = state } in
      if contains_key name app.tracey.tracepoints
      then (false, app)
      else (true, send_to_tracer app1 (new_tracepoint tracepoint))

  -- `none` for the handle is a NULL pointer. The name is used without a test for NULL.
  unfoldable pub tracy_register : Option (App p) → CStr → Returns (Status × Option (App p))
  unfolding register_repaired
  tracy_register none name = returned (false, none)
  tracy_register (some app) none = fault
  tracy_register (some app) (some raw) = elim (fix_tracepoint_str (to_string_lossy raw)) [
    | none ↦ returned (false, some app)
    | some name ↦ let (status, app') = register_repaired app name in returned (status, some app')
  ]

  -- Neither pointer is tested for NULL, and the name is taken as it is.
  unfoldable pub tracy_tracepoint_enabled : Option (App p) → CStr → Returns Bool
  unfolding tracepoint_enabled
  tracy_tracepoint_enabled none name = fault
  tracy_tracepoint_enabled (some app) none = fault
  tracy_tracepoint_enabled (some app) (some raw) =
      returned (tracepoint_enabled app.tracey app.flags (to_string_lossy raw))

  -- The handle is freed: what is left is the channel with its last message.
  unfoldable pub tracy_finit : Option (App p) → Returns (p.Channel)
  unfolding send_to_tracer
  tracy_finit none = fault
  tracy_finit (some app) = returned (send_to_tracer app terminate).send_to_tracer_thread

  -- `tracy_submit` behind its tests of the pointers: the name, the data and the clock's reading.
  unfoldable pub submit_checked : App p → List ℕ → List ℕ → SystemTime → App p
  unfolding send_to_tracer
  submit_checked app raw bytes now =
      if load app.flags app.tracey.client_connected
      then elim (fix_tracepoint_str (to_string_lossy raw)) [
        | none ↦ app
        | some name ↦
            let element : BufferElement = record {
              tracepoint = name;
              timestamp = now;
              payload = bytes;
            } in
            if tracepoint_enabled app.tracey app.flags name
            then send_to_tracer app (payload element)
            else app
      ]
      else app

  -- `data_len` is the length of the data that the pointer refers to.
  unfoldable pub tracy_submit :
      Option (App p) → CStr → Option (List ℕ) → SystemTime → Option (App p)
  unfolding submit_checked
  tracy_submit none name bytes now = none
  tracy_submit (some app) none bytes now = some app
  tracy_submit (some app) (some raw) none now = some app
  tracy_submit (some app) (some raw) (some bytes) now =
      if length bytes == 0 || ltb max_submit_len (length bytes)
      then some app
      else some (submit_checked app raw bytes now)
