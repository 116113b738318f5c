-- ===== src/Api/Submit.antt =====
-- src/lib.rs: what `tracy_submit` sends, and when.
use libtracy.Common.{
  Option, none, ℕ, ◌≤◌, ◌≡◌, ◌⊎◌, ◌||◌, inl, inr, refl, ap, ◌∙◌, true, false, List, some, arith,
  length, ltb, ◌==◌, Bool-cases, Option-cases, take,
}
use libtracy.Text.Utf8.{to_string_lossy}
use libtracy.Text.Ascii.{is_ascii, to_lowercase, fix_tracepoint_str, max_tracepoint_name_len}
use libtracy.Text.Names.{fix_tracepoint_str_cases}
use libtracy.Wire.Element.{BufferElement, SystemTime, element_len}
use libtracy.Platform.{Platform, Arc, payload}
use libtracy.Tracer.HashMap.{get}
use libtracy.Tracer.Flags.{load}
use libtracy.Tracer.Sender.Groups.{Sendable}
use libtracy.Api.Handle.{
  CStr, App, max_submit_len, tracepoint_enabled, submit_checked, tracy_submit,
}

-- The name under which a submission runs.
abbrev pub repaired : List ℕ → List ℕ
repaired raw = to_lowercase (take max_tracepoint_name_len (to_string_lossy raw))

abbrev pub submission : List ℕ → List ℕ → SystemTime → BufferElement
submission raw bytes now = record { tracepoint = repaired raw; timestamp = now; payload = bytes }

module _ {p : Platform} where
  -- A tracepoint of this name is registered, and its cell is on.
  abbrev pub IsEnabled : App p → List ℕ → Type 0
  IsEnabled app name =
      (cell : Arc) × (get name app.tracey.tracepoints ≡ some cell) × (load app.flags cell ≡ true)

  tracepoint_enabled_cases :
      (app : App p) (name : List ℕ)
      → (IsEnabled app name × (tracepoint_enabled app.tracey app.flags name ≡ true))
        ⊎ ((¬ IsEnabled app name) × (tracepoint_enabled app.tracey app.flags name ≡ false))
  unfolding tracepoint_enabled
  tracepoint_enabled_cases app name = elim (Option-cases (get name app.tracey.tracepoints)) [
    | inl e ↦ inr (λ (_, f, _). cc (e, f), ground arith)
    | inr (cell, e) ↦ elim (Bool-cases (load app.flags cell)) [
      | inl on ↦ inl ((cell, e, on), ground arith)
      | inr off ↦ inr (
        λ (other, f, on).
            let same : cell ≡ other = cc (e, f) in cc (ap (load app.flags) same, on, off),
        ground arith,
      )
    ]
  ]

  -- The conditions of doc and header: data of 1 to 2048 bytes, a client that is connected, a name in
  -- ASCII, and a tracepoint that is registered and enabled.
  pub record IsAccepted (app : App p) (raw bytes : List ℕ) : Type 0 where
    pub some_data : 1 ≤ length bytes
    pub short : length bytes ≤ max_submit_len
    pub connected : load app.flags app.tracey.client_connected ≡ true
    pub ascii : is_ascii (to_string_lossy raw) ≡ true
    pub enabled : IsEnabled app (repaired raw)

  abbrev pub submitted : App p → List ℕ → List ℕ → SystemTime → App p
  submitted app raw bytes now = record app {
    send_to_tracer_thread =
        (p.send app.send_to_tracer_thread (payload (submission raw bytes now))).1;
  }

  -- An accepted submission fits a message of its own.
  pub IsAccepted-Sendable :
      (app : App p) (raw bytes : List ℕ) (now : SystemTime)
      → IsAccepted app raw bytes
      → Sendable (submission raw bytes now)
  unfolding element_len
  IsAccepted-Sendable app raw bytes now a = elim (fix_tracepoint_str_cases (to_string_lossy raw)) [
    | inl (e, _) ↦ cc (a.ascii)
    | inr (name, _, _, same, v) ↦ omega (arith, ap length same, v.short, a.short)
  ]

  repaired-short :
      (app : App p) (raw bytes : List ℕ)
      → IsAccepted app raw bytes
      → length (repaired raw) ≤ max_tracepoint_name_len
  repaired-short app raw bytes a = elim (fix_tracepoint_str_cases (to_string_lossy raw)) [
    | inl (e, _) ↦ cc (a.ascii)
    | inr (name, _, _, same, v) ↦ omega (arith, ap length same, v.short)
  ]

  submit_checked-cases :
      (app : App p) (raw bytes : List ℕ) (now : SystemTime)
      → ((load app.flags app.tracey.client_connected ≡ true)
          × (is_ascii (to_string_lossy raw) ≡ true)
          × IsEnabled app (repaired raw)
          × (submit_checked app raw bytes now ≡ submitted app raw bytes now))
        ⊎ ((((load app.flags app.tracey.client_connected ≡ false)
              ⊎ ((is_ascii (to_string_lossy raw) ≡ false) ⊎ (¬ IsEnabled app (repaired raw)))))
            × (submit_checked app raw bytes now ≡ app))
  unfolding submit_checked
  submit_checked-cases app raw bytes now = elim (fix_tracepoint_str_cases (to_string_lossy raw)) [
    | inl (e, f) ↦ inr (inr (inl e), ground arith)
    | inr (name, e, f, same, _) ↦
        let fixed : fix_tracepoint_str (to_string_lossy raw) ≡ some (repaired raw) =
          f ∙ ap some same in
        elim (Bool-cases (load app.flags app.tracey.client_connected)) [
          | inr off ↦ inr (inl off, ground arith)
          | inl on ↦ elim (tracepoint_enabled_cases app (repaired raw)) [
            | inl (enabled, t) ↦ inl (on, e, enabled, rw (on, fixed, t) refl)
            | inr (disabled, t) ↦ inr (inr (inr disabled), rw (on, fixed, t) refl)
          ]
        ]
  ]

  -- With valid pointers, `tracy_submit` sends the tracer thread one message with the repaired name, the
  -- time and a copy of the data if the submission is accepted, and otherwise changes nothing.
  pub tracy_submit_cases :
      (app : App p) (raw bytes : List ℕ) (now : SystemTime)
      → (IsAccepted app raw bytes
          × (tracy_submit (some app) (some raw) (some bytes) now
              ≡ some (submitted app raw bytes now)))
        ⊎ ((¬ IsAccepted app raw bytes)
            × (tracy_submit (some app) (some raw) (some bytes) now ≡ some app))
  unfolding tracy_submit
  tracy_submit_cases app raw bytes now =
      elim (Bool-cases (length bytes == 0 || ltb max_submit_len (length bytes))) [
        | inl bad ↦ inr (λ a. ground (arith, a.some_data, a.short), ground arith)
        | inr good ↦ elim (submit_checked-cases app raw bytes now) [
          | inl (on, e, enabled, r) ↦ inl (
            record {
              some_data = ground arith;
              short = ground arith;
              connected = on;
              ascii = e;
              enabled = enabled;
            },
            ground arith,
          )
          | inr (refused, r) ↦ inr (
            λ a. elim refused [
              | inl off ↦ cc (off, a.connected)
              | inr (inl e) ↦ cc (e, a.ascii)
              | inr (inr disabled) ↦ disabled a.enabled
            ],
            ground arith,
          )
        ]
      ]

  -- Whatever pointers `tracy_submit` is given, it returns with a valid handle to the same handle and the
  -- same cells; to the channel it sends nothing, or one element that fits a message of its own, whose
  -- data has 1 to 2048 bytes and whose name has at most 32.
  pub tracy_submit-Sendable :
      (app : App p) (name : CStr) (data_ : Option (List ℕ)) (now : SystemTime)
      → (tracy_submit (some app) name data_ now ≡ some app)
        ⊎ ((element : BufferElement) × (tracy_submit (some app) name data_ now
              ≡ some (record app {
                send_to_tracer_thread = (p.send app.send_to_tracer_thread (payload element)).1;
              }))
            × Sendable element
            × (1 ≤ length element.payload)
            × (length element.payload ≤ 2048)
            × (length element.tracepoint ≤ 32))
  tracy_submit-Sendable app none data_ now = inl (unfold tracy_submit in refl)
  tracy_submit-Sendable app (some raw) none now = inl (unfold tracy_submit in refl)
  tracy_submit-Sendable app (some raw) (some bytes) now =
      elim (tracy_submit_cases app raw bytes now) [
        | inr (_, r) ↦ inl r
        | inl (a, r) ↦ inr (
          submission raw bytes now,
          r,
          IsAccepted-Sendable app raw bytes now a,
          a.some_data,
          a.short,
          repaired-short app raw bytes a,
        )
      ]
