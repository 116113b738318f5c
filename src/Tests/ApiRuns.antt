-- ===== src/Tests/ApiRuns.antt =====
-- The C interface at concrete handles.
use libtracy.Common.{
  ◌≤◌, length, ℕ, ◌≡◌, ◌≢◌, ◌⊎◌, refl, true, false, List, [], ◌∷◌, none, some, arith, bytes_eq,
}
use libtracy.Text.Utf8.{to_string_lossy, lossy_from}
use libtracy.Text.Ascii.{is_ascii, lower, to_lowercase, fix_tracepoint_str}
use libtracy.Text.Names.{IsName}
use libtracy.Wire.Element.{since_epoch, BufferElement}
use libtracy.Platform.{payload, new_tracepoint}
use libtracy.Tracer.HashMap.{get, keys, contains_key, insert}
use libtracy.Tracer.Flags.{load, alloc}
use libtracy.Tracer.Sender.Groups.{Sendable}
use libtracy.Api.Handle.{
  App, returned, tracepoint_enabled, tracy_register, tracy_tracepoint_enabled, tracy_submit,
}
use libtracy.Api.Init.{tracy_init}
use libtracy.Api.Register.{
  HasNames, Registers, is_registered, tracy_register_cases, tracy_register-HasNames,
  enabled_unrepaired,
}
use libtracy.Api.Submit.{IsAccepted, submitted, repaired, tracy_submit-Sendable, tracy_submit_cases}
use libtracy.Api.Start.{started_with, tracy_init_cases}
use libtracy.Tests.Loopback.{loopback}

abbrev app : App loopback
app = record {
  tracey = record { client_connected = 0; tracepoints = (b'a' ∷ [], 1) ∷ [] };
  flags = true ∷ true ∷ [];
  send_to_tracer_thread = [];
}

abbrev raw : List ℕ
raw = b'A' ∷ []

app_HasNames : HasNames app
unfolding keys
app_HasNames = (record { short = omega arith; letters = omega arith }, tt)

tracy_submit_cases_example :
    (IsAccepted app raw (7 ∷ [])
      × (tracy_submit (some app) (some raw) (some (7 ∷ [])) (since_epoch 1 2)
          ≡ some (submitted app raw (7 ∷ []) (since_epoch 1 2))))
    ⊎ ((¬ IsAccepted app raw (7 ∷ []))
        × (tracy_submit (some app) (some raw) (some (7 ∷ [])) (since_epoch 1 2) ≡ some app))
tracy_submit_cases_example = tracy_submit_cases app raw (7 ∷ []) (since_epoch 1 2)

raw-IsAccepted : IsAccepted app raw (7 ∷ [])
unfolding to_string_lossy lossy_from is_ascii lower to_lowercase load tracepoint_enabled get
    bytes_eq
raw-IsAccepted = record {
  some_data = omega arith;
  short = omega arith;
  connected = refl;
  ascii = refl;
  enabled = (1, refl, refl);
}

tracy_submit-Sendable_example :
    (tracy_submit (some app) (some raw) (some (7 ∷ [])) (since_epoch 1 2) ≡ some app)
    ⊎ ((element : BufferElement) × (tracy_submit
            (some app)
            (some raw)
            (some (7 ∷ []))
            (since_epoch 1 2)
          ≡ some (record app { send_to_tracer_thread = payload element ∷ [] }))
        × Sendable element
        × (1 ≤ length element.payload)
        × (length element.payload ≤ 2048)
        × (length element.tracepoint ≤ 32))
tracy_submit-Sendable_example =
    tracy_submit-Sendable app (some raw) (some (7 ∷ [])) (since_epoch 1 2)

tracy_register_cases_example :
    ((is_ascii (to_string_lossy raw) ≡ false)
      × (tracy_register (some app) (some raw) ≡ returned (false, some app)))
    ⊎ ((is_ascii (to_string_lossy raw) ≡ true)
        × (is_registered app (repaired raw) ≡ true)
        × (tracy_register (some app) (some raw) ≡ returned (false, some app)))
    ⊎ ((app' : App loopback) × (is_ascii (to_string_lossy raw) ≡ true)
        × (is_registered app (repaired raw) ≡ false)
        × (tracy_register (some app) (some raw) ≡ returned (true, some app'))
        × Registers app (repaired raw) app')
tracy_register_cases_example = tracy_register_cases app raw

-- The handle when `B` has been registered too.
abbrev grown : App loopback
grown = record {
  tracey = record { client_connected = 0; tracepoints = (b'a' ∷ [], 1) ∷ (b'b' ∷ [], 2) ∷ [] };
  flags = true ∷ true ∷ false ∷ [];
  send_to_tracer_thread = new_tracepoint (record { name = b'b' ∷ []; state = 2 }) ∷ [];
}

accepted : tracy_register (some app) (some (b'B' ∷ [])) ≡ returned (true, some grown)
unfolding tracy_register to_string_lossy lossy_from is_ascii lower to_lowercase get contains_key
    insert alloc fix_tracepoint_str bytes_eq
accepted = refl

tracy_register-HasNames_example : HasNames grown
tracy_register-HasNames_example =
    tracy_register-HasNames app grown (b'B' ∷ []) true app_HasNames accepted

raw_not_IsName : ¬ IsName (to_string_lossy raw)
unfolding to_string_lossy lossy_from
raw_not_IsName v = omega (arith, v.letters)

enabled_unrepaired_example : tracy_tracepoint_enabled (some app) (some raw) ≡ returned false
enabled_unrepaired_example = enabled_unrepaired app raw app_HasNames raw_not_IsName

tracy_init_cases_example :
    (((some raw ≡ none) ⊎ ((some raw ≡ none) ⊎ (◌≡◌ {A = ℕ} 500 0)))
      × (tracy_init loopback [] [] (some raw) (some raw) 500 1000 none none ≡ none))
    ⊎ ((host process : List ℕ) × (some raw ≡ some host)
        × (some raw ≡ some process)
        × (◌≢◌ {A = ℕ} 500 0)
        × (tracy_init loopback [] [] (some raw) (some raw) 500 1000 none none
            ≡ some (started_with loopback [] [] host process 500 1000 none none)))
tracy_init_cases_example = tracy_init_cases loopback [] [] (some raw) (some raw) 500 1000 none none
