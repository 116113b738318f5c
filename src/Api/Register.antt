-- ===== src/Api/Register.antt =====
-- src/lib.rs: what `tracy_register` and `tracy_tracepoint_enabled` do on every branch.
use mathlib.Core.Path.{subst}
use libtracy.Common.{
  ℕ, ◌≡◌, ◌≢◌, ◌⊎◌, inl, inr, refl, ap, ◌∙◌, Bool, true, false, List, [], ◌∷◌, ◌++◌, some, arith,
  length, bytes_eq_refl, bytes_eq_iff, All, Bool-cases, Option-cases, take,
}
use libtracy.Text.Utf8.{to_string_lossy}
use libtracy.Text.Ascii.{is_ascii, to_lowercase, fix_tracepoint_str, max_tracepoint_name_len}
use libtracy.Text.Names.{IsName, fix_tracepoint_str_cases}
use libtracy.Platform.{Platform, Tracepoint, new_tracepoint}
use libtracy.Tracer.HashMap.{get, insert, keys, contains_key, get-insert, keys-insert, get-All}
use libtracy.Tracer.Flags.{load, alloc}
use libtracy.Api.Handle.{
  App, returned, tracepoint_enabled, register_repaired, tracy_register, tracy_tracepoint_enabled,
}

pub load-alloc_new : (cells : List Bool) → load (cells ++ false ∷ []) (length cells) ≡ false
unfolding load
load-alloc_new [] = refl
load-alloc_new (c ∷ cs) = load-alloc_new cs

module _ {p : Platform} where
  -- The names in the handle's map are repaired names.
  abbrev pub HasNames : App p → Type 0
  HasNames app = All IsName (keys app.tracey.tracepoints)

  -- The tracepoint that a registration announces to the tracer thread.
  abbrev pub announced : App p → List ℕ → Tracepoint
  announced app name = record { name = name; state = length app.flags }

  abbrev pub is_registered : App p → List ℕ → Bool
  is_registered app name = contains_key name app.tracey.tracepoints

  -- What a registration that succeeds leaves: the name is in the map with a cell of its own, which is
  -- off, and the tracer thread is sent the same cell under the same name.
  pub record Registers (app : App p) (name : List ℕ) (app' : App p) : Type 0 where
    pub found : get name app'.tracey.tracepoints ≡ some (length app.flags)
    pub others :
        (j : List ℕ) → j ≢ name → get j app'.tracey.tracepoints ≡ get j app.tracey.tracepoints
    pub off : load app'.flags (length app.flags) ≡ false
    pub sent :
        app'.send_to_tracer_thread
        ≡ (p.send app.send_to_tracer_thread (new_tracepoint (announced app name))).1

  -- The handle after a registration under a name that is new.
  abbrev pub registered : App p → List ℕ → App p
  registered app name = record app {
    tracey = record app.tracey {
      tracepoints = insert name (length app.flags) app.tracey.tracepoints;
    };
    flags = app.flags ++ false ∷ [];
    send_to_tracer_thread =
        (p.send app.send_to_tracer_thread (new_tracepoint (announced app name))).1;
  }

  registered-Registers : (app : App p) (name : List ℕ) → Registers app name (registered app name)
  registered-Registers app name = record {
    found =
        get-insert name name (length app.flags) app.tracey.tracepoints ∙ rw (bytes_eq_refl name);
    others = λ j ne.
        get-insert name j (length app.flags) app.tracey.tracepoints
        ∙ ground (arith, bytes_eq_iff name j);
    off = load-alloc_new app.flags;
    sent = refl;
  }

  register_repaired-new :
      (app : App p) (name : List ℕ)
      → is_registered app name ≡ false
      → register_repaired app name ≡ (true, registered app name)
  unfolding register_repaired alloc
  register_repaired-new app name h = rw h

  register_repaired-old :
      (app : App p) (name : List ℕ)
      → is_registered app name ≡ true
      → register_repaired app name ≡ (false, app)
  unfolding register_repaired
  register_repaired-old app name h = rw h

  -- With valid pointers, `tracy_register` refuses a name that is not ASCII and a name that is
  -- registered after the repair, and changes nothing; any other name it registers under the repaired
  -- form.
  pub tracy_register_cases :
      (app : App p) (raw : List ℕ)
      → let text = to_string_lossy raw in
        let name = to_lowercase (take max_tracepoint_name_len text) in
        ((is_ascii text ≡ false)
          × (tracy_register (some app) (some raw) ≡ returned (false, some app)))
        ⊎ ((is_ascii text ≡ true)
            × (is_registered app name ≡ true)
            × (tracy_register (some app) (some raw) ≡ returned (false, some app)))
        ⊎ ((app' : App p) × (is_ascii text ≡ true)
            × (is_registered app name ≡ false)
            × (tracy_register (some app) (some raw) ≡ returned (true, some app'))
            × Registers app name app')
  unfolding tracy_register
  tracy_register_cases app raw = elim (fix_tracepoint_str_cases (to_string_lossy raw)) [
    | inl (e, f) ↦ inl (e, rw (f, tracy_register))
    | inr (name, e, f, same, _) ↦
        let fixed : List ℕ = to_lowercase (take max_tracepoint_name_len (to_string_lossy raw)) in
        let repaired : fix_tracepoint_str (to_string_lossy raw) ≡ some fixed = f ∙ ap some same in
        elim (Bool-cases (is_registered app fixed)) [
          | inl r ↦
              inr
                (inl (e, r, rw (repaired, tracy_register) (rw (register_repaired-old app fixed r))))
          | inr r ↦ inr (
              inr (
                registered app fixed,
                e,
                r,
                rw (repaired, tracy_register) (rw (register_repaired-new app fixed r)),
                registered-Registers app fixed,
              ))
        ]
  ]

  registered-HasNames :
      (app : App p) (name : List ℕ) → IsName name → HasNames app → HasNames (registered app name)
  registered-HasNames app name v h =
      keys-insert IsName name (length app.flags) app.tracey.tracepoints v h

  -- If the names of the handle are in repaired form, they are so after a call of `tracy_register`
  -- with valid pointers, whatever name it is given.
  pub tracy_register-HasNames :
      (app app' : App p) (raw : List ℕ) (status : Bool)
      → HasNames app
      → tracy_register (some app) (some raw) ≡ returned (status, some app')
      → HasNames app'
  unfolding tracy_register
  tracy_register-HasNames app app' raw status h r =
      elim (fix_tracepoint_str_cases (to_string_lossy raw)) [
        | inl (_, f) ↦ let q : app ≡ app' = ground arith in subst HasNames q h
        | inr (name, _, f, _, v) ↦ elim (Bool-cases (is_registered app name)) [
          | inl old ↦
              let q : app ≡ app' = ground (arith, register_repaired-old app name old) in
              subst HasNames q h
          | inr new ↦
              let q : registered app name ≡ app' =
                ground (arith, register_repaired-new app name new) in
              subst HasNames q (registered-HasNames app name v h)
        ]
      ]

  -- In a handle whose names are repaired, `tracy_tracepoint_enabled` answers no for every name that
  -- is not in repaired form, that is, with a capital letter, beyond ASCII or longer than 32 bytes,
  -- since it takes the name as it is.
  pub enabled_unrepaired :
      (app : App p) (raw : List ℕ)
      → HasNames app
      → (¬ IsName (to_string_lossy raw))
      → tracy_tracepoint_enabled (some app) (some raw) ≡ returned false
  unfolding tracy_tracepoint_enabled
  enabled_unrepaired app raw h bad =
      elim (Option-cases (get (to_string_lossy raw) app.tracey.tracepoints)) [
        | inl e ↦ rw (e, tracy_tracepoint_enabled, tracepoint_enabled)
        | inr (a, e) ↦
            absurd (bad (get-All IsName (to_string_lossy raw) a app.tracey.tracepoints h e))
      ]

  -- A registration leaves the handle as it is, or as the registration under a repaired name leaves it.
  pub tracy_register-registered :
      (app app' : App p) (raw : List ℕ) (status : Bool)
      → tracy_register (some app) (some raw) ≡ returned (status, some app')
      → (app' ≡ app) ⊎ ((name : List ℕ) × IsName name × (app' ≡ registered app name))
  unfolding tracy_register
  tracy_register-registered app app' raw status r =
      elim (fix_tracepoint_str_cases (to_string_lossy raw)) [
        | inl (_, f) ↦ inl (ground arith)
        | inr (name, _, f, _, v) ↦ elim (Bool-cases (is_registered app name)) [
          | inl old ↦ inl (ground (arith, register_repaired-old app name old))
          | inr new ↦ inr (name, v, ground (arith, register_repaired-new app name new))
        ]
      ]
