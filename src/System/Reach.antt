-- ===== src/System/Reach.antt =====
-- What holds in every state that application and thread reach together.
use mathlib.Core.Path.{subst}
use libtracy.Common.{
  ℕ, zero, suc, ◌≤◌, ◌<◌, ◌≡◌, ◌⊎◌, inl, inr, refl, sym, ◌∙◌, Bool, false, List, [], ◌∷◌, ◌++◌,
  Option, none, some, arith, length, length-append, All, All-append, done, Ensures-done,
}
use libtracy.Text.Names.{IsName}
use libtracy.Wire.Element.{SystemTime}
use libtracy.Platform.{Platform, ChannelMessage, payload, new_tracepoint}
use libtracy.Tracer.HashMap.{keys, keys-insert}
use libtracy.Tracer.Sender.Groups.{Sendable}
use libtracy.Tracer.Flags.{load}
use libtracy.Tracer.Context.{TracerContext}
use libtracy.Tracer.Thread.{TracerState, normal, event_handler}
use libtracy.Tracer.Invariant.{Inv, IsGood, Keeps-refl}
use libtracy.Tracer.Invariant.Events.{Fifo, Sound}
use libtracy.Tracer.Invariant.Handlers.{timers-IsAfter}
use libtracy.Tracer.Invariant.Loop.{SoundState, event_handler-Sound}
use libtracy.Api.Handle.{returned, App, CStr, tracy_submit, tracy_register}
use libtracy.Api.Register.{registered, tracy_register-registered}
use libtracy.Api.Submit.{IsAccepted, submission, submitted, IsAccepted-Sendable, tracy_submit_cases}
use libtracy.System.{
  System, app_of, with_app, Step, registers, submits, handles, elapses, Reaches, stays, goes_on,
}

load-append :
    (cells : List Bool) (b : Bool) (a : ℕ)
    → a < length cells
    → load (cells ++ b ∷ []) a ≡ load cells a
unfolding load
load-append [] b a h = absurd (omega arith)
load-append (c ∷ cs) b zero h = refl
load-append (c ∷ cs) b (suc a) h = load-append cs b a (omega arith)

module _ (p : Platform) (queued : p.Channel → List ChannelMessage) where
  -- The sender appends its message, or loses it.
  pub record Sends (c : p.Channel) (m : ChannelMessage) : Type 0 where
    pub appends : (queued (p.send c m).1 ≡ queued c ++ m ∷ []) ⊎ (queued (p.send c m).1 ≡ queued c)

  -- The thread is sound with the cell of the application's handle, whose names are repaired.
  pub record IsSound (s : System p) : Type 0 where
    pub thread : Sound p queued s.tracey.client_connected s.ctx
    pub names : All IsName (keys s.tracey.tracepoints)

  offline_connected :
      (s : System p) (raw bytes : List ℕ)
      → IsSound s
      → s.ctx.connection ≡ none
      → ¬ IsAccepted (app_of s) raw bytes
  unfolding app_of
  offline_connected s raw bytes h e a =
      ground (arith, h.thread.0.online, h.thread.1.given, a.connected)

  module _ (sends : (c : p.Channel) (m : ChannelMessage) → Sends c m) where
    sent-All :
        (P : ChannelMessage → Type 0) (c : p.Channel) (m : ChannelMessage)
        → P m
        → All P (queued c)
        → All P (queued (p.send c m).1)
    sent-All P c m hm h = elim (sends c m).appends [
      | inl e ↦ subst (All P) (sym e) (All-append P (queued c) (m ∷ []) h (hm, tt))
      | inr e ↦ subst (All P) (sym e) h
    ]

    -- The application leaves the thread's own part alone.
    shared-Inv :
        (ctx : TracerContext p) (flags : List Bool) (rec : p.Channel)
        → Inv ctx
        → load flags ctx.client_connected ≡ load ctx.flags ctx.client_connected
        → length ctx.flags ≤ length flags
        → Inv (record ctx { flags = flags; rec = rec })
    shared-Inv ctx flags rec v same longer = record {
      online = same ∙ v.online;
      cell = omega (arith, v.cell);
      apart = v.apart;
      names = v.names;
      sendable = v.sendable;
      addressed = v.addressed;
    }

    registered-IsSound :
        (s : System p) (name : List ℕ)
        → IsSound s
        → IsName name
        → IsSound (with_app s (registered (app_of s) name))
    unfolding with_app app_of
    registered-IsSound s name h v =
        let app = app_of s in
        let message : ChannelMessage =
          new_tracepoint (record { name = name; state = length s.ctx.flags }) in
        let inv = h.thread.0 in
        record {
          thread = (
            shared-Inv s.ctx (s.ctx.flags ++ false ∷ []) (p.send s.ctx.rec message).1 inv
                (load-append s.ctx.flags false s.ctx.client_connected inv.cell)
                (omega (arith, length-append s.ctx.flags (false ∷ []))),
            record {
              good =
                  sent-All (IsGood s.ctx.client_connected) s.ctx.rec message
                    (v, λ e. omega (arith, e, inv.cell)) h.thread.1.good;
              given = h.thread.1.given;
            },
          );
          names = keys-insert IsName name (length s.ctx.flags) s.tracey.tracepoints v h.names;
        }

    same-IsSound : (s : System p) → IsSound s → IsSound (with_app s (app_of s))
    unfolding with_app app_of
    same-IsSound s h = record {
      thread = (shared-Inv s.ctx s.ctx.flags s.ctx.rec h.thread.0 refl (omega arith), h.thread.1);
      names = h.names;
    }

    submitted-IsSound :
        (s : System p) (raw bytes : List ℕ) (now : SystemTime)
        → IsSound s
        → Sendable (submission raw bytes now)
        → IsSound (with_app s (submitted (app_of s) raw bytes now))
    unfolding with_app app_of
    submitted-IsSound s raw bytes now h fits =
        let message : ChannelMessage = payload (submission raw bytes now) in
        record {
          thread = (
            shared-Inv s.ctx s.ctx.flags (p.send s.ctx.rec message).1 h.thread.0 refl (omega arith),
            record {
              good =
                  sent-All (IsGood s.ctx.client_connected) s.ctx.rec message fits h.thread.1.good;
              given = h.thread.1.given;
            },
          );
          names = h.names;
        }

    register-IsSound :
        (s : System p) (raw : List ℕ) (status : Bool) (app : App p)
        → tracy_register (some (app_of s)) (some raw) ≡ returned (status, some app)
        → IsSound s
        → IsSound (with_app s app)
    register-IsSound s raw status app e h =
        elim (tracy_register-registered (app_of s) app raw status e) [
          | inl same ↦ subst (λ a. IsSound (with_app s a)) (sym same) (same-IsSound s h)
          | inr (name, v, new) ↦
              subst (λ a. IsSound (with_app s a)) (sym new) (registered-IsSound s name h v)
        ]

    submit-IsSound :
        (s : System p) (name : CStr) (data_ : Option (List ℕ)) (now : SystemTime) (app : App p)
        → tracy_submit (some (app_of s)) name data_ now ≡ some app
        → IsSound s
        → IsSound (with_app s app)
    submit-IsSound s none data_ now app e h =
        let q : app_of s ≡ app = unfold tracy_submit in cc e in
        subst (λ a. IsSound (with_app s a)) q (same-IsSound s h)
    submit-IsSound s (some raw) none now app e h =
        let q : app_of s ≡ app = unfold tracy_submit in cc e in
        subst (λ a. IsSound (with_app s a)) q (same-IsSound s h)
    submit-IsSound s (some raw) (some bytes) now app e h =
        elim (tracy_submit_cases (app_of s) raw bytes now) [
          | inl (a, r) ↦
              let q : submitted (app_of s) raw bytes now ≡ app = cc (e, r) in
              subst (λ a. IsSound (with_app s a)) q
                (submitted-IsSound s raw bytes now h
                  (IsAccepted-Sendable (app_of s) raw bytes now a))
          | inr (_, r) ↦
              let q : app_of s ≡ app = cc (e, r) in
              subst (λ a. IsSound (with_app s a)) q (same-IsSound s h)
        ]

    module _ (fifo : (c : p.Channel) → Fifo p queued c) where
      handle-IsSound :
          (s : System p) (fuel : ℕ) (events : List ℕ) (state : TracerState) (ctx : TracerContext p)
          → event_handler fuel events normal s.ctx ≡ done (state, ctx)
          → IsSound s
          → IsSound (record s { ctx = ctx })
      handle-IsSound s fuel events state ctx e h = record {
        thread =
            Ensures-done (SoundState p queued s.tracey.client_connected fifo)
              (event_handler fuel events normal s.ctx)
              (event_handler-Sound p queued s.tracey.client_connected fifo fuel events normal s.ctx
                h.thread)
              e;
        names = h.names;
      }

      elapse-IsSound :
          (s : System p) (net : p.Net) (timer : p.Timer)
          → IsSound s
          → IsSound (record s { ctx = record s.ctx { net = net; timer = timer } })
      elapse-IsSound s net timer h = record {
        thread = (
          (timers-IsAfter s.ctx s.ctx timer s.ctx.queue_timeout s.ctx.udp_timeout net
              (h.thread.0, Keeps-refl s.ctx)).0,
          h.thread.1,
        );
        names = h.names;
      }

      pub Step-IsSound : {s t : System p} → Step s t → IsSound s → IsSound t
      Step-IsSound (registers s raw status app e) h = register-IsSound s raw status app e h
      Step-IsSound (submits s name data_ now app e) h = submit-IsSound s name data_ now app e h
      Step-IsSound (handles s fuel events state ctx e) h =
          handle-IsSound s fuel events state ctx e h
      Step-IsSound (elapses s net timer) h = elapse-IsSound s net timer h

      -- Whatever the application, the thread and the network do, and in whatever order, a sound state is
      -- followed by sound states only, if the channel hands out its messages in order and a send appends
      -- its message or loses it.
      pub Reaches-IsSound : {s t : System p} → Reaches s t → IsSound s → IsSound t
      Reaches-IsSound stays h = h
      Reaches-IsSound (goes_on r step) h = Step-IsSound step (Reaches-IsSound r h)

      -- Without a client nothing is submitted: in every state that is reached from a sound one and
      -- that has no connection, `tracy_submit` leaves the application as it is, if the channel
      -- hands out its messages in order and a send appends its message or loses it.
      pub submit_offline :
          {s t : System p} (name : CStr) (data_ : Option (List ℕ)) (now : SystemTime)
          → IsSound s
          → Reaches s t
          → t.ctx.connection ≡ none
          → tracy_submit (some (app_of t)) name data_ now ≡ some (app_of t)
      submit_offline {t = t} none data_ now h r e = unfold tracy_submit in refl
      submit_offline {t = t} (some raw) none now h r e = unfold tracy_submit in refl
      submit_offline {t = t} (some raw) (some bytes) now h r e =
          elim (tracy_submit_cases (app_of t) raw bytes now) [
            | inr (_, q) ↦ q
            | inl (a, _) ↦ absurd (offline_connected t raw bytes (Reaches-IsSound r h) e a)
          ]
