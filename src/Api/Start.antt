-- ===== src/Api/Start.antt =====
-- src/lib.rs: what `tracy_init` refuses, and the thread that it starts.
use libtracy.Common.{
  ℕ, ◌≡◌, ◌≢◌, ◌⊎◌, inl, inr, refl, Bool, false, ◌&&◌, not, List, [], ◌∷◌, ◌++◌, none, some,
  is_some, length, arith, Bool-cases, ltb, ◌==◌, length-append,
}
use libtracy.Text.Utf8.{to_string_lossy}
use libtracy.Platform.{Platform, ChannelMessage}
use libtracy.Tracer.Flags.{alloc}
use libtracy.Tracer.Context.{InitData}
use libtracy.Tracer.Invariant.Start.{IsOffered}
use libtracy.Api.Handle.{CStr}
use libtracy.Api.Init.{Started, rawpt_to_str, rawpt_to_addr, should_announce, tracy_init}
use libtracy.Api.Register.{load-alloc_new}

-- Whoever announces has an address to announce to.
should_announce-addr :
    (p : Platform) (cfg : InitData p)
    → (should_announce p cfg && not (is_some cfg.announce_addr)) ≡ false
unfolding should_announce
should_announce-addr p cfg = ground arith

module _ (p : Platform) (channel : p.Channel) (flags : List Bool) where
  -- The handle and the thread's arguments of a start that is not refused.
  abbrev pub started_with : List ℕ → List ℕ → ℕ → ℕ → CStr → CStr → Started p
  started_with host process flush_interval announce_interval iface addr =
      let cfg : InitData p = record {
        hostname = to_string_lossy host;
        process_name = to_string_lossy process;
        send_interval = flush_interval;
        announce_interval = announce_interval;
        announce_addr = rawpt_to_addr p addr;
        announce_iface = rawpt_to_str iface;
      } in
      record {
        app = record {
          tracey = record { client_connected = length flags; tracepoints = [] };
          flags = flags ++ false ∷ [];
          send_to_tracer_thread = channel;
        };
        app_cfg = cfg;
        announce =
            ltb 0 announce_interval
            && (is_some (rawpt_to_str iface) && is_some (rawpt_to_addr p addr));
      }

  -- `tracy_init` returns NULL exactly if the host's name or the process's name is NULL or the interval
  -- for flushing is 0; else it starts the thread with what it was given.
  pub tracy_init_cases :
      (hostname process_name : CStr) (flush_interval announce_interval : ℕ) (iface addr : CStr)
      → (((hostname ≡ none) ⊎ ((process_name ≡ none) ⊎ (flush_interval ≡ 0)))
          × (tracy_init p channel flags hostname process_name flush_interval announce_interval iface
                addr
              ≡ none))
        ⊎ ((host process : List ℕ) × (hostname ≡ some host)
            × (process_name ≡ some process)
            × (flush_interval ≢ 0)
            × (tracy_init p channel flags hostname process_name flush_interval announce_interval
                  iface addr
                ≡ some (started_with host process flush_interval announce_interval iface addr)))
  unfolding tracy_init alloc rawpt_to_str should_announce
  tracy_init_cases none process_name f a iface addr = inl (inl refl, refl)
  tracy_init_cases (some host) none f a iface addr = inl (inr (inl refl), refl)
  tracy_init_cases (some host) (some process) f a iface addr = elim (Bool-cases (f == 0)) [
    | inl z ↦ inl (inr (inr (ground arith)), rw (z, tracy_init) refl)
    | inr n ↦ inr (host, process, refl, refl, ground arith, rw (n, tracy_init) refl)
  ]

  -- The thread is offered a fresh cell, and an address if it is to announce.
  pub started-IsOffered :
      (queued : p.Channel → List ChannelMessage) (host process : List ℕ) (f a : ℕ)
      (iface addr : CStr)
      → queued channel ≡ []
      → IsOffered p queued
          (started_with host process f a iface addr).app_cfg
          (length flags)
          channel
          (started_with host process f a iface addr).announce
          (flags ++ false ∷ [])
  unfolding should_announce
  started-IsOffered queued host process f a iface addr e = record {
    off = load-alloc_new flags;
    inside = omega (arith, length-append flags (false ∷ []));
    has_address = should_announce-addr p (started_with host process f a iface addr).app_cfg;
    good = rw e tt;
  }
