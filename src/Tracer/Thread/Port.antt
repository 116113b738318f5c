-- ===== src/Tracer/Thread/Port.antt =====
-- src/tcp_handler.rs: the port that `init` binds.
use mathlib.Core.Path.{subst}
use libtracy.Common.{
  sym, ℕ, zero, suc, ◌+◌, ◌<◌, ◌≡◌, ◌⊎◌, inl, inr, refl, Option, none, some, arith, Option-cases,
}
use libtracy.Platform.{Platform}
use libtracy.Tracer.Thread.{bind_from, tcp_init}

module _ (p : Platform) where
  -- The ports from `first` to below `last` were tried in turn, from `net` to `net'`, and were all refused.
  abbrev pub Refused : ℕ → ℕ → p.Net → p.Net → Type 0
  Refused zero first net net' = net ≡ net'
  Refused (suc n) first net net' =
      ((p.tcp_bind first net).0 ≡ none) × Refused n (first + 1) (p.tcp_bind first net).1 net'

  -- How the search for a port ends: every port is refused, or the first that is not is bound.
  abbrev pub Ends : ℕ → ℕ → p.Net → Option p.TcpListener × p.Net → Type 0
  Ends left port net r =
      ((r.0 ≡ none) × Refused left port net r.1)
      ⊎ ((n : ℕ) × (net1 : p.Net) × (listener : p.TcpListener) × (n < left)
          × Refused n port net net1
          × (p.tcp_bind (port + n) net1 ≡ (some listener, r.1))
          × (r.0 ≡ some listener))

  bind_from-bound :
      (left port : ℕ) (net : p.Net) (listener : p.TcpListener)
      → (p.tcp_bind port net).0 ≡ some listener
      → bind_from p (suc left) port net ≡ (some listener, (p.tcp_bind port net).1)
  unfolding bind_from
  bind_from-bound left port net listener e = rw (e, bind_from) refl

  bind_from-refused :
      (left port : ℕ) (net : p.Net)
      → (p.tcp_bind port net).0 ≡ none
      → bind_from p (suc left) port net ≡ bind_from p left (port + 1) (p.tcp_bind port net).1
  unfolding bind_from
  bind_from-refused left port net e = rw (e, bind_from) refl

  Ends-later :
      (left port : ℕ) (net : p.Net) (r : Option p.TcpListener × p.Net)
      → (p.tcp_bind port net).0 ≡ none
      → Ends left (port + 1) (p.tcp_bind port net).1 r
      → Ends (suc left) port net r
  Ends-later left port net r e (inl (n, h)) = inl (n, (e, h))
  Ends-later left port net r e (inr (n, net1, listener, lt, h, b, q)) =
      let shift : port + 1 + n ≡ port + suc n = omega arith in
      inr (
        suc n,
        net1,
        listener,
        omega (arith, lt),
        (e, h),
        subst (λ x. p.tcp_bind x net1 ≡ (some listener, r.1)) shift b,
        q,
      )

  bind_from-Ends : (left port : ℕ) (net : p.Net) → Ends left port net (bind_from p left port net)
  bind_from-Ends zero port net = unfold bind_from in inl (refl, refl)
  bind_from-Ends (suc left) port net = elim (Option-cases (p.tcp_bind port net).0) [
    | inl e ↦ subst (Ends (suc left) port net) (sym (bind_from-refused left port net e)) (
        Ends-later left port net (bind_from p left (port + 1) (p.tcp_bind port net).1) e
          (bind_from-Ends left (port + 1) (p.tcp_bind port net).1))
    | inr (listener, e) ↦
        let here : p.tcp_bind port net ≡ (some listener, (p.tcp_bind port net).1) =
          λ i. (e i, (p.tcp_bind port net).1) in
        let shift : port ≡ port + 0 = omega arith in
        let bound : p.tcp_bind (port + 0) net ≡ (some listener, (p.tcp_bind port net).1) =
          subst (λ x. p.tcp_bind x net ≡ (some listener, (p.tcp_bind port net).1)) shift here in
        subst (Ends (suc left) port net) (sym (bind_from-bound left port net listener e))
          (inr (0, net, listener, omega arith, refl, bound, refl))
  ]

  -- The listener is bound to the first port from 61455 to 65534 that the platform does not refuse,
  -- the ports below it having been tried in order; or there is none, and all of these 4080 ports
  -- were refused.
  pub tcp_init-Ends : (net : p.Net) → Ends 4080 61455 net (tcp_init p net)
  tcp_init-Ends net = unfold tcp_init in bind_from-Ends 4080 61455 net
