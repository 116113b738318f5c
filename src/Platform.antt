-- ===== src/Platform.antt =====
-- What the tracer uses and the repository does not hold: sockets, poll, timer and channel of the
-- crates mio and mio-extras, and the operating system behind them. Each is an operation on a state
-- that only the platform knows; the behaviour that a theorem relies on is a hypothesis of it.
use libtracy.Common.{ℕ, Bool, List, Option, ◌≡◌, ◌⊎◌, inl, inr, refl}
use libtracy.Wire.Element.{BufferElement}

-- The kinds of `std::io::ErrorKind` that the code or the standard library tells apart.
pub data ErrorKind : Type 0 where
  would_block interrupted unexpected_eof other : ErrorKind

pub data IoResult {ℓ} (A : Type ℓ) : Type ℓ where
  ok : A → IoResult A
  err : ErrorKind → IoResult A

pub IoResult-cases {ℓ} :
    {A : Type ℓ} (r : IoResult A) → ((a : A) × (r ≡ ok a)) ⊎ ((k : ErrorKind) × (r ≡ err k))
IoResult-cases (ok a) = inl (a, refl)
IoResult-cases (err k) = inr (k, refl)

-- The place of an `Arc<AtomicBool>` in the store of such cells.
abbrev pub Arc : Type 0
Arc = ℕ

pub record Tracepoint : Type 0 where
  pub name : List ℕ
  pub state : Arc

pub data ChannelMessage : Type 0 where
  payload : BufferElement → ChannelMessage
  new_tracepoint : Tracepoint → ChannelMessage
  terminate : ChannelMessage

pub record Platform : Type 1 where
  -- Sockets and poll.
  pub Net : Type 0
  pub TcpStream : Type 0
  pub TcpListener : Type 0
  pub UdpSocket : Type 0
  pub SocketAddr : Type 0
  pub tcp_bind : ℕ → Net → Option TcpListener × Net
  pub accept : TcpListener → Net → Option TcpStream × Net
  -- `local_addr`, and the port of the address.
  pub local_port : TcpListener → Option ℕ
  pub try_clone : TcpStream → Net → Option TcpStream × Net
  -- `Poll::new`, and the registrations of a connection and of another source by its token.
  pub poll_new : Net → Bool × Net
  pub register : TcpStream → Net → Bool × Net
  pub register_source : ℕ → Net → Bool × Net
  pub deregister : TcpStream → Net → Net
  pub write_all : TcpStream → List ℕ → Net → IoResult (Unit {0}) × Net
  pub read : TcpStream → ℕ → Net → IoResult (List ℕ) × Net
  pub udp_bind : List ℕ → ℕ → Net → Option UdpSocket × Net
  pub send_to : UdpSocket → List ℕ → SocketAddr → Net → Net
  pub parse_addr : List ℕ → Option SocketAddr
  -- `mio_extras::timer::Timer<usize>`.
  pub Timer : Type 0
  pub Timeout : Type 0
  pub new_timer : Timer
  pub set_timeout : Timer → ℕ → ℕ → Timeout × Timer
  pub cancel_timeout : Timer → Timeout → Timer
  pub poll_timer : Timer → Option ℕ × Timer
  -- `mio_extras::channel`, seen from both ends.
  pub Channel : Type 0
  pub send : Channel → ChannelMessage → Bool × Channel
  pub try_recv : Channel → Option ChannelMessage × Channel
