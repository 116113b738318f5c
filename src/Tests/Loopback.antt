-- ===== src/Tests/Loopback.antt =====
-- A platform for concrete runs: one client whose bytes are given beforehand, a timer whose timeouts
-- are due at once, a channel that is a list.
use libtracy.Common.{ℕ, refl, Bool, true, false, List, [], ◌∷◌, ◌++◌, Option, none, some}
use libtracy.Tracer.Invariant.Events.{Fifo}
use libtracy.Platform.{Platform, IoResult, ok, err, would_block, ChannelMessage}

-- `inbox` holds what each read finds, `outbox` what was written, `writes` the same by its writes.
pub record Wire : Type 0 where
  pub inbox : List (List ℕ)
  pub closed : Bool
  pub outbox : List ℕ
  pub writes : List (List ℕ)
  pub datagrams : List (List ℕ)

abbrev read_inbox : List (List ℕ) → Bool → IoResult (List ℕ)
read_inbox [] true = ok []
read_inbox [] false = err would_block
read_inbox (chunk ∷ _) _ = ok chunk

abbrev rest_of {ℓ} : {A : Type ℓ} → List A → List A
rest_of [] = []
rest_of (_ ∷ xs) = xs

abbrev first_of {ℓ} : {A : Type ℓ} → List A → Option A
first_of [] = none
first_of (x ∷ _) = some x

abbrev pub loopback : Platform
loopback = record {
  Net = Wire;
  TcpStream = Unit {0};
  TcpListener = ℕ;
  UdpSocket = Unit {0};
  SocketAddr = List ℕ;
  tcp_bind = λ port w. (some port, w);
  accept = λ _ w. (some tt, w);
  local_port = λ port. some port;
  try_clone = λ _ w. (some tt, w);
  poll_new = λ w. (true, w);
  register = λ _ w. (true, w);
  register_source = λ _ w. (true, w);
  deregister = λ _ w. w;
  write_all = λ _ bytes w.
      (ok tt, record w { outbox = w.outbox ++ bytes; writes = w.writes ++ bytes ∷ [] });
  read = λ _ size w. (read_inbox w.inbox w.closed, record w { inbox = rest_of w.inbox });
  udp_bind = λ _ _ w. (some tt, w);
  send_to = λ _ bytes _ w. record w { datagrams = w.datagrams ++ bytes ∷ [] };
  parse_addr = λ s. some s;
  Timer = List ℕ;
  Timeout = ℕ;
  new_timer = [];
  set_timeout = λ timer _ ident. (ident, timer ++ ident ∷ []);
  cancel_timeout = λ timer _. timer;
  poll_timer = λ timer. (first_of timer, rest_of timer);
  Channel = List ChannelMessage;
  send = λ channel message. (true, channel ++ message ∷ []);
  try_recv = λ channel. (first_of channel, rest_of channel);
}

abbrev pub silent : Wire
silent = record { inbox = []; closed = false; outbox = []; writes = []; datagrams = [] }

abbrev pub queued : List ChannelMessage → List ChannelMessage
queued channel = channel

pub loopback-Fifo : (c : List ChannelMessage) → Fifo loopback queued c
loopback-Fifo [] = record { empty_none = λ e. (refl, refl); first_some = λ m ms e. absurd (cc e) }
loopback-Fifo (m ∷ ms) = record {
  empty_none = λ e. absurd (cc e);
  first_some = λ m' ms' e. (cc e, cc e);
}
