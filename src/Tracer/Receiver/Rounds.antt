-- ===== src/Tracer/Receiver/Rounds.antt =====
-- src/tcp_handler.rs: one round of the loop of `receive`, by what the connection holds.
use libtracy.Common.{
  ℕ, suc, ◌-◌, ◌<◌, ◌≡◌, ◌≢◌, refl, List, [], ◌∷◌, ◌++◌, none, some, length, done, ◌>>=◌, arith,
  le→not_leb,
}
use libtracy.Wire.Header.{Command, header_len, check_parse_header}
use libtracy.Platform.{Platform, IoResult, ok, err, ErrorKind}
use libtracy.Tracer.Context.{TracerContext, close_and_clean_connection}
use libtracy.Tracer.Reader.{read_exact, fill, fails, rec_buf_sz}
use libtracy.Tracer.Receiver.{execute_command, read_empty, header_failed, receive_loop, receive}

module _ (p : Platform) (stream : p.TcpStream) where
  -- A reader that holds too little fetches what the connection has.
  pub read_exact-more :
      (fuel : ℕ) (buffered : List ℕ) (net net' : p.Net) (need : ℕ) (got : List ℕ) (bs : List ℕ)
      → length buffered < need
      → bs ≢ []
      → p.read stream rec_buf_sz net ≡ (ok bs, net')
      → read_exact p (suc fuel) stream buffered net need got
        ≡ read_exact p fuel stream bs net' (need - length buffered) (got ++ buffered)
  unfolding fill read_exact
  read_exact-more fuel buffered net net' need got [] h ne e = absurd (ne refl)
  read_exact-more fuel buffered net net' need got (b ∷ bs) h ne e =
      rw (le→not_leb need (length buffered) h, read_exact, e, e)

  pub read_exact-fails :
      (fuel : ℕ) (buffered : List ℕ) (net : p.Net) (need : ℕ) (got : List ℕ) (r : IoResult (List ℕ))
      (kind : ErrorKind) (net' : p.Net)
      → length buffered < need
      → p.read stream rec_buf_sz net ≡ (r, net')
      → fill r ≡ fails kind
      → read_exact p (suc fuel) stream buffered net need got
        ≡ done (record { result = err kind; buffered = []; net = net' })
  unfolding read_exact
  read_exact-fails fuel buffered net need got r kind net' h e f =
      rw (le→not_leb need (length buffered) h, read_exact, e, f, e)

module _ {p : Platform} where
  -- A header that cannot be read ends the loop.
  pub round_failed :
      (fuel : ℕ) (ctx : TracerContext p) (buffered : List ℕ) (stream : p.TcpStream)
      (kind : ErrorKind) (net' : p.Net)
      → read_exact p fuel stream buffered ctx.net header_len []
        ≡ done (record { result = err kind; buffered = []; net = net' })
      → receive_loop (suc fuel) (ctx, buffered) stream
        ≡ header_failed (record ctx { net = net' }) kind
  unfolding receive_loop
  round_failed fuel ctx buffered stream kind net' h = rw (receive_loop, h)

  -- A header that is refused closes the connection.
  pub round_refused :
      (fuel : ℕ) (ctx : TracerContext p) (buffered : List ℕ) (stream : p.TcpStream)
      (header buffered' : List ℕ) (net' : p.Net)
      → read_exact p fuel stream buffered ctx.net header_len []
        ≡ done (record { result = ok header; buffered = buffered'; net = net' })
      → check_parse_header header ≡ none
      → receive_loop (suc fuel) (ctx, buffered) stream ≡ (
          close_and_clean_connection (record ctx { net = net' }) >>= λ ctx'.
          read_empty fuel (ctx', buffered') stream)
  unfolding receive_loop
  round_refused fuel ctx buffered stream header buffered' net' h e = rw (receive_loop, h, ◌>>=◌, e)

  -- A header that is accepted runs its command, and the loop goes on.
  pub round_accepted :
      (fuel : ℕ) (ctx : TracerContext p) (buffered : List ℕ) (stream : p.TcpStream)
      (header buffered' : List ℕ) (net' : p.Net) (cmd : Command) (size : ℕ)
      → read_exact p fuel stream buffered ctx.net header_len []
        ≡ done (record { result = ok header; buffered = buffered'; net = net' })
      → check_parse_header header ≡ some (cmd, size)
      → receive_loop (suc fuel) (ctx, buffered) stream ≡ (
          execute_command fuel (record ctx { net = net' }, buffered') stream cmd size >>= λ session.
          receive_loop fuel session stream)
  unfolding receive_loop
  round_accepted fuel ctx buffered stream header buffered' net' cmd size h e =
      rw (receive_loop, h, ◌>>=◌, e)

  -- The call of `receive` on a connection that can be cloned.
  pub receive-receive_loop :
      (fuel : ℕ) (ctx : TracerContext p) (connection stream : p.TcpStream) (net' : p.Net)
      → ctx.connection ≡ some connection
      → p.try_clone connection ctx.net ≡ (some stream, net')
      → receive fuel ctx ≡ receive_loop fuel (record ctx { net = net' }, []) stream
  unfolding receive
  receive-receive_loop fuel ctx connection stream net' h e = ground arith
