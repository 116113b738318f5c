-- ===== src/Tracer/Receiver/Requests.antt =====
-- src/tcp_handler.rs: what `set_tracepoints` makes of a request that follows
-- doc/tlv_documentation.txt and lies in the reader as a whole.
use libtracy.Common.{
  ℕ, zero, suc, ◌+◌, ◌%◌, ◌^◌, ◌≤◌, ◌<◌, ◌≡◌, sym, ◌∙◌, Bool, List, [], ◌∷◌, ◌++◌, some, length,
  done, ◌>>=◌, All, arith, take-append, drop-append, length-append, append_assoc, lt→ltb,
  le→not_ltb,
}
use libtracy.Common.Bytes.{
  to_be_bytes, from_be_bytes, length-to_be_bytes, from_be_bytes-to_be_bytes,
}
use libtracy.Text.Utf8.{from_utf8_or_default}
use libtracy.Text.Ascii.{max_tracepoint_name_len}
use libtracy.Platform.{Platform, ok}
use libtracy.Tracer.Context.{TracerContext}
use libtracy.Tracer.Reader.{read_exact}
use libtracy.Tracer.Receiver.{Session, set_tracepoint, set_tracepoints, read_name}

-- The payload of an enable or a disable request.
unfoldable pub request_body : List (List ℕ) → List ℕ
request_body [] = []
request_body (n ∷ ns) = to_be_bytes 2 (length n) ++ (n ++ request_body ns)

length-request_body :
    (n : List ℕ) (ns : List (List ℕ))
    → length (request_body (n ∷ ns)) ≡ 2 + length n + length (request_body ns)
unfolding request_body
length-request_body n ns = simp (length-append, length-to_be_bytes) (omega arith)

abbrev pub IsShort : List ℕ → Type 0
IsShort name = length name ≤ max_tracepoint_name_len

regroup :
    (n : List ℕ) (ns : List (List ℕ)) (rest : List ℕ)
    → request_body (n ∷ ns) ++ rest ≡ to_be_bytes 2 (length n) ++ (n ++ (request_body ns ++ rest))
unfolding request_body
regroup n ns rest = simp append_assoc

module _ (p : Platform) (stream : p.TcpStream) where
  -- A call that the buffer can serve does not read.
  pub read_exact-front :
      (fuel : ℕ) (xs ys : List ℕ) (net : p.Net) (need : ℕ)
      → need ≡ length xs
      → read_exact p (suc fuel) stream (xs ++ ys) net need []
        ≡ done (record { result = ok xs; buffered = ys; net = net })
  unfolding read_exact
  read_exact-front fuel xs ys net need h =
      ground (arith, take-append xs ys need h, drop-append xs ys need h, length-append xs ys)

module _ {p : Platform} where
  -- Each named tracepoint in turn.
  unfoldable pub set_all : TracerContext p → List (List ℕ) → Bool → TracerContext p
  set_all ctx [] state = ctx
  set_all ctx (n ∷ ns) state = set_all (set_tracepoint ctx (from_utf8_or_default n) state) ns state

module _ {p : Platform} (stream : p.TcpStream) where
  -- A name that lies in the reader.
  pub read_name-front :
      (fuel : ℕ) (n rest : List ℕ) (ctx : TracerContext p)
      → IsShort n
      → read_name (suc fuel) (ctx, to_be_bytes 2 (length n) ++ (n ++ rest)) stream
        ≡ done (some (length n, n), (ctx, rest))
  unfolding read_name
  read_name-front fuel n rest ctx h =
      let size_bytes : List ℕ = to_be_bytes 2 (length n) in
      let name_len : ℕ = from_be_bytes size_bytes in
      let e : name_len ≡ length n = from_be_bytes-to_be_bytes 2 (length n) (omega arith) in
      rw (
        read_exact-front p stream fuel size_bytes (n ++ rest) ctx.net 2
            (sym (length-to_be_bytes 2 (length n))),
        ◌>>=◌,
        le→not_ltb max_tracepoint_name_len name_len (omega arith),
        read_exact-front p stream fuel n rest ctx.net name_len e,
        ◌>>=◌,
        e,
      )

  set_tracepoints_stop :
      (fuel i size : ℕ) (state : Bool) (session : Session p)
      → size ≤ i
      → set_tracepoints (suc fuel) session stream i size state ≡ done session
  unfolding set_tracepoints
  set_tracepoints_stop fuel i size state session h = rw (le→not_ltb i size h, set_tracepoints)

  set_tracepoints_step :
      (fuel i size : ℕ) (state : Bool) (session : Session p) (name_len : ℕ) (name : List ℕ)
      (ctx' : TracerContext p) (buffered' : List ℕ)
      → i < size
      → read_name fuel session stream ≡ done (some (name_len, name), (ctx', buffered'))
      → set_tracepoints (suc fuel) session stream i size state
        ≡ set_tracepoints fuel
            (set_tracepoint ctx' (from_utf8_or_default name) state, buffered')
            stream
            ((i + 2 + name_len) % 2 ^ 32)
            size
            state
  unfolding set_tracepoints
  set_tracepoints_step fuel i size state session name_len name ctx' buffered' hi h =
      rw (lt→ltb i size hi, set_tracepoints, h)

  set_tracepoints-from :
      (ns : List (List ℕ)) (fuel i size : ℕ) (state : Bool) (rest : List ℕ) (ctx : TracerContext p)
      → All IsShort ns
      → length ns + 2 ≤ fuel
      → size ≡ i + length (request_body ns)
      → size < 2 ^ 32
      → set_tracepoints fuel (ctx, request_body ns ++ rest) stream i size state
        ≡ done (set_all ctx ns state, rest)
  unfolding set_all request_body
  set_tracepoints-from ns zero i size state rest ctx hs hf hi hn = absurd (omega arith)
  set_tracepoints-from [] (suc fuel) i size state rest ctx hs hf hi hn =
      set_tracepoints_stop fuel i size state (ctx, rest) (omega arith)
  set_tracepoints-from (n ∷ ns) (suc zero) i size state rest ctx hs hf hi hn = absurd (omega arith)
  set_tracepoints-from (n ∷ ns) (suc (suc fuel)) i size state rest ctx hs hf hi hn =
      rw (regroup n ns rest) (
        set_tracepoints_step (suc fuel) i size state
          (ctx, to_be_bytes 2 (length n) ++ (n ++ (request_body ns ++ rest))) (length n) n ctx
          (request_body ns ++ rest) (omega (arith, length-request_body n ns))
          (read_name-front fuel n (request_body ns ++ rest) ctx hs.0)
        ∙ set_tracepoints-from ns (suc fuel) ((i + 2 + length n) % 2 ^ 32) size state rest
            (set_tracepoint ctx (from_utf8_or_default n) state) hs.1 (omega arith)
            (omega (arith, length-request_body n ns)) hn)

  -- A request whose names have at most 32 bytes, whose length is stated right and below 2^32, and
  -- which lies in the reader as a whole, sets exactly those tracepoints, in their order, and leaves
  -- the reader behind the request, where the fuel exceeds the number of names by two.
  pub set_tracepoints-request_body :
      (ns : List (List ℕ)) (fuel : ℕ) (state : Bool) (rest : List ℕ) (ctx : TracerContext p)
      → All IsShort ns
      → length ns + 2 ≤ fuel
      → length (request_body ns) < 2 ^ 32
      → set_tracepoints fuel
          (ctx, request_body ns ++ rest)
          stream
          0
          (length (request_body ns))
          state
        ≡ done (set_all ctx ns state, rest)
  set_tracepoints-request_body ns fuel state rest ctx hs hf hn =
      set_tracepoints-from ns fuel 0 (length (request_body ns)) state rest ctx hs hf (omega arith)
        hn
