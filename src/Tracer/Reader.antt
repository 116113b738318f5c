-- ===== src/Tracer/Reader.antt =====
-- `BufReader` of the standard library over a `TcpStream`, as src/tcp_handler.rs uses it: bytes that
-- were received and not yet asked for, in front of the stream.
use libtracy.Common.{
  ℕ, zero, suc, ◌-◌, true, false, List, [], ◌∷◌, ◌++◌, leb, length, take, drop, Outcome, done,
  out_of_fuel,
}
use libtracy.Platform.{
  Platform, IoResult, ok, err, ErrorKind, would_block, interrupted, unexpected_eof, other,
}

abbrev pub rec_buf_sz : ℕ
rec_buf_sz = 4096

-- What a call of the reader leaves: its result, the bytes that are buffered, the platform.
pub record Read (p : Platform) (A : Type 0) : Type 0 where
  pub result : IoResult A
  pub buffered : List ℕ
  pub net : p.Net

-- Of an empty buffer, what `read` finds; an empty read is the end of the stream.
pub data Fill : Type 0 where
  more : List ℕ → Fill
  again : Fill
  fails : ErrorKind → Fill

unfoldable pub fill : IoResult (List ℕ) → Fill
fill (ok []) = fails unexpected_eof
fill (ok (b ∷ bs)) = more (b ∷ bs)
fill (err interrupted) = again
fill (err would_block) = fails would_block
fill (err unexpected_eof) = fails unexpected_eof
fill (err other) = fails other

module _ (p : Platform) where
  open p use {TcpStream, Net, read}

  -- `read_exact` for `need` bytes behind those it has `got`. A read that is interrupted is made
  -- again; the bytes of a call that fails are gone.
  unfoldable pub read_exact : ℕ → TcpStream → List ℕ → Net → ℕ → List ℕ → Outcome (Read p (List ℕ))
  unfolding fill
  read_exact zero stream buffered net need got = out_of_fuel
  read_exact (suc fuel) stream buffered net need got = elim (leb need (length buffered)) [
    | true ↦ done (record {
      result = ok (got ++ take need buffered);
      buffered = drop need buffered;
      net = net;
    })
    | false ↦
        let (r, net') = read stream rec_buf_sz net in
        let need' = need - length buffered in
        let got' = got ++ buffered in
        elim (fill r) [
          | more bs ↦ read_exact fuel stream bs net' need' got'
          | again ↦ read_exact fuel stream [] net' need' got'
          | fails kind ↦ done (record { result = err kind; buffered = []; net = net' })
        ]
  ]

  -- `read` into `size` bytes, fewer than the reader's capacity.
  unfoldable pub read_some : TcpStream → List ℕ → Net → ℕ → Read p (List ℕ)
  read_some stream (b ∷ bs) net size = record {
    result = ok (take size (b ∷ bs));
    buffered = drop size (b ∷ bs);
    net = net;
  }
  read_some stream [] net size =
      let (r, net') = read stream rec_buf_sz net in
      elim r [
        | ok bs ↦ record { result = ok (take size bs); buffered = drop size bs; net = net' }
        | err kind ↦ record { result = err kind; buffered = []; net = net' }
      ]
