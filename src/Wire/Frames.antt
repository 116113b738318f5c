-- ===== src/Wire/Frames.antt =====
-- A whole connection's worth of bytes as the receiving side takes it apart: a header, as many bytes
-- as it announces, the next header. Written from doc/tlv_documentation.txt.
use libtracy.Common.{
  ℕ, zero, suc, ◌%◌, ◌^◌, ◌≤◌, ◌<◌, ◌≡◌, refl, sym, List, [], ◌∷◌, ◌++◌, append_assoc, Option, none,
  some, arith, length, All,
}
use libtracy.Wire.Header.{Command, check_parse_header}
use libtracy.Wire.HeaderLaws.{header_bytes, length-header_bytes, check_parse-header_bytes}
use libtracy.Wire.Samples.{◌>>=◌, split_at, split_at-append}

pub record Frame : Type 0 where
  pub command : Command
  pub body : List ℕ

unfoldable pub read_frame : List ℕ → Option (Frame × List ℕ)
read_frame bs = do
  (header, bs1) ← split_at 12 bs
  (cmd, size) ← check_parse_header header
  (body, bs2) ← split_at size bs1
  some (record { command = cmd; body = body }, bs2)

unfoldable pub read_frames : ℕ → List ℕ → Option (List Frame)
read_frames fuel [] = some []
read_frames zero (b ∷ bs) = none
read_frames (suc fuel) (b ∷ bs) = do
  (f, rest) ← read_frame (b ∷ bs)
  more ← read_frames fuel rest
  some (f ∷ more)

-- A frame as it is written.
unfoldable pub frame_bytes : Frame → List ℕ
frame_bytes f = header_bytes f.command (length f.body % 2 ^ 32) ++ f.body

unfoldable pub stream_bytes : List Frame → List ℕ
stream_bytes [] = []
stream_bytes (f ∷ fs) = frame_bytes f ++ stream_bytes fs

abbrev pub Short : Frame → Type 0
Short f = length f.body < 2 ^ 32

pub read_frame-frame_bytes :
    (f : Frame) (rest : List ℕ) → Short f → read_frame (frame_bytes f ++ rest) ≡ some (f, rest)
unfolding read_frame frame_bytes
read_frame-frame_bytes f rest h =
    let size : ℕ = length f.body % 2 ^ 32 in
    let head : List ℕ = header_bytes f.command size in
    simp (
      append_assoc,
      split_at-append head (f.body ++ rest) 12 (sym (length-header_bytes f.command size)),
      check_parse-header_bytes f.command size (omega arith),
      split_at-append f.body rest size (omega arith),
    )

read_frames_step :
    (f : Frame) (rest : List ℕ) (fuel : ℕ)
    → read_frames (suc fuel) (frame_bytes f ++ rest) ≡ (do
      (g, bs) ← read_frame (frame_bytes f ++ rest)
      more ← read_frames fuel bs
      some (g ∷ more))
unfolding read_frames frame_bytes header_bytes
read_frames_step f rest fuel = refl

-- What was written as frames is read as those frames.
pub read_frames-stream_bytes :
    (fs : List Frame) (fuel : ℕ)
    → All Short fs
    → length fs ≤ fuel
    → read_frames fuel (stream_bytes fs) ≡ some fs
unfolding stream_bytes
read_frames-stream_bytes [] fuel h k = unfold read_frames in refl
read_frames-stream_bytes (f ∷ fs) zero h k = absurd (omega arith)
read_frames-stream_bytes (f ∷ fs) (suc fuel) h k = rw (
  read_frames_step f (stream_bytes fs) fuel,
  read_frame-frame_bytes f (stream_bytes fs) h.0,
  read_frames-stream_bytes fs fuel h.1 (omega arith),
)
