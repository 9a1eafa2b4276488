-- ===== src/Helper/Frame.antt =====
-- The length-prefixed frames of daemon/internal/shared/proto/frame.go.
-- `encode` and `decode` stand for encoding/json at the type of the value. A connection to write to
-- is what it has taken and how much more it takes before it fails; one to read from is the bytes
-- that will arrive before it ends.
pub mod RoundTrip
pub mod Consumed
use host_health_mcp.Base.{
  ℕ, ◌+◌, ◌-◌, ◌*◌, ◌/◌, ◌%◌, ◌^◌, Bytes, Bool, true, false, not, Option, none, some, [], ◌∷◌, ◌++◌,
  ltb, leb, length, take, drop, if◌then◌else◌,
}
use host_health_mcp.Base.Result.{Result, ok, err}

abbrev pub max_request_frame : ℕ
max_request_frame = 16 * 1024

abbrev pub max_response_frame : ℕ
max_response_frame = 4 * 1024 * 1024

pub data FrameError : Type 0 where
  marshal_failed frame_too_large write_failed end_of_stream unexpected_end unmarshal_failed :
      FrameError

pub record Sink : Type 0 where
  pub out : Bytes
  pub room : ℕ

-- `w.Write(p)`; false for an error, with the part that went out.
abbrev pub write : Bytes → Sink → Sink × Bool
write p s =
    if leb (length p) s.room
    then (record { out = s.out ++ p; room = s.room - length p }, true)
    else (record { out = s.out ++ take s.room p; room = 0 }, false)

-- `binary.LittleEndian.PutUint32` and `Uint32`
unfoldable pub le32 : ℕ → Bytes
le32 n = (n % 256) ∷ (n / 256 % 256) ∷ (n / 65_536 % 256) ∷ (n / 16_777_216 % 256) ∷ []

unfoldable pub of_le32 : Bytes → ℕ
of_le32 (a ∷ b ∷ c ∷ d ∷ _) = a + 256 * b + 65_536 * c + 16_777_216 * d
of_le32 _ = 0

-- `io.ReadFull` into a buffer of `n` bytes, with what is left to read.
unfoldable pub read_full : ℕ → Bytes → Result FrameError (Bytes × Bytes)
read_full n r =
    if leb n (length r)
    then ok (take n r, drop n r)
    else if leb (length r) 0
    then err end_of_stream
    else err unexpected_end

module _ {V : Type 0} (encode : V → Option Bytes) where
  write_body : ℕ → Bytes → Sink → Sink × Result FrameError (Unit {0})
  write_body cap body s =
      if ltb cap (length body)
      then (s, err frame_too_large)
      else let (s', sent) = write (le32 (length body % 2 ^ 32)) s in
        if not sent
        then (s', err write_failed)
        else let (t, done) = write body s' in if done then (t, ok tt) else (t, err write_failed)

  unfoldable pub write_frame_with_cap : V → ℕ → Sink → Sink × Result FrameError (Unit {0})
  unfolding write_body
  write_frame_with_cap v cap s = elim (encode v) [
    | none ↦ (s, err marshal_failed)
    | some body ↦ write_body cap body s
  ]

  unfoldable pub write_frame : V → Sink → Sink × Result FrameError (Unit {0})
  write_frame v = write_frame_with_cap v max_request_frame

module _ {V : Type 0} (decode : Bytes → Option V) where
  abbrev pub unmarshal : Bytes → Result FrameError V
  unmarshal body = elim (decode body) [ none ↦ err unmarshal_failed | some v ↦ ok v ]

  -- What is left to read, and the value.
  read_body : ℕ → Bytes → Bytes × Result FrameError V
  read_body n r = elim (read_full n r) [
    | err e ↦ ([], err e)
    | ok (body, rest) ↦ (rest, unmarshal body)
  ]

  unfoldable pub read_frame_with_cap : ℕ → Bytes → Bytes × Result FrameError V
  unfolding read_body
  read_frame_with_cap cap r = elim (read_full 4 r) [
    | err e ↦ ([], err e)
    | ok (prefix, rest) ↦
        if ltb cap (of_le32 prefix)
        then (rest, err frame_too_large)
        else read_body (of_le32 prefix) rest
  ]

  unfoldable pub read_frame : Bytes → Bytes × Result FrameError V
  read_frame = read_frame_with_cap max_request_frame
