-- ===== src/Helper/Frame/RoundTrip.antt =====
-- What daemon/internal/shared/proto/frame.go writes, it reads back.
use mathlib.Core.List.{append_assoc}
use host_health_mcp.Base.{
  ℕ, ◌+◌, ◌-◌, ◌^◌, ◌%◌, ◌≤◌, ◌<◌, ◌≡◌, subst, Bytes, false, Option, some, ◌++◌, arith, ltb, length,
  take-length, drop-length, length-append, le→leb,
}
use host_health_mcp.Base.Result.{ok, err}
use host_health_mcp.Helper.Frame.{
  frame_too_large, Sink, le32, of_le32, read_full, write_frame_with_cap, read_frame_with_cap,
}

read_full-append : (xs ys : Bytes) → read_full (length xs) (xs ++ ys) ≡ ok (xs, ys)
unfolding read_full
read_full-append xs ys = rw (
  le→leb (length xs) (length (xs ++ ys)) (omega (arith, length-append xs ys)),
  take-length xs ys,
  drop-length xs ys,
)

of_le32-le32 : (n : ℕ) → n < 2 ^ 32 → of_le32 (le32 (n % 2 ^ 32)) ≡ n
unfolding le32 of_le32
of_le32-le32 n h = omega arith

length-le32 : (n : ℕ) → length (le32 n) ≡ 4
unfolding le32
length-le32 n = omega arith

read_prefix : (n : ℕ) (ys : Bytes) → read_full 4 (le32 n ++ ys) ≡ ok (le32 n, ys)
read_prefix n ys =
    subst (λ k. read_full k (le32 n ++ ys) ≡ ok (le32 n, ys)) (length-le32 n)
      (read_full-append (le32 n) ys)

not_above : (a b : ℕ) → b ≤ a → ltb a b ≡ false
not_above a b h = ground arith

-- The bytes of one frame.
unfoldable pub frame : Bytes → Bytes
frame body = le32 (length body % 2 ^ 32) ++ body

pub length-frame : (body : Bytes) → length (frame body) ≡ length body + 4
unfolding frame
length-frame body =
    let prefix = le32 (length body % 2 ^ 32) in
    omega (arith, length-append prefix body, length-le32 (length body % 2 ^ 32))

pub write_frame-frame :
    {V : Type 0} (encode : V → Option Bytes) (v : V) (body : Bytes) (cap : ℕ) (s : Sink)
    → encode v ≡ some body
    → length body ≤ cap
    → length (frame body) ≤ s.room
    → write_frame_with_cap encode v cap s
      ≡ (record { out = s.out ++ frame body; room = s.room - length (frame body) }, ok tt)
unfolding write_frame_with_cap frame
write_frame-frame encode v body cap s e h room =
    let prefix = le32 (length body % 2 ^ 32) in
    ground (
      arith,
      length-append prefix body,
      length-le32 (length body % 2 ^ 32),
      append_assoc s.out prefix body,
    )

pub read_frame-frame :
    {V : Type 0} (decode : Bytes → Option V) (v : V) (body : Bytes) (cap : ℕ) (rest : Bytes)
    → decode body ≡ some v
    → length body ≤ cap
    → cap < 2 ^ 32
    → read_frame_with_cap decode cap (frame body ++ rest) ≡ (rest, ok v)
unfolding read_frame_with_cap frame
read_frame-frame decode v body cap rest d h k =
    rw (append_assoc (le32 (length body % 2 ^ 32)) body rest) (
      ground (
        arith,
        read_prefix (length body % 2 ^ 32) (body ++ rest),
        of_le32-le32 (length body) (omega arith),
        read_full-append body rest,
      ))

-- A value whose encoding is within the cap, written to a connection that takes the whole frame, is
-- read back under the same cap, whatever follows it, and the reader stops right behind it. The
-- decoder has to invert the encoder at this value, and the cap is below 2^32.
pub read-write_frame :
    {V : Type 0} (encode : V → Option Bytes) (decode : Bytes → Option V) (v : V) (body : Bytes)
    (cap : ℕ) (s : Sink) (rest : Bytes)
    → encode v ≡ some body
    → decode body ≡ some v
    → length body ≤ cap
    → cap < 2 ^ 32
    → length body + 4 ≤ s.room
    → (bytes : Bytes) × (write_frame_with_cap encode v cap s
        ≡ (record { out = s.out ++ bytes; room = s.room - length bytes }, ok tt))
      × (read_frame_with_cap decode cap (bytes ++ rest) ≡ (rest, ok v))
read-write_frame encode decode v body cap s rest e d h k room = (
  frame body,
  write_frame-frame encode v body cap s e h (omega (arith, length-frame body)),
  read_frame-frame decode v body cap rest d h k,
)

-- A value that encodes to more than the cap leaves the connection untouched.
pub write_frame_oversize :
    {V : Type 0} (encode : V → Option Bytes) (v : V) (body : Bytes) (cap : ℕ) (s : Sink)
    → encode v ≡ some body
    → cap < length body
    → write_frame_with_cap encode v cap s ≡ (s, err frame_too_large)
unfolding write_frame_with_cap
write_frame_oversize encode v body cap s e h = ground arith
