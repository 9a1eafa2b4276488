-- ===== src/Helper/Frame/Consumed.antt =====
-- How much of a stream a frame of daemon/internal/shared/proto/frame.go takes.
use host_health_mcp.Base.{
  ℕ, ◌+◌, ◌≤◌, ◌≡◌, refl, Bytes, arith, ◌⊎◌, inl, inr, length, length-drop, drop, take, leb, ltb,
  leb→le, Bool-cases, Option,
}
use host_health_mcp.Base.Result.{Result, ok, err}
use host_health_mcp.Helper.Frame.{
  FrameError, end_of_stream, unexpected_end, frame_too_large, max_request_frame, of_le32, read_full,
  read_frame, read_frame_with_cap, read_body,
}

read_full-cases :
    (n : ℕ) (r : Bytes)
    → ((n ≤ length r) × (read_full n r ≡ ok (take n r, drop n r)))
      ⊎ ((e : FrameError) × (read_full n r ≡ err e))
unfolding read_full
read_full-cases n r = elim (Bool-cases (leb n (length r))) [
  | inl full ↦ inl (leb→le n (length r) full, rw full refl)
  | inr short ↦ elim (Bool-cases (leb (length r) 0)) [
    | inl over ↦ inr (end_of_stream, rw (short, over) refl)
    | inr some_left ↦ inr (unexpected_end, rw (short, some_left) refl)
  ]
]

module _ {V : Type 0} (decode : Bytes → Option V) where
  length-read_body : (n : ℕ) (r : Bytes) → length (read_body decode n r).0 ≤ length r
  unfolding read_body
  length-read_body n r = elim (read_full-cases n r) [
    | inl (full, is) ↦ rw (is, read_body) (omega (arith, length-drop n r))
    | inr (e, is) ↦ rw (is, read_body) (omega arith)
  ]

  -- What a frame that is read leaves of a stream.
  pub length-read_frame :
      (r : Bytes) (v : V)
      → (read_frame decode r).1 ≡ ok v
      → 4 + length (read_frame decode r).0 ≤ length r
  unfolding read_frame read_frame_with_cap
  length-read_frame r v h = elim (read_full-cases 4 r) [
    | inr (e, is) ↦ no_frame e (rw (is, read_frame, read_frame_with_cap) at h)
    | inl (full, is) ↦ elim (Bool-cases (ltb max_request_frame (of_le32 (take 4 r)))) [
      | inl over ↦ no_frame frame_too_large (rw (is, over, read_frame, read_frame_with_cap) at h)
      | inr within ↦
          rw (is, within, read_frame, read_frame_with_cap)
            (omega (arith, length-drop 4 r, full, length-read_body (of_le32 (take 4 r)) (drop 4 r)))
    ]
  ]
    where
      no_frame :
          (e : FrameError)
          → ◌≡◌ {A = Result FrameError V} (err e) (ok v)
          → 4 + length (read_frame decode r).0 ≤ length r
      no_frame e absurd_frame = absurd (ground (arith, absurd_frame))
