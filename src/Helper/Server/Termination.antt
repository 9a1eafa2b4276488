-- ===== src/Helper/Server/Termination.antt =====
-- The end of the loop of `handleConn` in daemon/internal/helper/server/server.go: every frame that is
-- read takes four bytes or more from the connection.
use host_health_mcp.Base.{
  ℕ, zero, suc, ◌+◌, ◌*◌, ◌≤◌, ◌<◌, ◌≡◌, refl, ap, Bytes, Option, arith, length,
}
use host_health_mcp.Base.Result.{Result, ok, err}
use host_health_mcp.Helper.Frame.{FrameError, max_response_frame, read_frame, write_frame_with_cap}
use host_health_mcp.Helper.Frame.Consumed.{length-read_frame}
use host_health_mcp.Helper.Server.{
  Request, Response, Config, Served, dispatch, handle_conn, give_up,
}

module _ {W V : Type 0} (marshal : V → Result Bytes Bytes) (decode : Bytes → Option Request)
    (encode : Response → Option Bytes) (cfg : Config W V) where
  -- The loop of a connection ends on any bytes: what it does is the same for all bounds on the number
  -- of requests above a fourth of the number of bytes.
  pub handle_conn_terminates :
      (m n : ℕ) (r : Bytes) (served : Served W)
      → length r < 4 * m
      → length r < 4 * n
      → handle_conn marshal decode encode m cfg r served
        ≡ handle_conn marshal decode encode n cfg r served
  unfolding handle_conn
  handle_conn_terminates zero n r served h k = absurd (omega (arith, h))
  handle_conn_terminates (suc m) zero r served h k = absurd (omega (arith, k))
  handle_conn_terminates (suc m) (suc n) r (s, sink) h k =
      by_read (read_frame decode r).1 refl (λ x less.
        handle_conn_terminates m n (read_frame decode r).0 x (omega (arith, h, less))
          (omega (arith, k, less)))
    where
      by_read :
          (o : Result FrameError Request)
          → (read_frame decode r).1 ≡ o
          → ((x : Served W)
              → 4 + length (read_frame decode r).0 ≤ length r
              → handle_conn marshal decode encode m cfg (read_frame decode r).0 x
                ≡ handle_conn marshal decode encode n cfg (read_frame decode r).0 x)
          → handle_conn marshal decode encode (suc m) cfg r (s, sink)
            ≡ handle_conn marshal decode encode (suc n) cfg r (s, sink)
      by_read (err e) is next = rw (is, handle_conn) refl
      by_read (ok req) is next =
          let less = length-read_frame decode r req is in
          let (s', resp) = dispatch marshal cfg req s in
          let (sink', written) = write_frame_with_cap encode resp max_response_frame sink in
          rw (is, handle_conn)
            (ap (λ (t : Served W). elim written [ ok _ ↦ t | err e ↦ (s', give_up encode e sink') ])
              (next (s', sink') less))
