-- ===== src/Helper/Invoke/Served.antt =====
-- A call of daemon/internal/daemon/helperinvoke/helperinvoke.go against a helper that serves its
-- connection as daemon/internal/helper/server/server.go does.
use mathlib.Core.List.{append-nil}
use host_health_mcp.Base.{
  ℕ, ◌≤◌, ◌≡◌, refl, ap, ◌∙◌, String, Bytes, Bool, true, false, ◌&&◌, Option, some, [], ◌∷◌, arith,
  length,
}
use host_health_mcp.Base.Result.{Result, ok}
use host_health_mcp.Helper.Frame.{
  Sink, FrameError, max_request_frame, max_response_frame, write_frame, read_frame_with_cap,
}
use host_health_mcp.Helper.Frame.RoundTrip.{frame, write_frame-frame, read_frame-frame}
use host_health_mcp.Helper.Ops.{is_known_op}
use host_health_mcp.Helper.Server.{Request, Response, Config, State, dispatch, handle_conn}
use host_health_mcp.Helper.Server.Connection.{Sent, stream, frames, replies, handle_conn-replies}
use host_health_mcp.Helper.Invoke.{Attempt, request_of, receive, exchange, call}

module _ {W V : Type 0} (marshal : V → Result Bytes Bytes) (cfg : Config W V)
    (encode_request : Request → Option Bytes) (decode_request : Bytes → Option Request)
    (encode : Response → Option Bytes) (decode : Bytes → Option Response) where
  -- The helper at the other end: what it writes in answer to the bytes of one connection.
  abbrev pub helper : State W → Sink → Bytes → Bytes
  helper s sink r = (handle_conn marshal decode_request encode 2 cfg r (s, sink)).1.out

  -- An attempt that gets its place and reaches the helper.
  abbrev pub reaching : State W → ℕ → ℕ → Option ℕ → ℕ → ℕ → Attempt
  reaching s room room' deadline dialled framed = record {
    slot = true;
    conn = some (record {
      sink = record { out = []; room = room };
      peer = helper s (record { out = []; room = room' });
    });
    deadline = deadline;
    dialled_at = dialled;
    framed_at = framed;
  }

  slot_free : (limited : Bool) → (limited && false) ≡ false
  slot_free true = refl
  slot_free false = refl

  -- A call that gets its place and reaches the helper returns what the helper's dispatch of its
  -- request says: the data of a reply, or its error. Request and reply fit their caps and come
  -- back from JSON as they were.
  pub call_served :
      (limited : Bool) (op : String) (param : Bytes) (s : State W) (room room' : ℕ)
      (deadline : Option ℕ) (dialled framed : ℕ) (body text : Bytes)
      → (let req = request_of (reaching s room room' deadline dialled framed) op param in
          is_known_op op ≡ true
          → encode_request req ≡ some body
          → decode_request body ≡ some req
          → length body ≤ max_request_frame
          → length (frame body) ≤ room
          → encode (dispatch marshal cfg req s).1 ≡ some text
          → decode text ≡ some (dispatch marshal cfg req s).1
          → length text ≤ max_response_frame
          → length (frame text) ≤ room'
          → call encode_request decode limited
              (reaching s room room' deadline dialled framed)
              op
              param
            ≡ receive (ok (dispatch marshal cfg req s).1))
  unfolding call exchange write_frame stream frames replies
  call_served limited op param s room room' deadline dialled framed body text known eq dq fq rq er
        dr fr rr =
      let req = request_of (reaching s room room' deadline dialled framed) op param in
      let q : Sent decode_request = record {
        request = req;
        body = body;
        decodes = dq;
        fits = fq;
      } in
      let out =
        write_frame-frame encode_request req body max_request_frame
          (record { out = []; room = room }) eq fq rq in
      let back =
        read_frame-frame decode (dispatch marshal cfg req s).1 text max_response_frame [] dr fr
          (omega arith) in
      let sink' : Sink = record { out = []; room = room' } in
      let carried =
        ap (λ (z : Sink × Result FrameError (Unit {0})). z.0.out) out
        ∙ (rw (append-nil (frame body)) refl) in
      let served =
        ap (λ (z : State W × Sink). z.1.out)
          (handle_conn-replies marshal decode_request encode (λ r. text) cfg (q ∷ []) 0 s sink'
            ((er, fr), tt) (rw (append-nil (frame text)) rr)) in
      rw (known, slot_free limited, out, call, exchange)
        (ap
            (λ (b : Bytes).
              receive (read_frame_with_cap decode max_response_frame (helper s sink' b)).1)
            carried
          ∙ ap (λ (b : Bytes). receive (read_frame_with_cap decode max_response_frame b).1) served
          ∙ ap (λ (z : Bytes × Result FrameError Response). receive z.1) back)
