-- ===== src/Helper/Server/Connection.antt =====
-- `handleConn` of daemon/internal/helper/server/server.go over a whole connection.
use mathlib.Core.List.{append_assoc, append-nil}
use host_health_mcp.Base.{
  ℕ, suc, ◌+◌, ◌-◌, ◌≤◌, ◌<◌, ◌≡◌, refl, ap, ◌∙◌, Bytes, Option, some, List, [], ◌∷◌, ◌++◌, arith,
  length, length-append, All,
}
use host_health_mcp.Base.Result.{Result}
use host_health_mcp.Helper.Frame.{
  Sink, max_request_frame, max_response_frame, read_frame, read_frame_with_cap, read_full,
}
use host_health_mcp.Helper.Frame.RoundTrip.{
  frame, write_frame-frame, read_frame-frame, write_frame_oversize,
}
use host_health_mcp.Helper.Server.Warnings.{dispatch_all}
use host_health_mcp.Helper.Server.{
  Request, Response, Config, State, dispatch, handle_conn, give_up, truncated_reply,
}

-- A request as it travels: bytes that decode to it, within the request cap.
pub record Sent (decode : Bytes → Option Request) : Type 0 where
  pub request : Request
  pub body : Bytes
  pub decodes : decode body ≡ some request
  pub fits : length body ≤ max_request_frame

module _ {decode : Bytes → Option Request} where
  unfoldable pub stream : List (Sent decode) → Bytes
  stream [] = []
  stream (q ∷ qs) = frame q.body ++ stream qs

  abbrev pub requests : List (Sent decode) → List Request
  requests [] = []
  requests (q ∷ qs) = q.request ∷ requests qs

module _ {W V : Type 0} (marshal : V → Result Bytes Bytes) (cfg : Config W V) where
  -- The replies to requests dispatched in turn.
  unfoldable pub replies : List Request → State W → List Response
  replies [] s = []
  replies (q ∷ qs) s = (dispatch marshal cfg q s).1 ∷ replies qs (dispatch marshal cfg q s).0

-- Every reply encodes to some bytes within the response cap.
abbrev pub FitsAll : (Response → Bytes) → (Response → Option Bytes) → List Response → Type 0
FitsAll text encode = All (λ r. (encode r ≡ some (text r)) × (length (text r) ≤ max_response_frame))

unfoldable pub frames : (Response → Bytes) → List Response → Bytes
frames text [] = []
frames text (r ∷ rs) = frame (text r) ++ frames text rs

module _ {W V : Type 0} (marshal : V → Result Bytes Bytes) (decode : Bytes → Option Request)
    (encode : Response → Option Bytes) (text : Response → Bytes) (cfg : Config W V) where
  conn_step :
      (fuel : ℕ) (q : Sent decode) (rest : Bytes) (s : State W) (sink : Sink)
      → (encode (dispatch marshal cfg q.request s).1
          ≡ some (text (dispatch marshal cfg q.request s).1))
        × (length (text (dispatch marshal cfg q.request s).1) ≤ max_response_frame)
      → length (frame (text (dispatch marshal cfg q.request s).1)) ≤ sink.room
      → handle_conn marshal decode encode (suc fuel) cfg (frame q.body ++ rest) (s, sink)
        ≡ handle_conn marshal decode encode fuel cfg rest (
          (dispatch marshal cfg q.request s).0,
          record {
            out = sink.out ++ frame (text (dispatch marshal cfg q.request s).1);
            room = sink.room - length (frame (text (dispatch marshal cfg q.request s).1));
          },
        )
  unfolding handle_conn read_frame
  conn_step fuel q rest s sink (e, h) room =
      let resp = (dispatch marshal cfg q.request s).1 in
      let read =
        read_frame-frame decode q.request q.body max_request_frame rest q.decodes q.fits
          (omega arith) in
      let sent = write_frame-frame encode resp (text resp) max_response_frame sink e h room in
      rw (read, handle_conn, sent) (cc (read, sent))

  conn_end :
      (fuel : ℕ) (s : State W) (sink : Sink)
      → handle_conn marshal decode encode (suc fuel) cfg [] (s, sink) ≡ (s, sink)
  unfolding handle_conn read_frame read_frame_with_cap read_full
  conn_end fuel s sink = refl

  -- A connection that brings requests and nothing else is served to its end: each request is
  -- dispatched in its turn, and the peer gets the frames of the replies in that order and nothing
  -- else. The replies encode within the response cap and the peer takes them all; the fuel is one
  -- more than the number of requests.
  pub handle_conn-replies :
      (qs : List (Sent decode)) (extra : ℕ) (s : State W) (sink : Sink)
      → FitsAll text encode (replies marshal cfg (requests qs) s)
      → length (frames text (replies marshal cfg (requests qs) s)) ≤ sink.room
      → handle_conn marshal decode encode (suc (length qs + extra)) cfg (stream qs) (s, sink) ≡ (
        dispatch_all marshal cfg (requests qs) s,
        record {
          out = sink.out ++ frames text (replies marshal cfg (requests qs) s);
          room = sink.room - length (frames text (replies marshal cfg (requests qs) s));
        },
      )
  unfolding replies frames stream dispatch_all
  handle_conn-replies [] extra s sink f room =
      conn_end (0 + extra) s sink ∙ ground (arith, append-nil sink.out)
  handle_conn-replies (q ∷ qs) extra s sink f room =
      let s' = (dispatch marshal cfg q.request s).0 in
      let first = frame (text (dispatch marshal cfg q.request s).1) in
      let later = frames text (replies marshal cfg (requests qs) s') in
      let size = length-append first later in
      let sink' : Sink = record { out = sink.out ++ first; room = sink.room - length first } in
      let fuel : suc (length qs) + extra ≡ suc (length qs + extra) = omega arith in
      ap (λ n. handle_conn marshal decode encode (suc n) cfg (stream (q ∷ qs)) (s, sink)) fuel
      ∙ conn_step (suc (length qs + extra)) q (stream qs) s sink f.0 (omega (arith, size))
      ∙ handle_conn-replies qs extra s' sink' f.1 (omega (arith, size))
      ∙ ground (arith, size, append_assoc sink.out first later)

  -- A reply that encodes to more than the response cap never ends the connection in silence: what
  -- the peer gets in its place is one whole frame with the truncation error, and the loop ends.
  -- The error itself encodes within the cap and the peer takes it.
  pub handle_conn_oversize :
      (fuel : ℕ) (q : Sent decode) (rest body : Bytes) (s : State W) (sink : Sink)
      → encode (dispatch marshal cfg q.request s).1 ≡ some body
      → max_response_frame < length body
      → encode truncated_reply ≡ some (text truncated_reply)
      → length (text truncated_reply) ≤ max_response_frame
      → length (frame (text truncated_reply)) ≤ sink.room
      → handle_conn marshal decode encode (suc fuel) cfg (frame q.body ++ rest) (s, sink) ≡ (
        (dispatch marshal cfg q.request s).0,
        record {
          out = sink.out ++ frame (text truncated_reply);
          room = sink.room - length (frame (text truncated_reply));
        },
      )
  unfolding handle_conn read_frame give_up
  handle_conn_oversize fuel q rest body s sink e h et ht room =
      let resp = (dispatch marshal cfg q.request s).1 in
      let read =
        read_frame-frame decode q.request q.body max_request_frame rest q.decodes q.fits
          (omega arith) in
      let refused = write_frame_oversize encode resp body max_response_frame sink e h in
      let sent =
        write_frame-frame encode truncated_reply (text truncated_reply) max_response_frame sink et
          ht room in
      rw (read, handle_conn, refused) (cc (refused, sent))
