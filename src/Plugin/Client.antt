-- ===== src/Plugin/Client.antt =====
-- `Client.Call` of plugin/internal/client/client.go. The network is `post`, which sends a body to a URL
-- within a time and says what came back, and a world of type `W` that it changes.
use host_health_mcp.Helper.Deadline.{ℤ, pos}
use host_health_mcp.Base.{ℕ, Bytes, codes, Option, none, some, [], ◌∷◌, ◌++◌, leb, if◌then◌else◌}

-- What `c.http.Do` and `io.ReadAll` came to.
pub data Exchange : Type 0 where
  no_request not_done not_read : Exchange
  received : ℕ → Bytes → Exchange

-- `Error`
pub record DaemonError : Type 0 where
  pub http_status : ℕ
  pub code : Bytes
  pub message : Bytes

-- `errorBody`
pub record ErrorBody : Type 0 where
  pub code : Bytes
  pub message : Bytes

pub data CallResult : Type 0 where
  replied : Bytes → CallResult
  refused : DaemonError → CallResult
  failed : CallResult

module _ (int_text : ℤ → Bytes) where
  abbrev unparseable : ℕ → DaemonError
  unparseable status = record {
    http_status = status;
    code = codes "internal_error";
    message = codes "unparseable error body (status " ++ (int_text (pos status) ++ codes ")");
  }

  -- Of a body that is no JSON, or has no code, only the status is told.
  abbrev pub error_of : ℕ → Option ErrorBody → DaemonError
  error_of status none = unparseable status
  error_of status (some e) = elim e.code [
    | [] ↦ unparseable status
    | _ ∷ _ ↦ record { http_status = status; code = e.code; message = e.message }
  ]

abbrev pub url_of : Bytes → Bytes → Bytes
url_of host tool = codes "https://" ++ (host ++ (codes "/v1/" ++ tool))

abbrev pub result_of : (ℤ → Bytes) → (Bytes → Option ErrorBody) → Exchange → CallResult
result_of int_text parse_error no_request = failed
result_of int_text parse_error not_done = failed
result_of int_text parse_error not_read = failed
result_of int_text parse_error (received status out) =
    if leb 400 status then refused (error_of int_text status (parse_error out)) else replied out

module _ {W : Type 0} (int_text : ℤ → Bytes) (parse_error : Bytes → Option ErrorBody)
    (post : W → ℕ → Bytes → Bytes → W × Exchange) where
  -- `Call`, within a time of so many nanoseconds.
  unfoldable pub call : W → ℕ → Bytes → Bytes → Bytes → W × CallResult
  call w within host tool body =
      let (w', came) = post w within (url_of host tool) body in
      (w', result_of int_text parse_error came)
