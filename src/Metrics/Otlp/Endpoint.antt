-- ===== src/Metrics/Otlp/Endpoint.antt =====
-- internal/metrics/otlp.go, `handleHTTPMetrics` and `Export`: how a request reaches the receiver. The
-- decompression, the reading of a body of type `B` and the decoding of the protocol are parameters.
pub mod Answered
use ninjascale.Prelude.{ℕ, Bool, not, ◌||◌, Option, List, String, str_eq, if◌then◌else◌}
use ninjascale.Prelude.Result.{Result, ok, err, reject_if, or_err, ◌>>=◌, ◌>>◌}
use ninjascale.Time.{Time}
use ninjascale.Metrics.{Float}
use ninjascale.Metrics.Otlp.{Formats, Metric, Bindings, Received, process_request}

-- The metrics of all scopes of all resources.
abbrev pub Resources : Type 0 → Type 0
Resources V = List (List (List (Metric V)))

-- `gzip.NewReader`, `io.ReadAll` and `proto.Unmarshal`; none is an error.
pub record Transport (V B : Type 0) : Type 0 where
  pub new_gzip_reader : B → Option B
  pub read_all : B → Option String
  pub unmarshal : String → Option (Resources V)

pub record HttpRequest (B : Type 0) : Type 0 where
  pub method : String
  pub content_encoding : String
  pub body : B

-- `http.Error`, or the header of an answer without a text.
pub record Answer : Type 0 where
  pub status : ℕ
  pub text : String

abbrev pub method_not_allowed : Answer
method_not_allowed = record { status = 405; text = "method not allowed" }

abbrev pub unsupported_media_type : Answer
unsupported_media_type = record { status = 415; text = "unsupported content encoding" }

abbrev pub bad_request : String → Answer
bad_request text = record { status = 400; text = text }

module _ {V B : Type 0} (transport : Transport V B) where
  -- The switch on the encoding.
  abbrev pub body_of : HttpRequest B → Result Answer B
  body_of req =
      if str_eq req.content_encoding "" || str_eq req.content_encoding "identity"
      then ok req.body
      else if str_eq req.content_encoding "gzip"
      then or_err (transport.new_gzip_reader req.body) (bad_request "failed to decompress body")
      else err unsupported_media_type

  -- The request that an HTTP request carries, or the answer to one that carries none.
  unfoldable pub decode_request : HttpRequest B → Result Answer (Resources V)
  decode_request req = do
    reject_if (not (str_eq req.method "POST")) method_not_allowed
    body ← body_of req
    payload ← or_err (transport.read_all body) (bad_request "failed to read body")
    or_err (transport.unmarshal payload) (bad_request "failed to parse protobuf")

module _ {V : Type 0} ⦃float : Float V⦄ (f : Formats V) (clocks : ℕ → Time) where
  -- `Export`.
  abbrev pub export_request : Bindings → Time → Resources V → Received V → Received V
  export_request bindings received resources r =
      process_request f clocks bindings received resources r

  abbrev pub respond :
      Bindings → Time → Result Answer (Resources V) → Received V → Received V × Answer
  respond bindings received (err answer) r = (r, answer)
  respond bindings received (ok resources) r =
      (process_request f clocks bindings received resources r, record { status = 200; text = "" })

  unfoldable pub handle_http_metrics :
      {B : Type 0}
      → Transport V B
      → Bindings
      → Time
      → HttpRequest B
      → Received V
      → Received V × Answer
  handle_http_metrics transport bindings received req r =
      respond bindings received (decode_request transport req) r
