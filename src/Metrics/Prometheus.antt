-- ===== src/Metrics/Prometheus.antt =====
-- internal/metrics/prometheus.go, the source: one sample out of a query's result, and the transport
-- that adds a token to a request. The client's API is a parameter: what it answers to a query at an
-- instant.
use Prim.Native.String.{◌++◌}
use ninjascale.Prelude.{
  ◌≡◌, insert, lookup, lookup-insert, string_key, ℕ, Option, none, some, List, [], ◌∷◌, String,
  length, str_eq, if◌then◌else◌,
}
use ninjascale.Prelude.Result.{Result, ok, or_err, ◌>>=◌}
use ninjascale.Time.{Time}
use ninjascale.Metrics.{Sample}

-- `model.Value`: a vector's samples with their timestamps, a scalar, or another type.
pub data QueryValue (V : Type 0) : Type 0 where
  vector : List (Sample V) → QueryValue V
  scalar : Sample V → QueryValue V
  other : QueryValue V

-- `prometheusAPI.Query`; none is an error. (Its warnings are only logged.)
pub record PrometheusSource (V : Type 0) : Type 0 where
  pub name : String
  pub api : String → Time → Option (QueryValue V)

pub data QueryError : Type 0 where
  query_failed : QueryError
  ambiguous : (series : ℕ) → QueryError
  unexpected_type : QueryError

-- `(Sample, bool, error)`.
pub data Queried (V : Type 0) : Type 0 where
  sample : Sample V → Queried V
  absent : Queried V
  failed : QueryError → Queried V

module _ {V : Type 0} where
  abbrev pub interpret : Option (QueryValue V) → Queried V
  interpret none = failed query_failed
  interpret (some (vector [])) = absent
  interpret (some (vector (v ∷ []))) = sample v
  interpret (some (vector (v ∷ w ∷ vs))) = failed (ambiguous (length (v ∷ w ∷ vs)))
  interpret (some (scalar v)) = sample v
  interpret (some other) = failed unexpected_type

  unfoldable pub query : PrometheusSource V → String → Time → Queried V
  query source text at = interpret (source.api text at)

-- `os.ReadFile` of the token, and `api.NewClient` with `promv1.NewAPI` for an address and a token;
-- none is an error.
pub record PrometheusClients (V : Type 0) : Type 0 where
  pub read_token : String → Option String
  pub new_api : String → Option String → Option (String → Time → Option (QueryValue V))

pub data SourceError : Type 0 where
  token_not_read : SourceError
  client_not_created : SourceError

module _ {V : Type 0} (clients : PrometheusClients V) where
  -- The token that requests carry: none without a file.
  abbrev pub bearer_token : String → Result SourceError (Option String)
  bearer_token path =
      if str_eq path ""
      then ok none
      else (or_err (clients.read_token path) token_not_read >>= λ token. ok (some token))

  unfoldable pub new_prometheus_source :
      String → String → String → Result SourceError (PrometheusSource V)
  new_prometheus_source name address token_file = do
    token ← bearer_token token_file
    api ← or_err (clients.new_api address token) client_not_created
    ok (record { name = name; api = api })

-- The headers of a request: the values under each name.
abbrev pub Headers : Type 0
Headers = List (String × List String)

-- `bearerAuthTransport.RoundTrip`: the headers of the clone that is sent on, with the token as it was
-- read. The request itself stays as it is.
unfoldable pub round_trip : {R : Type 0} → (Headers → R) → String → Headers → R
round_trip rt token headers = rt (insert "Authorization" (("Bearer " ++ token) ∷ []) headers)

-- What is sent on has the token as its only authorization, and every other header of the request.
pub round_trip_lem :
    (token : String) (headers : Headers) (name : String)
    → lookup name (round_trip (λ sent. sent) token headers) ≡ (
        if str_eq "Authorization" name
        then some (("Bearer " ++ token) ∷ [])
        else lookup name headers)
unfolding round_trip
round_trip_lem token headers name =
    lookup-insert "Authorization" name (("Bearer " ++ token) ∷ []) headers
