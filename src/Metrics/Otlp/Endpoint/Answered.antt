-- ===== src/Metrics/Otlp/Endpoint/Answered.antt =====
-- Which HTTP requests of the receiver (internal/metrics/otlp.go) have an effect.
use ninjascale.Prelude.{
  ℕ, ◌≡◌, ◌⊎◌, inl, inr, refl, sym, ap, true, not, ◌||◌, some, String, str_eq, eq_iff, arith,
  Bool-cases,
}
use ninjascale.Prelude.Result.{
  Result, ok, err, reject_if, or_err, >>-ok, >>=-ok, >>=-err, reject_if-ok, reject_if-err,
  or_err-ok, or_err-err, ok-eq,
}
use ninjascale.Time.{Time}
use ninjascale.Metrics.{Float}
use ninjascale.Metrics.Otlp.{Formats, Bindings, Received, process_request}
use ninjascale.Metrics.Otlp.Endpoint.{
  Resources, Transport, HttpRequest, Answer, unsupported_media_type, body_of, decode_request,
  respond, handle_http_metrics,
}

module _ {V B : Type 0} (transport : Transport V B) where
  -- The body as it is sent, or what a gzip reader makes of it.
  pub data IsBody (req : HttpRequest B) (body : B) : Type 0 where
    plain :
        (req.content_encoding ≡ "") ⊎ (req.content_encoding ≡ "identity")
        → req.body ≡ body
        → IsBody req body
    gzipped :
        req.content_encoding ≡ "gzip"
        → transport.new_gzip_reader req.body ≡ some body
        → IsBody req body

  -- A POST whose body can be read and holds the request.
  pub record Carries (req : HttpRequest B) (resources : Resources V) : Type 0 where
    pub posted : req.method ≡ "POST"
    pub body : B
    pub encoded : IsBody req body
    pub payload : String
    pub read : transport.read_all body ≡ some payload
    pub decoded : transport.unmarshal payload ≡ some resources

  -- The error answers.
  abbrev pub IsError : Answer → Type 0
  IsError a = (a.status ≡ 400) ⊎ ((a.status ≡ 405) ⊎ (a.status ≡ 415))

  body_of-IsBody : (req : HttpRequest B) (b : B) → body_of transport req ≡ ok b → IsBody req b
  body_of-IsBody req b h =
      elim (Bool-cases (str_eq req.content_encoding "" || str_eq req.content_encoding "identity")) [
        | inl e ↦
            plain
              (elim (Bool-cases (str_eq req.content_encoding "")) [
                | inl a ↦ inl ((eq_iff req.content_encoding "").0 a)
                | inr a ↦ inr ((eq_iff req.content_encoding "identity").0 (ground arith))
              ])
              (ok-eq (body_of transport req) (rw e refl) h)
        | inr e ↦ elim (Bool-cases (str_eq req.content_encoding "gzip")) [
          | inl z ↦
              gzipped ((eq_iff req.content_encoding "gzip").0 z)
                (or_err-ok (transport.new_gzip_reader req.body) _ (rw (e, z) at h))
          | inr z ↦ absurd (cc (rw (e, z) at h))
        ]
      ]

  IsBody-body_of : (req : HttpRequest B) (b : B) → IsBody req b → body_of transport req ≡ ok b
  IsBody-body_of req b (plain (inl e) same) = rw (e, same) refl
  IsBody-body_of req b (plain (inr e) same) = rw (e, same) refl
  IsBody-body_of req b (gzipped e made) = rw (e, made) refl

  body_of-IsError : (req : HttpRequest B) (a : Answer) → body_of transport req ≡ err a → IsError a
  body_of-IsError req a h =
      elim (Bool-cases (str_eq req.content_encoding "" || str_eq req.content_encoding "identity")) [
        | inl e ↦ absurd (cc (rw e at h))
        | inr e ↦ elim (Bool-cases (str_eq req.content_encoding "gzip")) [
          | inl z ↦ inl (
              sym (
                ap (λ (x : Answer). x.status)
                  (or_err-err (transport.new_gzip_reader req.body) _ (rw (e, z) at h))))
          | inr z ↦
              let same : unsupported_media_type ≡ a = cc (rw (e, z) at h) in
              inr (inr (sym (ap (λ (x : Answer). x.status) same)))
        ]
      ]

  decode_request-Carries :
      (req : HttpRequest B) (resources : Resources V)
      → decode_request transport req ≡ ok resources
      → Carries req resources
  unfolding decode_request
  decode_request-Carries req resources h =
      let (a, h1) = >>-ok (reject_if (not (str_eq req.method "POST")) _) _ h in
      let (body, b, h2) = >>=-ok (body_of transport req) _ h1 in
      let (payload, c, d) = >>=-ok (or_err (transport.read_all body) _) _ h2 in
      let post : str_eq req.method "POST" ≡ true = ground (arith, reject_if-ok _ _ a) in
      record {
        posted = (eq_iff req.method "POST").0 post;
        body = body;
        encoded = body_of-IsBody req body b;
        payload = payload;
        read = or_err-ok _ _ c;
        decoded = or_err-ok _ _ d;
      }

  Carries-decode_request :
      (req : HttpRequest B) (resources : Resources V)
      → Carries req resources
      → decode_request transport req ≡ ok resources
  unfolding decode_request
  Carries-decode_request req resources c =
      let post : str_eq req.method "POST" ≡ true = (eq_iff req.method "POST").1 c.posted in
      rw (post, IsBody-body_of req c.body c.encoded, c.read, c.decoded) refl

  decode_request-IsError :
      (req : HttpRequest B) (a : Answer) → decode_request transport req ≡ err a → IsError a
  unfolding decode_request
  decode_request-IsError req a h =
      elim (>>=-err (reject_if (not (str_eq req.method "POST")) _) _ h) [
        | inl e ↦ inr (inl (sym (ap (λ (x : Answer). x.status) (reject_if-err _ _ e))))
        | inr (u, h1) ↦ elim (>>=-err (body_of transport req) _ h1) [
          | inl e ↦ body_of-IsError req a e
          | inr (body, h2) ↦ elim (>>=-err (or_err (transport.read_all body) _) _ h2) [
            | inl e ↦ inl (sym (ap (λ (x : Answer). x.status) (or_err-err _ _ e)))
            | inr (payload, e) ↦ inl (sym (ap (λ (x : Answer). x.status) (or_err-err _ _ e)))
          ]
        ]
      ]

module _ {V B : Type 0} ⦃float : Float V⦄ (f : Formats V) (clocks : ℕ → Time)
    (transport : Transport V B) where
  respond-cases :
      (bindings : Bindings) (received : Time) (req : HttpRequest B) (r : Received V)
      (decoded : Result Answer (Resources V))
      → decode_request transport req ≡ decoded
      → let (r', answer) = respond f clocks bindings received decoded r in
        ((resources : Resources V) × Carries transport req resources
          × (answer.status ≡ 200)
          × (r' ≡ process_request f clocks bindings received resources r))
        ⊎ (((resources : Resources V) → ¬ Carries transport req resources)
            × IsError transport answer
            × (r' ≡ r))
  respond-cases bindings received req r (ok resources) e =
      inl (resources, decode_request-Carries transport req resources e, refl, refl)
  respond-cases bindings received req r (err answer) e = inr (
    λ resources c. let e' = Carries-decode_request transport req resources c in cc,
    decode_request-IsError transport req answer e,
    refl,
  )

  -- An HTTP request of metrics is answered 200 and processed, once, exactly when it is a POST whose
  -- body, plain or unzipped as its encoding says, can be read and holds metrics. Any other request
  -- is answered 400, 405 or 415 and leaves the store as it was.
  pub handle_http_metrics_lem :
      (bindings : Bindings) (received : Time) (req : HttpRequest B) (r : Received V)
      → let (r', answer) = handle_http_metrics f clocks transport bindings received req r in
        ((resources : Resources V) × Carries transport req resources
          × (answer.status ≡ 200)
          × (r' ≡ process_request f clocks bindings received resources r))
        ⊎ (((resources : Resources V) → ¬ Carries transport req resources)
            × IsError transport answer
            × (r' ≡ r))
  unfolding handle_http_metrics
  handle_http_metrics_lem bindings received req r =
      respond-cases bindings received req r (decode_request transport req) refl
