-- ===== src/Amqp/Serving.antt =====
-- commlib/transports/amqp.py: what an RPCService answers, and when it stops to.
use commlib_py.Prelude.{
  ◌+◌, ◌≡◌, ◌≤◌, ◌<◌, refl, ◌∙◌, ap, none, some, List, [], ◌∷◌, ◌++◌, map, All, length, append-nil,
  append_assoc, sym, arith, ltb, if◌then◌else◌,
}
use commlib_py.Amqp.Client.{Answer}
use commlib_py.Amqp.Service.{
  Request, RpcService, Serving, invoke_onrequest_callback, send_response, on_request_callback,
  serve,
}

module _ {Value Payload : Type 0} (v : RpcService Value Payload) where
  -- The request is answered with this body.
  abbrev pub Answers : Request Payload → Payload → Type 0
  Answers q body =
      (fields : Value) × (r : Value) × (v.decode q.body ≡ some fields)
      × (invoke_onrequest_callback v fields ≡ some r)
      × (v.encode r ≡ some body)

  answer_of :
      (q : Request Payload) (body : Payload) (w : Serving Payload)
      → Answers q body
      → on_request_callback v q w ≡ record w {
        answered = w.answered ++ record { correlation_id = q.correlation_id; body = body } ∷ [];
      }
  unfolding on_request_callback send_response
  answer_of q body w (fields, r, d, i, e) = ground arith

  full :
      (qs : List (Request Payload)) (w : Serving Payload)
      → w.max_workers ≤ w.unacked
      → serve v qs w ≡ w
  unfolding serve
  full [] w h = refl
  full (q ∷ qs) w h = ground (arith, full qs w h)

  -- Requests that can be read and answered: each one is answered under its own correlation id, in
  -- order, and all of them are acknowledged.
  pub serve_readable :
      (qs : List (Request Payload × Payload)) (w : Serving Payload)
      → w.unacked < w.max_workers
      → All (λ q. Answers q.0 q.1) qs
      → serve v (map (λ q. q.0) qs) w ≡ record w {
        answered =
            w.answered ++ map (λ q. record { correlation_id = q.0.correlation_id; body = q.1 }) qs;
      }
  unfolding serve
  serve_readable [] w h a = ap (λ l. record w { answered = l }) (sym (append-nil w.answered))
  serve_readable (q ∷ qs) w h (a, more) =
      let body : Answer Payload = record { correlation_id = q.0.correlation_id; body = q.1 } in
      let w1 = record w { answered = w.answered ++ body ∷ [] } in
      let first : (if ltb w.unacked w.max_workers then on_request_callback v q.0 w else w) ≡ w1 =
        ground (arith, answer_of q.0 q.1 w a) in
      ap (serve v (map (λ q. q.0) qs)) first
      ∙ serve_readable qs w1 h more
      ∙ ap (λ l. record w { answered = l })
          (append_assoc w.answered (body ∷ [])
            (map (λ q. record { correlation_id = q.0.correlation_id; body = q.1 }) qs))

  -- Each request that cannot be read stays without an acknowledgement; once there have been as many as
  -- the service has workers, no request is answered any more, whatever it is.
  pub serve_starves :
      (bad qs : List (Request Payload)) (w : Serving Payload)
      → All (λ q. v.decode q.body ≡ none) bad
      → w.max_workers ≤ w.unacked + length bad
      → (serve v (bad ++ qs) w).answered ≡ w.answered
  unfolding serve on_request_callback
  serve_starves [] qs w b h = ground (arith, full qs w)
  serve_starves (q ∷ bad) qs w (b, bs) h =
      ground
        (arith, full (bad ++ qs) w, serve_starves bad qs (record w { unacked = w.unacked + 1 }) bs)
