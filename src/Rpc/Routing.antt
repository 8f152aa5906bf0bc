-- ===== src/Rpc/Routing.antt =====
-- Which endpoint of an RPCServer a request reaches.
use commlib_py.Prelude.{
  ℕ, zero, ◌≡◌, ◌≢◌, ◌⊎◌, refl, ◌∙◌, ap, true, false, some, List, [], ◌∷◌, ◌++◌, All, length, arith,
}
use commlib_py.Topic.Text.{Text, codes, starts_with, text_eq, replace, replace_from, interleave}
use commlib_py.Topic.TextLaws.{replace-single}
use commlib_py.Bridges.Bridge.{contains, mqtt_topic}
use commlib_py.Bridges.Topics.{slashed, dotted-slashed}
use commlib_py.Rpc.Messages.{CommMessage, validate_rpc_req_msg}
use commlib_py.Redis.Rpc.{RpcService, respond}
use commlib_py.Rpc.Server.{
  full_uri, lstrip_dots, service_uri, drop_dot, mqtt_service_uri, find, register_endpoint,
  serve_request,
}

-- A match is passed over.
replace_from-skip :
    (old new p s : Text) → replace_from old new (length p) (p ++ s) ≡ replace_from old new zero s
unfolding replace_from
replace_from-skip old new [] s = refl
replace_from-skip old new (c ∷ p) s = replace_from-skip old new p s

starts_with-append : (p s : Text) → starts_with p (p ++ s) ≡ true
unfolding starts_with
starts_with-append [] s = refl
starts_with-append (c ∷ p) s = ground (arith, starts_with-append p s)

not_nil : (c : ℕ) (base : Text) → c ∷ base ≢ []
not_nil c base h = ground arith

-- What does not occur is not replaced.
replace_from-absent : (old s : Text) → contains old s ≡ false → replace_from old [] zero s ≡ s
unfolding replace_from contains
replace_from-absent old [] h = refl
replace_from-absent old (c ∷ s) h = ground (arith, replace_from-absent old s)

replace-prefix :
    (c : ℕ) (base s : Text)
    → contains (c ∷ base) s ≡ false
    → replace (c ∷ base) [] ((c ∷ base) ++ s) ≡ s
unfolding replace replace_from
replace-prefix c base s h = ground (
  arith,
  starts_with-append base s,
  replace_from-skip (c ∷ base) [] base s,
  replace_from-absent (c ∷ base) s h,
)

lstrip_dots-dot : (d : ℕ) (u : Text) → d ≢ b'.' → lstrip_dots (b'.' ∷ d ∷ u) ≡ d ∷ u
unfolding lstrip_dots
lstrip_dots-dot d u h = ground arith

text_eq_self : (t : Text) → text_eq t t ≡ true
unfolding text_eq
text_eq_self [] = refl
text_eq_self (c ∷ t) = ground (arith, text_eq_self t)

find-register_endpoint :
    {A : Type 0} (uri : Text) (a : A) (svc_map : List (Text × A))
    → find uri (register_endpoint uri a svc_map) ≡ some a
unfolding find register_endpoint
find-register_endpoint uri a [] = ground (arith, text_eq_self uri)
find-register_endpoint uri a ((u, b) ∷ more) =
    ground (arith, text_eq_self uri, find-register_endpoint uri a more)

-- The uri on which an endpoint is registered leads back to its key in the map of the server, over Redis:
-- with or without a base uri, if the base uri occurs only once and the key does not start with a dot.
pub service_uri-full_uri :
    (base u : Text) (d : ℕ)
    → d ≢ b'.'
    → (base ≡ []) ⊎ (contains base (b'.' ∷ d ∷ u) ≡ false)
    → service_uri base (full_uri base (d ∷ u)) ≡ d ∷ u
unfolding service_uri full_uri
service_uri-full_uri [] u d h k = refl
service_uri-full_uri (c ∷ base) u d h k =
    ground (arith, replace-prefix c base (b'.' ∷ d ∷ u), lstrip_dots-dot d u h, not_nil c base)

interleave-nil : (s : Text) → interleave [] s ≡ s
unfolding interleave
interleave-nil [] = refl
interleave-nil (c ∷ s) = ap (λ t. c ∷ t) (interleave-nil s)

replace-base :
    (base u : Text) (d : ℕ)
    → (base ≡ []) ⊎ (contains base (b'.' ∷ d ∷ u) ≡ false)
    → d ≢ b'.'
    → drop_dot (replace base [] (full_uri base (d ∷ u))) ≡ some (d ∷ u)
unfolding replace full_uri drop_dot
replace-base [] u d k h = ground (arith, interleave-nil (d ∷ u))
replace-base (c ∷ base) u d k h =
    ground (arith, replace-prefix c base (b'.' ∷ d ∷ u), not_nil c base)

-- The same over MQTT, whose topics have slashes, where neither uri has one of its own.
pub mqtt_service_uri-full_uri :
    (base u : Text) (d : ℕ)
    → d ≢ b'.'
    → (base ≡ []) ⊎ (contains base (b'.' ∷ d ∷ u) ≡ false)
    → All (λ c. c ≢ b'/') (full_uri base (d ∷ u))
    → mqtt_service_uri base (mqtt_topic (full_uri base (d ∷ u))) ≡ some (d ∷ u)
unfolding mqtt_service_uri mqtt_topic
mqtt_service_uri-full_uri base u d h k clean =
    let uri = full_uri base (d ∷ u) in
    let back : replace (codes "/") (codes ".") (replace (codes ".") (codes "/") uri) ≡ uri =
      ground (
        arith,
        replace-single b'.' b'/' uri,
        replace-single b'/' b'.' (slashed uri),
        dotted-slashed uri clean,
      ) in
    ap (λ t. drop_dot (replace base [] t)) back ∙ replace-base base u d k h

module _ {Value : Type 0} (empty : Value) where
  -- A valid request on the uri of a registered endpoint is answered by the service of that endpoint,
  -- whatever was registered before, if the endpoint's key does not begin with a dot, and if the server's
  -- base uri is empty or does not occur in a dot followed by the key.
  pub serve_request-register_endpoint :
      (base u : Text) (d : ℕ) (svc_map : List (Text × RpcService Value)) (v : RpcService Value)
      (m : CommMessage Value)
      → d ≢ b'.'
      → (base ≡ []) ⊎ (contains base (b'.' ∷ d ∷ u) ≡ false)
      → validate_rpc_req_msg m ≡ true
      → serve_request empty base (register_endpoint (d ∷ u) v svc_map) (full_uri base (d ∷ u)) m
        ≡ respond v m
  unfolding serve_request
  serve_request-register_endpoint base u d svc_map v m h k ok =
      ground (arith, service_uri-full_uri base u d h k, find-register_endpoint (d ∷ u) v svc_map)
