-- ===== src/Rpc/Server.antt =====
-- commlib/transports/redis.py and commlib/transports/mqtt.py: RPCServer, which serves several endpoints
-- under a base uri, on BaseRPCServer of commlib/rpc.py.
use commlib_py.Prelude.{◌==◌, Option, none, some, List, [], ◌∷◌, ◌++◌, if◌then◌else◌}
use commlib_py.Topic.Text.{Text, codes, text_eq, replace}
use commlib_py.Rpc.Messages.{CommMessage, validate_rpc_req_msg}
use commlib_py.Redis.Rpc.{RpcService, respond}

-- start_endpoints: the queue or the topic of an endpoint
unfoldable pub full_uri : Text → Text → Text
full_uri [] uri = uri
full_uri (c ∷ base) uri = (c ∷ base) ++ (codes "." ++ uri)

-- uri.lstrip(".")
unfoldable pub lstrip_dots : Text → Text
lstrip_dots [] = []
lstrip_dots (c ∷ s) = if c == b'.' then lstrip_dots s else c ∷ s

-- RPCServer._on_request_internal of Redis: the key in `_svc_map`
unfoldable pub service_uri : Text → Text → Text
unfolding lstrip_dots replace
service_uri [] rpc_uri = rpc_uri
service_uri (c ∷ base) rpc_uri = lstrip_dots (replace (c ∷ base) [] rpc_uri)

-- `if svc_uri[0] == ".": svc_uri = svc_uri[1:]`; `none` is the IndexError.
unfoldable pub drop_dot : Text → Option Text
drop_dot [] = none
drop_dot (c ∷ s) = if c == b'.' then some s else some (c ∷ s)

-- RPCServer._on_request_internal of MQTT: the key in `_svc_map`
unfoldable pub mqtt_service_uri : Text → Text → Option Text
unfolding drop_dot replace
mqtt_service_uri base topic = drop_dot (replace base [] (replace (codes "/") (codes ".") topic))

module _ {A : Type 0} where
  -- `_svc_map[uri]`, `none` for a KeyError
  unfoldable pub find : Text → List (Text × A) → Option A
  unfolding text_eq
  find uri [] = none
  find uri ((u, a) ∷ more) = if text_eq u uri then some a else find uri more

  -- BaseRPCServer.register_endpoint
  unfoldable pub register_endpoint : Text → A → List (Text × A) → List (Text × A)
  unfolding text_eq
  register_endpoint uri a [] = (uri, a) ∷ []
  register_endpoint uri a ((u, b) ∷ more) =
      if text_eq u uri then (u, a) ∷ more else (u, b) ∷ register_endpoint uri a more

module _ {Value : Type 0} (empty : Value) where
  -- RPCServer._on_request_internal of Redis, up to the response, once the header has a `reply_to`; `none`
  -- is an exception that leaves it.
  unfoldable pub serve_request :
      Text → List (Text × RpcService Value) → Text → CommMessage Value → Option Value
  unfolding service_uri find respond
  serve_request base svc_map rpc_uri m =
      if validate_rpc_req_msg m
      then elim (find (service_uri base rpc_uri) svc_map) [
        | none ↦ some empty
        | some v ↦ respond v m
      ]
      else some empty
