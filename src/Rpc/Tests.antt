-- ===== src/Rpc/Tests.antt =====
-- Requests to a server with several endpoints, and the theorem on them at an input where its hypotheses
-- hold.
use commlib_py.Prelude.{ℕ, ◌+◌, ◌≡◌, inr, refl, false, some, [], ◌∷◌, arith}
use commlib_py.Topic.Text.{codes, starts_with, text_eq, replace, replace_from}
use commlib_py.Bridges.Bridge.{contains}
use commlib_py.Rpc.Messages.{CommMessage, answers, validate_rpc_req_msg}
use commlib_py.Redis.Rpc.{RpcService, respond, response_of}
use commlib_py.Rpc.Comm.{Response, write, push, act, act_all}
use commlib_py.Rpc.Server.{
  full_uri, lstrip_dots, service_uri, drop_dot, mqtt_service_uri, find, register_endpoint,
  serve_request,
}
use commlib_py.Rpc.Routing.{serve_request-register_endpoint}

program : Unit {0}
unfolding starts_with text_eq replace replace_from contains validate_rpc_req_msg respond response_of
    act act_all full_uri lstrip_dots service_uri drop_dot mqtt_service_uri find register_endpoint
    serve_request
program = tt

abbrev to_first : Response ℕ
to_first = record { reply_to = 1; fields = 10 }

abbrev to_second : Response ℕ
to_second = record { reply_to = 2; fields = 20 }

overlapping :
    (act_all
      (write to_first ∷ write to_second ∷ push to_first ∷ push to_second ∷ [])
      (record { comm_data = 0; pushed = [] })).pushed
    ≡ (1, 20) ∷ (2, 20) ∷ []
unfolding program
overlapping = refl

abbrev adding : ℕ → RpcService ℕ
adding n = record {
  typed = false;
  read_request = λ v. some v;
  on_request = λ v. answers (v + n);
  empty = 0;
}

abbrev call_of : ℕ → CommMessage ℕ
call_of n = record { reply_to = some 9; payload = n }

serve_request-register_endpoint_example :
    serve_request 0
      (codes "arm")
      (register_endpoint (codes "grip") (adding 5) ((codes "move", adding 1) ∷ []))
      (codes "arm.grip")
      (call_of 3)
    ≡ some 8
unfolding program
serve_request-register_endpoint_example =
    serve_request-register_endpoint 0 (codes "arm") (codes "rip") b'g'
      ((codes "move", adding 1) ∷ []) (adding 5) (call_of 3) (ground arith) (inr refl) refl

-- A base uri that occurs in the key as well is taken out there, too, and the endpoint is not found.
lost_endpoint :
    (service_uri (codes "bot") (full_uri (codes "bot") (codes "robot")) ≡ codes "ro")
    × (serve_request 0
          (codes "bot")
          ((codes "robot", adding 1) ∷ [])
          (codes "bot.robot")
          (call_of 3)
        ≡ some 0)
unfolding program
lost_endpoint = (refl, refl)
