-- ===== src/Rtos/Tests.antt =====
-- Requests of the RTOS client on concrete texts.
use parse_embedded_sdks.Base.{
  none, List, Option, some, ℤ, pos, negsuc, ℕ, ◌≤◌, ◌≡◌, refl, false, true, [], ◌∷◌, ◌++◌, Bytes,
  codes, length, length-replicate, replicate, arith,
}
use parse_embedded_sdks.Rtos.Request.{fault, Client, decimal, head_lines, build_request_headers}
use parse_embedded_sdks.Rtos.Request.Laws.{
  IsRequest, joined, request_text, build_request_headers-IsRequest, build_request_headers_fault,
}
use parse_embedded_sdks.Json.Processor.{simple_json_processor, copy_round}
use parse_embedded_sdks.Rtos.Response.{parse_get_error_code}
use parse_embedded_sdks.Rtos.Response.Laws.{response_text}
use parse_embedded_sdks.Rtos.Installation.{Device, World, parse_set_installation_id}
use parse_embedded_sdks.Rtos.Installation.Laws.{
  SetsId, parse_set_installation_id-installation_object_id,
}
use parse_embedded_sdks.Rtos.Session.{parse_set_session_token}
use parse_embedded_sdks.Rtos.Session.Laws.{parse_set_session_token-same_folded}
use parse_embedded_sdks.Rtos.Send.{
  Network, Call, ssl_connect, socket_write, socket_read, socket_close, sent, answered, send_request,
  parse_send_request_internal,
}
use parse_embedded_sdks.Rtos.Send.Laws.{
  is_closed, send_request-is_closed, parse_send_request_internal-response_text,
}

abbrev device : Client
device = record {
  os_version = codes "1";
  device_client_version = codes "r-1";
  application_id = codes "app";
  client_key = codes "key";
  installation_id = codes "id";
  session_token = [];
}

event-length :
    length (request_text device false true (codes "/1/events") (codes "POST") (codes "{}")) ≤ 1022
unfolding decimal
event-length = omega arith

build_request_headers-IsRequest_example :
    IsRequest
      (request_text device false true (codes "/1/events") (codes "POST") (codes "{}"))
      (build_request_headers device true (codes "/1/events") (codes "POST") (codes "{}"))
build_request_headers-IsRequest_example =
    build_request_headers-IsRequest device true (codes "/1/events") (codes "POST") (codes "{}")
      event-length

abbrev long : Bytes
long = replicate 1024 b'x'

head-length :
    length (
      joined (head_lines device false true true (codes "/1/events") (codes "POST") (b'{' ∷ long))
      ++ codes "\r\n")
    ≤ 1022
unfolding decimal
head-length = omega arith

build_request_headers_fault_example :
    build_request_headers device true (codes "/1/events") (codes "POST") (b'{' ∷ long) ≡ fault
build_request_headers_fault_example =
    build_request_headers_fault device true (codes "/1/events") (codes "POST") b'{' long refl
      head-length (omega (arith, length-replicate {A = ℕ} 1024 b'x'))

abbrev response : Bytes
response =
    response_text b'2' b'0' b'1' (codes " Created") (codes "Server: x" ∷ [])
      (codes "{\"objectId\":\"a\"}")

-- Sockets that send the request and get the response.
abbrev network : Network
network = record {
  connect_status = pos 3;
  write_status = pos 100;
  read_status = pos 60;
  received = response;
}

send_request-is_closed_example :
    (status : ℤ) × (buffer : Option Bytes) × (calls : List Call) × (send_request device
        (record network { write_status = negsuc 0 })
        true
        (codes "/1/events")
        (codes "POST")
        (codes "{}")
      ≡ sent status buffer (
          ssl_connect
          ∷ socket_write 3
              (request_text device false true (codes "/1/events") (codes "POST") (codes "{}"))
          ∷ calls))
    × (is_closed 3 calls ≡ false)
send_request-is_closed_example =
    send_request-is_closed device (record network { write_status = negsuc 0 }) true
      (codes "/1/events") (codes "POST") (codes "{}") 3 refl event-length

parse_send_request_internal-response_text_example :
    (behind : Bytes) × (parse_send_request_internal device network true
        (codes "/1/events")
        (codes "POST")
        (codes "{}")
      ≡ answered
          (ssl_connect
            ∷ socket_write 3
                (request_text device false true (codes "/1/events") (codes "POST") (codes "{}"))
            ∷ socket_read 3
            ∷ socket_close 3
            ∷ [])
          (record {
            error = pos 0;
            http_status = pos 201;
            body = some (codes "{\"objectId\":\"a\"}" ++ 0 ∷ behind);
          }))
parse_send_request_internal-response_text_example =
    parse_send_request_internal-response_text device network true (codes "/1/events") (codes "POST")
      (codes "{}") 3 100 60 b'2' b'0' b'1' (codes " Created") (codes "Server: x" ∷ [])
      (codes "{\"objectId\":\"a\"}") event-length refl refl refl refl (omega arith) (omega arith)
      (omega arith) (omega arith) (omega arith) (omega arith) (omega arith)

parse_get_error_code_test :
    parse_get_error_code (some (codes "{\"code\":101,\"error\":\"x\"}" ++ 0 ∷ [])) ≡ some (pos 101)
unfolding parse_get_error_code simple_json_processor copy_round
parse_get_error_code_test = refl

-- A server that cannot be reached.
abbrev offline : World
offline = record {
  answer = λ r. record { error = negsuc 0; http_status = negsuc 0; body = none };
  new_installation_id = codes "new";
}

abbrev installed : Device
installed = record {
  client = record device { session_token = codes "r:abc" };
  installation_object_id = codes "oid";
  requests = [];
  saves = 0;
}

parse_set_session_token-same_folded_example :
    (d' : Device) × (parse_set_session_token offline (codes "r:xyz") installed ≡ some d')
    × (d'.client.session_token ≡ codes "r:xyz")
    × (d'.saves ≡ 1)
parse_set_session_token-same_folded_example =
    parse_set_session_token-same_folded offline b'r' (codes ":xyz") installed (λ r. refl)

parse_set_installation_id-installation_object_id_example :
    SetsId offline installed
      (codes "id2")
      false
      (parse_set_installation_id offline (codes "ID2") installed)
parse_set_installation_id-installation_object_id_example =
    parse_set_installation_id-installation_object_id offline b'I' (codes "D2") installed
