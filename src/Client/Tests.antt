-- ===== src/Client/Tests.antt =====
-- A query from the client to the server and back through the loopback platform.
use dcn1003_group.Base.{◌≡◌, refl, [], ◌∷◌, arith, codes, bytes_eq, is_empty, replicate}
use dcn1003_group.CmdType.{is_s2c, cmd_query_by_code_req, cmd_query_resp}
use dcn1003_group.Error.{no_error}
use dcn1003_group.Number.{decimal}
use dcn1003_group.Wire.{Course, serialize_courses}
use dcn1003_group.Wire.RoundTrip.{IsPlainCourse}
use dcn1003_group.Dispatch.{
  Role, MsgBody, Context, find_entry, run_entry, guard_exceptions, dispatch,
}
use dcn1003_group.Examples.Loopback.{
  loopback, loopback_stream, loopback-IsOpen, loopback-Serializes, loopback-Ciphers, frame_of,
}
use dcn1003_group.Examples.Memory.{memory_courses, memory_admins}
use dcn1003_group.Socket.{socket_send, socket_recv, to_int}
use dcn1003_group.Crypto.{aes_encrypt, aes_decrypt, compute_hmac, iv_gen}
use dcn1003_group.Protocol.{
  Process, load_key, header_of, header_bytes, send_data, send_frame, send_body, package_send,
  package_send_fields, package_receive, receive_body, open_frame,
}
use dcn1003_group.Server.Query.{handle_query_code}
use dcn1003_group.Server.Register.{register_all_server}
use dcn1003_group.Server.Connection.{send_response_s}
use dcn1003_group.Client.{new_response, client_query_code}
use dcn1003_group.Client.Exchange.{client_query_code-exchange}

abbrev course : Course
course = record {
  code = b'c' ∷ [];
  title = b't' ∷ [];
  section = b's' ∷ [];
  instructor = b'i' ∷ [];
  day = b'd' ∷ [];
  duration = b'u' ∷ [];
  semester = b'f' ∷ [];
  classroom = b'r' ∷ [];
}

abbrev Ctx : Type 0
Ctx = Context memory_courses memory_admins

abbrev state : Ctx
state = record {
  session = record { role = Role.admin; name = codes "amy" };
  courses = course ∷ [];
  admins = [];
}

abbrev request : MsgBody
request = record {
  cmd_type = cmd_query_by_code_req;
  req_id = 5;
  timestamp = 100;
  payload = (b'c' ∷ []) ∷ [];
}

abbrev answer : MsgBody
answer = record {
  cmd_type = cmd_query_resp;
  req_id = 9;
  timestamp = 101;
  payload =
      (b'1' ∷ 30 ∷ b'c' ∷ 31 ∷ b't' ∷ 31 ∷ b's' ∷ 31 ∷ b'i' ∷ 31 ∷ b'd' ∷ 31 ∷ b'u' ∷ 31 ∷ b'f' ∷ 31
        ∷ b'r' ∷ [])
      ∷ [];
}

abbrev client : Process loopback
client = record {
  net = record { sent = []; coming = frame_of (loopback.serialize answer) };
  rng = 1;
  key = replicate 32 7;
  req_id = 5;
  now = 100;
}

abbrev server : Process loopback
server = record {
  net = record { sent = []; coming = frame_of (loopback.serialize request) };
  rng = 1;
  key = replicate 32 7;
  req_id = 9;
  now = 101;
}

course-IsPlainCourse : IsPlainCourse course
course-IsPlainCourse = record {
  code = ground arith;
  title = ground arith;
  section = ground arith;
  instructor = ground arith;
  day = ground arith;
  duration = ground arith;
  semester = ground arith;
  classroom = ground arith;
}

client_query_code-exchange_example :
    ((client_query_code loopback 3 (b'c' ∷ []) new_response client).0 ≡ no_error)
    × ((client_query_code loopback 3 (b'c' ∷ []) new_response client).1.courses ≡ course ∷ [])
unfolding package_send_fields send_body send_data send_frame header_bytes load_key socket_send
    to_int aes_encrypt compute_hmac iv_gen bytes_eq is_empty package_receive receive_body header_of
    open_frame socket_recv aes_decrypt send_response_s package_send is_s2c dispatch
    register_all_server find_entry run_entry guard_exceptions handle_query_code serialize_courses
    decimal
client_query_code-exchange_example =
    client_query_code-exchange loopback loopback-Serializes loopback-Ciphers 3 4 (loopback_stream 3)
      (loopback-IsOpen 3) (loopback_stream 4) (loopback-IsOpen 4) memory_courses memory_admins
      (b'c' ∷ []) new_response state client server (frame_of (loopback.serialize request)) []
      (frame_of (loopback.serialize answer)) [] refl (course-IsPlainCourse, tt) (omega arith)
      (omega arith) refl refl refl refl (omega arith) (omega arith) refl refl refl refl
