-- ===== src/Server/Connection/Tests.antt =====
-- A connection on which a login arrives, through the loopback platform, and the theorems there.
use dcn1003_group.Base.{
  ◌≡◌, refl, some, List, [], ◌∷◌, Bytes, codes, replicate, bytes_eq, is_empty, ◌⊎◌,
}
use dcn1003_group.CmdType.{is_s2c, cmd_login_req, cmd_login_resp}
use dcn1003_group.Error.{ErrorCode}
use dcn1003_group.Dispatch.{Role, MsgBody, find_entry, run_entry, guard_exceptions, dispatch}
use dcn1003_group.Repository.{Administrator}
use dcn1003_group.Examples.Loopback.{loopback, loopback_stream, send_byte_coming, frame_of}
use dcn1003_group.Examples.Memory.{memory_courses, memory_admins}
use dcn1003_group.Socket.{socket_send, socket_recv, to_int}
use dcn1003_group.Crypto.{aes_encrypt, aes_decrypt, compute_hmac, iv_gen}
use dcn1003_group.Protocol.{
  Process, load_key, header_of, header_bytes, send_data, send_frame, send_body, package_send,
  package_receive, receive_body, open_frame,
}
use dcn1003_group.Server.Login.{handle_login}
use dcn1003_group.Server.Register.{register_all_server}
use dcn1003_group.Server.Session.{LoggedIn}
use dcn1003_group.Server.Connection.{
  Thread, opened, send_response_s, client_loop, handle_client, answer, after_receive,
  after_response,
}
use dcn1003_group.Server.Connection.Trace.{Run, handle_client-LoggedIn, send_response_s-dispatch}
use dcn1003_group.Server.Connection.Ends.{handle_client_ends}

abbrev login_frame : Bytes
login_frame = frame_of (cmd_login_req ∷ 9 ∷ 90 ∷ 98 ∷ 110 ∷ 122 ∷ 0 ∷ 113 ∷ 120 ∷ 0 ∷ [])

abbrev peer : Process loopback
peer = record {
  net = record { sent = []; coming = login_frame };
  rng = 1;
  key = replicate 32 7;
  req_id = 5;
  now = 100;
}

abbrev admins : List Administrator
admins = record { username = codes "amy"; password = codes "pw" } ∷ []

abbrev login : MsgBody
login = record {
  cmd_type = cmd_login_req;
  req_id = 9;
  timestamp = 90;
  payload = codes "amy" ∷ codes "pw" ∷ [];
}

abbrev ended : Thread loopback memory_courses memory_admins
ended = (
  record {
    session = record { role = Role.admin; name = codes "amy" };
    courses = [];
    admins = admins;
  },
  record peer {
    net = record { sent = frame_of (cmd_login_resp ∷ 5 ∷ 100 ∷ 80 ∷ 76 ∷ 0 ∷ []); coming = [] };
    rng = 2;
    req_id = 6;
  },
)

login_served :
    handle_client loopback 4 memory_courses memory_admins
      (register_all_server memory_courses memory_admins [])
      2
      []
      admins
      peer
    ≡ some ended
unfolding handle_client client_loop answer after_receive after_response send_response_s package_send
    package_receive receive_body send_body send_data send_frame header_of header_bytes open_frame
    load_key socket_send socket_recv to_int aes_encrypt aes_decrypt compute_hmac iv_gen dispatch
    register_all_server find_entry run_entry guard_exceptions handle_login codes bytes_eq is_empty
    is_s2c
login_served = refl

handle_client-LoggedIn_example :
    (bodies : List MsgBody) × Run loopback 4 memory_courses memory_admins
      (opened memory_courses memory_admins [] admins, peer)
      bodies
      ended
    × LoggedIn memory_courses memory_admins bodies (opened memory_courses memory_admins [] admins)
handle_client-LoggedIn_example =
    handle_client-LoggedIn loopback 4 memory_courses memory_admins 2 [] admins peer ended
      login_served refl

handle_client_ends_example :
    (t' : Thread loopback memory_courses memory_admins) × (handle_client loopback 4 memory_courses
        memory_admins
        (register_all_server memory_courses memory_admins [])
        67
        []
        admins
        peer
      ≡ some t')
handle_client_ends_example =
    handle_client_ends loopback 4 (loopback_stream 4) (λ d len n. send_byte_coming d len n)
      memory_courses memory_admins (register_all_server memory_courses memory_admins []) [] admins
      peer

send_response_s-dispatch_example :
    ((send_response_s loopback 4
        (dispatch memory_courses memory_admins
          (register_all_server memory_courses memory_admins [])
          login
          (opened memory_courses memory_admins [] admins)).0
        peer).0.e
      ≡ ErrorCode.success)
    ⊎ ((send_response_s loopback 4
          (dispatch memory_courses memory_admins
            (register_all_server memory_courses memory_admins [])
            login
            (opened memory_courses memory_admins [] admins)).0
          peer).0.e
        ≡ ErrorCode.send_err)
send_response_s-dispatch_example =
    send_response_s-dispatch loopback 4 memory_courses memory_admins login
      (opened memory_courses memory_admins [] admins) peer
