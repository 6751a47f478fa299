-- ===== src/Protocol/Tests.antt =====
-- A message through the loopback platform, and the theorems of the sockets and the protocol there.
use dcn1003_group.Base.{
  ◌≡◌, refl, some, List, [], ◌∷◌, ◌++◌, arith, Bytes, length, replicate, bytes_eq, is_empty,
}
use dcn1003_group.Error.{ErrorCode, no_error}
use dcn1003_group.Dispatch.{MsgBody}
use dcn1003_group.Examples.Loopback.{
  loopback, loopback_stream, loopback-IsOpen, loopback-Serializes, loopback-Ciphers,
}
use dcn1003_group.Socket.{socket_send, socket_recv, to_int}
use dcn1003_group.Socket.Send.{IsEnd, socket_send_ends, socket_send_queues}
use dcn1003_group.Socket.Receive.{socket_recv_takes, socket_recv_succeeds}
use dcn1003_group.Crypto.{aes_encrypt, aes_decrypt, compute_hmac, iv_gen}
use dcn1003_group.Protocol.{
  Process, load_key, header_of, header_bytes, send_data, send_frame, send_body, package_send_fields,
  package_receive, receive_body, open_frame,
}
use dcn1003_group.Protocol.Receive.{Accepted, package_receive-Accepted}
use dcn1003_group.Protocol.RoundTrip.{package_receive-package_send}

abbrev sender : Process loopback
sender = record {
  net = record { sent = []; coming = [] };
  rng = 1;
  key = replicate 32 7;
  req_id = 5;
  now = 100;
}

abbrev fields : List Bytes
fields = (b'a' ∷ []) ∷ (b'b' ∷ b'c' ∷ []) ∷ []

-- version 1, body of 8 bytes, IV and MAC, then the body
abbrev frame : Bytes
frame =
    1
    ∷ 0
    ∷ 0
    ∷ 0
    ∷ 8
    ∷ 0
    ∷ 0
    ∷ 0
    ∷ (replicate 16 1 ++ (replicate 32 8 ++ (1 ∷ 5 ∷ 100 ∷ 98 ∷ 0 ∷ 99 ∷ 100 ∷ 0 ∷ [])))

abbrev receiver : Process loopback
receiver = record sender { net = record { sent = []; coming = frame ++ 42 ∷ [] } }

frame_sent :
    package_send_fields loopback 3 fields 1 sender
    ≡ (no_error, record sender { net = record { sent = frame; coming = [] }; rng = 2; req_id = 6 })
unfolding package_send_fields send_body send_data send_frame header_bytes load_key socket_send
    to_int aes_encrypt compute_hmac iv_gen bytes_eq is_empty
frame_sent = refl

socket_send_ends_example : IsEnd (socket_send loopback 3 frame sender.net).0
socket_send_ends_example = socket_send_ends loopback 3 frame sender.net

socket_send_queues_example : (socket_send loopback 3 (7 ∷ 8 ∷ []) sender.net).1.sent ≡ 7 ∷ 8 ∷ []
unfolding socket_send to_int
socket_send_queues_example =
    socket_send_queues loopback 3 (loopback_stream 3) (7 ∷ 8 ∷ []) sender.net (omega arith) refl

socket_recv_takes_example :
    (frame ++ 42 ∷ []
      ≡ (socket_recv loopback 3 4 receiver.net).1
        ++ (socket_recv loopback 3 4 receiver.net).2.coming)
    × (length (socket_recv loopback 3 4 receiver.net).1 ≡ 4)
unfolding socket_recv to_int
socket_recv_takes_example =
    socket_recv_takes loopback 3 (loopback_stream 3) 4 receiver.net (omega arith) refl

socket_recv_succeeds_example : (socket_recv loopback 3 4 receiver.net).0.e ≡ ErrorCode.success
socket_recv_succeeds_example =
    socket_recv_succeeds loopback 3 (loopback_stream 3) (loopback-IsOpen 3) 4 receiver.net
      (omega arith) (omega arith)

abbrev message : MsgBody
message = record { cmd_type = 1; req_id = 5; timestamp = 100; payload = fields }

package_receive-package_send_example :
    ((package_receive loopback 4 receiver).0 ≡ no_error)
    × ((package_receive loopback 4 receiver).1 ≡ some message)
    × ((package_receive loopback 4 receiver).2.net.coming ≡ 42 ∷ [])
unfolding package_send_fields send_body send_data send_frame header_bytes load_key socket_send
    to_int aes_encrypt compute_hmac iv_gen bytes_eq is_empty
package_receive-package_send_example =
    package_receive-package_send loopback loopback-Serializes loopback-Ciphers 3 4
      (loopback_stream 3) (loopback_stream 4) (loopback-IsOpen 4) fields 1 sender receiver frame
      (42 ∷ []) (omega arith) (omega arith) (omega arith) refl refl refl refl

package_receive-Accepted_example : Accepted loopback 4 receiver message
unfolding package_receive receive_body header_of open_frame socket_recv to_int aes_decrypt
    compute_hmac bytes_eq is_empty
package_receive-Accepted_example = package_receive-Accepted loopback 4 receiver message refl
