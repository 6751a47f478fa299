-- ===== src/ClientMain/Tests.antt =====
-- The client's bridge over the list of open sockets: it connects twice, and its requests fail.
use dcn1003_group.Base.{ℕ, ◌≡◌, refl, List, [], ◌∷◌, Bytes, codes, bytes_eq, is_empty}
use dcn1003_group.Base.Int.{ℤ, pos}
use dcn1003_group.Crypto.{read_app_key, aes_encrypt, compute_hmac, iv_gen}
use dcn1003_group.WinsockGuard
use dcn1003_group.WinsockGuard.{is_ok}
use dcn1003_group.Bridge.{
  run_bridge, bridge_loop, perform, handle_connect, handle_view_all, request, finish, reset, emit,
}
use dcn1003_group.Connect.{connect_to, construct}
use dcn1003_group.Client.{send_and_recv}
use dcn1003_group.Socket.{socket_send, socket_recv}
use dcn1003_group.Tsv.{tsv_split}
use dcn1003_group.Number.{atoi}
use dcn1003_group.Protocol.{
  Process, package_send_fields, send_body, send_data, load_key, send_frame, package_receive,
  header_bytes,
}
use dcn1003_group.Socket.Kept.{Transfers}
use dcn1003_group.ClientMain.{client_main}
use dcn1003_group.ClientMain.Closed.{Closed, client_main-Closed}
use dcn1003_group.Examples.Startup.{counting_startup, counting_startup-Uses}
use dcn1003_group.Examples.Winsock.{open_list, open_list_winsock, open_list-Sockets, holds, without}

-- The socket 5 is another's.
abbrev process : Process open_list
process = record { net = 5 ∷ []; rng = 1; key = []; req_id = 0; now = 100 }

abbrev too_large : Bytes → ℤ
too_large s = pos 0

abbrev lines : List Bytes
lines = codes "CONNECT\t127.0.0.1\t9001" ∷ codes "CONNECT\t127.0.0.1\t9001" ∷ codes "VIEW_ALL" ∷ []

keeps : (x : ℕ) → Transfers open_list (λ n. open_list-Sockets.is_open n x)
keeps x = record { sends = λ s d len n. refl; recvs = λ s len n. refl }

client_main-Closed_example : Closed open_list-Sockets keeps counting_startup-Uses (5 ∷ []) 3 (
    client_main open_list open_list_winsock counting_startup too_large
      (codes "--bridge" ∷ [])
      lines
      process
      3)
client_main-Closed_example =
    client_main-Closed open_list-Sockets keeps counting_startup-Uses too_large
      (codes "--bridge" ∷ []) lines process 3

-- The second connection replaces the first, and the request that fails gives it up.
bridge_closes :
    (client_main open_list open_list_winsock counting_startup too_large
      (codes "--bridge" ∷ [])
      lines
      process
      3).process.net
    ≡ 5 ∷ []
unfolding client_main is_ok WinsockGuard.construct WinsockGuard.destroy read_app_key run_bridge
    bridge_loop perform handle_connect handle_view_all request finish reset emit connect_to
    construct send_and_recv package_send_fields send_body send_data load_key send_frame socket_send
    package_receive socket_recv aes_encrypt compute_hmac iv_gen atoi tsv_split codes bytes_eq
    is_empty header_bytes holds without
bridge_closes = refl
