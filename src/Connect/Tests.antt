-- ===== src/Connect/Tests.antt =====
-- A connection, a listener and moved handlers over the list of open sockets.
use dcn1003_group.Base.{◌≡◌, refl, [], ◌∷◌, codes}
use dcn1003_group.Base.Int.{pos, negsuc}
use dcn1003_group.Error.{no_error}
use dcn1003_group.Examples.Winsock.{open_list_winsock, open_list-Sockets}
use dcn1003_group.Connect.{to_u16, connect_to}
use dcn1003_group.Connect.Owned.{Opened, connect_to-Opened}

port_wraps : to_u16 (negsuc 0) ≡ 65535
port_wraps = refl

connect_to-Opened_example :
    Opened open_list_winsock open_list-Sockets
      (4 ∷ [])
      (connect_to open_list_winsock (codes "127.0.0.1") (pos 9001) no_error (4 ∷ [])).0.socket
      (connect_to open_list_winsock (codes "127.0.0.1") (pos 9001) no_error (4 ∷ [])).2
connect_to-Opened_example =
    connect_to-Opened open_list_winsock open_list-Sockets (codes "127.0.0.1") (pos 9001) no_error
      (4 ∷ [])
