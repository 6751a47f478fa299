-- ===== src/Bridge/Tests.antt =====
-- The bridge over the loopback platform.
use dcn1003_group.Base.{
  ◌≡◌, refl, some, List, [], ◌∷◌, ◌++◌, arith, Bytes, Lacks, codes, bytes_eq, is_empty, replicate,
}
use dcn1003_group.Base.Int.{ℤ, pos}
use dcn1003_group.CmdType.{cmd_query_resp}
use dcn1003_group.Error.{no_error}
use dcn1003_group.Number.{decimal}
use dcn1003_group.Wire.{Course}
use dcn1003_group.Wire.Split.{separated}
use dcn1003_group.Protocol.{Process}
use dcn1003_group.Examples.Loopback.{loopback}
use dcn1003_group.Examples.Winsock.{loopback_winsock}
use dcn1003_group.Tsv.{tab, tsv_split}
use dcn1003_group.Tsv.RoundTrip.{cells, all_cells, AllCells}
use dcn1003_group.Client.{ClientResponse, new_response, client_add}
use dcn1003_group.Bridge.{
  Bridge, line, emit, reset, finish, request, handle_logout, perform, bridge_loop, run_bridge,
}
use dcn1003_group.Bridge.Answers.{perform-add_line, finish-courses}

abbrev process : Process loopback
process = record {
  net = record { sent = []; coming = [] };
  rng = 1;
  key = replicate 32 7;
  req_id = 5;
  now = 100;
}

-- what `atoi` gives for a number that is too large
abbrev too_large : Bytes → ℤ
too_large s = pos 0

abbrev lines : List Bytes
lines = codes "LOGOUT" ∷ [] ∷ codes "HELLO" ∷ codes "QUIT" ∷ codes "LOGOUT" ∷ []

abbrev printed : Bytes
printed =
    line (codes "READY")
    ++ line (codes "ERR" ++ 9 ∷ codes "not connected")
    ++ line (codes "ERR" ++ 9 ∷ codes "unknown verb: HELLO")

bridge_prints : (run_bridge loopback loopback_winsock too_large lines process).out ≡ printed
unfolding run_bridge bridge_loop perform reset emit tsv_split codes bytes_eq is_empty handle_logout
    request
bridge_prints = refl

abbrev course : Course
course = record {
  code = b'c' ∷ [];
  title = b't' ∷ [];
  section = b's' ∷ [];
  instructor = b'i' ∷ [];
  day = b'd' ∷ [];
  duration = b'u' ∷ [];
  semester = b'f' ∷ [];
  classroom = b'r' ∷ [];
}

course-AllCells : AllCells (course ∷ [])
course-AllCells = ground arith

abbrev connected : Bridge loopback
connected = record { sock = some 3; process = process; out = [] }

perform-add_line_example :
    perform loopback loopback_winsock too_large
      (tsv_split (codes "ADD" ++ separated tab (cells course)))
      connected
    ≡ some (finish loopback_winsock (client_add loopback 3 course new_response process) connected)
perform-add_line_example =
    perform-add_line loopback loopback_winsock too_large course connected 3 course-AllCells refl

abbrev response : ClientResponse
response = record new_response { cmd_type = cmd_query_resp; courses = course ∷ [] }

finish-courses_example :
    (text : Bytes) × ((finish loopback_winsock (no_error, response, process) connected).out
      ≡ line text)
    × Lacks 10 text
    × (tsv_split text ≡ codes "DATA" ∷ decimal 1 ∷ all_cells (course ∷ []))
finish-courses_example =
    finish-courses loopback_winsock no_error response process connected refl refl course-AllCells
      (ground arith)
