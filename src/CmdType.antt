-- ===== src/CmdType.antt =====
-- driver/include/cmd_type.h: the command codes and the two direction tests.
use Prim.Native.Nat.{bit_and, bit_or}
use dcn1003_group.Base.{ℕ, Bool, not, ◌==◌}

abbrev pub c2s : ℕ
c2s = 0x00000000

abbrev pub s2c : ℕ
s2c = 0xF0000000

abbrev pub cmd_login_req : ℕ
cmd_login_req = bit_or c2s 0x0001

abbrev pub cmd_login_resp : ℕ
cmd_login_resp = bit_or s2c 0x0002

abbrev pub cmd_logout_req : ℕ
cmd_logout_req = bit_or c2s 0x0003

abbrev pub cmd_query_by_code_req : ℕ
cmd_query_by_code_req = bit_or c2s 0x0101

abbrev pub cmd_query_by_instructor_req : ℕ
cmd_query_by_instructor_req = bit_or c2s 0x0102

abbrev pub cmd_query_by_semester_req : ℕ
cmd_query_by_semester_req = bit_or c2s 0x0103

abbrev pub cmd_view_all_req : ℕ
cmd_view_all_req = bit_or c2s 0x0104

abbrev pub cmd_view_all_page_req : ℕ
cmd_view_all_page_req = bit_or c2s 0x0105

abbrev pub cmd_query_resp : ℕ
cmd_query_resp = bit_or s2c 0x0180

abbrev pub cmd_add_req : ℕ
cmd_add_req = bit_or c2s 0x0201

abbrev pub cmd_update_req : ℕ
cmd_update_req = bit_or c2s 0x0202

abbrev pub cmd_delete_req : ℕ
cmd_delete_req = bit_or c2s 0x0203

abbrev pub cmd_admin_resp : ℕ
cmd_admin_resp = bit_or s2c 0x0280

abbrev pub cmd_admin_list_req : ℕ
cmd_admin_list_req = bit_or c2s 0x0210

abbrev pub cmd_admin_create_req : ℕ
cmd_admin_create_req = bit_or c2s 0x0211

abbrev pub cmd_admin_update_req : ℕ
cmd_admin_update_req = bit_or c2s 0x0212

abbrev pub cmd_admin_delete_req : ℕ
cmd_admin_delete_req = bit_or c2s 0x0213

abbrev pub cmd_admin_list_resp : ℕ
cmd_admin_list_resp = bit_or s2c 0x0290

abbrev pub cmd_ok : ℕ
cmd_ok = bit_or s2c 0xFF00

abbrev pub cmd_error : ℕ
cmd_error = bit_or s2c 0xFFFF

abbrev pub cmd_permission_err : ℕ
cmd_permission_err = bit_or s2c 0xFFFE

abbrev pub cmd_server_error : ℕ
cmd_server_error = bit_or s2c 0xFFFD

unfoldable pub is_c2s : ℕ → Bool
is_c2s c = bit_and c 0x80000000 == 0

unfoldable pub is_s2c : ℕ → Bool
is_s2c c = not (bit_and c 0x80000000 == 0)
