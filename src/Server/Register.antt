-- ===== src/Server/Register.antt =====
-- `register_all_server`.
use dcn1003_group.Base.{ℕ}
use dcn1003_group.CmdType.{
  cmd_login_req, cmd_logout_req, cmd_query_by_code_req, cmd_query_by_instructor_req,
  cmd_query_by_semester_req, cmd_view_all_req, cmd_view_all_page_req, cmd_add_req, cmd_update_req,
  cmd_delete_req, cmd_admin_list_req, cmd_admin_create_req, cmd_admin_update_req,
  cmd_admin_delete_req,
}
use dcn1003_group.Repository.{CourseRepository, AdministratorRepository}
use dcn1003_group.Dispatch.{Role, HandlerFn, Dispatcher, register_handler, set_entry}
use dcn1003_group.Server.Login.{handle_login, handle_logout}
use dcn1003_group.Server.Query.{
  handle_query_code, handle_query_instructor, handle_query_semester, handle_view_all,
  handle_view_all_page,
}
use dcn1003_group.Server.CourseAdmin.{handle_add, handle_update, handle_delete}
use dcn1003_group.Server.AdminAccounts.{
  handle_admin_list, handle_admin_create, handle_admin_update, handle_admin_delete,
}

module _ (c : CourseRepository) (a : AdministratorRepository) where
  -- A registration whose result is dropped, before what follows it.
  abbrev registered :
      ℕ → Role → HandlerFn c a → (Dispatcher c a → Dispatcher c a) → Dispatcher c a → Dispatcher c a
  registered cmd required fn rest table = rest (register_handler c a cmd required fn table).1

  unfoldable pub register_all_server : Dispatcher c a → Dispatcher c a
  unfolding register_handler set_entry
  register_all_server = registered cmd_login_req Role.student (handle_login c a) (
      registered cmd_logout_req Role.student (handle_logout c a) (
        registered cmd_query_by_code_req Role.student (handle_query_code c a) (
          registered cmd_query_by_instructor_req Role.student (handle_query_instructor c a) (
            registered cmd_query_by_semester_req Role.student (handle_query_semester c a) (
              registered cmd_view_all_req Role.student (handle_view_all c a) (
                registered cmd_view_all_page_req Role.student (handle_view_all_page c a) (
                  registered cmd_add_req Role.admin (handle_add c a) (
                    registered cmd_update_req Role.admin (handle_update c a) (
                      registered cmd_delete_req Role.admin (handle_delete c a) (
                        registered cmd_admin_list_req Role.admin (handle_admin_list c a) (
                          registered cmd_admin_create_req Role.admin (handle_admin_create c a) (
                            registered cmd_admin_update_req Role.admin (handle_admin_update c a) (
                              registered cmd_admin_delete_req Role.admin (handle_admin_delete c a)
                                (λ table. table))))))))))))))
