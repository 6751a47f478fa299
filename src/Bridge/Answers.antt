-- ===== src/Bridge/Answers.antt =====
-- What the bridge does with a request: nothing before a connection, and the fields in both directions.
use Prim.Native.String.{String}
use dcn1003_group.Base.{
  both_branches, ℕ, ◌≡◌, refl, ap, ◌∙◌, true, false, Option, none, some, List, [], ◌∷◌, ◌++◌, arith,
  All, Lacks, ltb, if◌then◌else◌, Bytes, codes, bytes_eq, is_empty, length,
}
use dcn1003_group.Base.Int.{ℤ}
use dcn1003_group.CmdType.{cmd_query_resp}
use dcn1003_group.Error.{ErrorInfo, is_success}
use dcn1003_group.Number.{decimal}
use dcn1003_group.Wire.{Course}
use dcn1003_group.Wire.Split.{separated}
use dcn1003_group.Platform.{Platform}
use dcn1003_group.Protocol.{Process}
use dcn1003_group.Connect.{Winsock}
use dcn1003_group.Tsv.{tab, tsv_split}
use dcn1003_group.Tsv.RoundTrip.{
  IsCell, AllCells, cells, all_cells, tsv_split-separated, tsv_split-join_courses_tsv,
  join_courses_tsv-Lacks,
}
use dcn1003_group.Client.{ClientResponse, Call, new_response, client_add}
use dcn1003_group.Bridge.{
  Bridge, line, cell, emit, response_line, reset, finish, request_on, request, handle_disconnect,
  handle_login, handle_logout, handle_query_code, handle_query_instructor, handle_query_semester,
  handle_view_all, handle_view_all_page, handle_add, handle_update, handle_delete,
  handle_admin_list, handle_admin_create, handle_admin_update, handle_admin_delete, perform,
  bridge_loop, run_bridge,
}

-- If the loop goes on, the session is not connected and the process is as before.
abbrev Untouched : {p : Platform} → Bridge p → Option (Bridge p) → Type 0
Untouched b none = Unit
Untouched b (some b') = (b'.process ≡ b.process) × (b'.sock ≡ none)

module _ {p : Platform} (w : Winsock p) where
  request_on-Untouched :
      (o : Option ℕ) (count : ℕ) (usage : Bytes) (call : (s : ℕ) → Call p s) (f : List Bytes)
      (b : Bridge p)
      → o ≡ none
      → b.sock ≡ none
      → Untouched b (some (request_on w o count usage call f b))
  unfolding emit
  request_on-Untouched none count usage call f b e closed = (refl, closed)
  request_on-Untouched (some s) count usage call f b e closed = cc

  request-Untouched :
      (count : ℕ) (usage : Bytes) (call : (s : ℕ) → Call p s) (f : List Bytes) (b : Bridge p)
      → b.sock ≡ none
      → Untouched b (some (request w count usage call f b))
  unfolding request
  request-Untouched count usage call f b closed =
      request_on-Untouched b.sock count usage call f b closed closed

  handle_disconnect-Untouched :
      (b : Bridge p) → b.sock ≡ none → Untouched b (some (handle_disconnect w b))
  unfolding handle_disconnect reset emit
  handle_disconnect-Untouched b closed = rw closed (refl, refl)

  -- A response with courses to any request is printed as one text and a line's end; the text has no line's
  -- end in it, and is read back as "DATA", the number of the courses, and their fields in order, if no
  -- field holds a tab, a carriage return or a line's end. What `print_log` writes is left out.
  pub finish-courses :
      (err : ErrorInfo) (r : ClientResponse) (h : Process p) (b : Bridge p)
      → is_success err ≡ true
      → r.cmd_type ≡ cmd_query_resp
      → AllCells r.courses
      → All (Lacks 10) (all_cells r.courses)
      → (text : Bytes) × ((finish w (err, r, h) b).out ≡ b.out ++ line text)
        × Lacks 10 text
        × (tsv_split text ≡ codes "DATA" ∷ decimal (length r.courses) ∷ all_cells r.courses)
  unfolding finish emit response_line codes
  finish-courses err r h b ok resp plain ends =
      rw (ok, resp)
        (
          _,
          refl,
          join_courses_tsv-Lacks (codes "DATA") r.courses (ground arith) ends,
          tsv_split-join_courses_tsv (codes "DATA") r.courses (ground arith) plain,
        )

add-IsCell : IsCell (codes "ADD")
unfolding codes
add-IsCell = ground arith

-- The line does not ask for a connection.
abbrev NoConnect : Bytes → Type 0
NoConnect line = bytes_eq (cell (tsv_split line) 0) (codes "CONNECT") ≡ false

module _ (p : Platform) (w : Winsock p) (overflow : Bytes → ℤ) where
  perform-Untouched :
      (f : List Bytes) (b : Bridge p)
      → bytes_eq (cell f 0) (codes "CONNECT") ≡ false
      → b.sock ≡ none
      → Untouched b (perform p w overflow f b)
  unfolding perform emit handle_login handle_logout handle_query_code handle_query_instructor
      handle_query_semester handle_view_all handle_view_all_page handle_add handle_update
      handle_delete handle_admin_list handle_admin_create handle_admin_update handle_admin_delete
  perform-Untouched f b other closed =
      both_branches (Untouched b) (is_empty (cell f 0)) (refl, closed)
        (rw other (
          branch "DISCONNECT" _ _ (handle_disconnect-Untouched w b closed) (
            branch "LOGIN" _ _ (request-Untouched w _ _ _ f b closed) (
              branch "LOGOUT" _ _ (request-Untouched w _ _ _ f b closed) (
                branch "QUERY_CODE" _ _ (request-Untouched w _ _ _ f b closed) (
                  branch "QUERY_INSTRUCTOR" _ _ (request-Untouched w _ _ _ f b closed) (
                    branch "QUERY_SEMESTER" _ _ (request-Untouched w _ _ _ f b closed) (
                      branch "VIEW_ALL" _ _ (request-Untouched w _ _ _ f b closed) (
                        branch "VIEW_ALL_PAGE" _ _ (request-Untouched w _ _ _ f b closed) (
                          branch "ADD" _ _ (request-Untouched w _ _ _ f b closed) (
                            branch "UPDATE" _ _ (request-Untouched w _ _ _ f b closed) (
                              branch "DELETE" _ _ (request-Untouched w _ _ _ f b closed) (
                                branch "ADMIN_LIST" _ _ (request-Untouched w _ _ _ f b closed) (
                                  branch "ADMIN_CREATE" _ _ (request-Untouched w _ _ _ f b closed) (
                                    branch "ADMIN_UPDATE" _ _ (request-Untouched w _ _ _ f b closed)
                                      (branch "ADMIN_DELETE" _ _
                                        (request-Untouched w _ _ _ f b closed)
                                        (branch "QUIT" _ _ tt (refl, closed))))))))))))))))))
    where
      branch :
          (verb : String) (x y : Option (Bridge p))
          → Untouched b x
          → Untouched b y
          → Untouched b (if bytes_eq (cell f 0) (codes verb) then x else y)
      branch verb x y px py = both_branches (Untouched b) (bytes_eq (cell f 0) (codes verb)) px py

  bridge_loop-Untouched :
      (lines : List Bytes) (b : Bridge p)
      → All NoConnect lines
      → b.sock ≡ none
      → Untouched b (some (bridge_loop p w overflow lines b))
  unfolding bridge_loop
  bridge_loop-Untouched [] b others closed = (refl, closed)
  bridge_loop-Untouched (line ∷ lines) b (other, others) closed =
      after (perform p w overflow (tsv_split line) b)
        (λ b' c. bridge_loop-Untouched lines b' others c)
        (perform-Untouched (tsv_split line) b other closed)
    where
      after :
          (o : Option (Bridge p))
          → ((b' : Bridge p)
              → b'.sock ≡ none
              → Untouched b' (some (bridge_loop p w overflow lines b')))
          → Untouched b o
          → Untouched b (some (elim o [ none ↦ b | some b' ↦ bridge_loop p w overflow lines b' ]))
      after none ih h = (refl, closed)
      after (some b') ih (same, c) = let (same', c') = ih b' c in (same' ∙ same, c')

  -- As long as no line asks for a connection, the bridge leaves the process as it was: its sockets, its
  -- random generator and its counter.
  pub run_bridge_untouched :
      (lines : List Bytes) (h : Process p)
      → All NoConnect lines
      → (run_bridge p w overflow lines h).process ≡ h
  unfolding run_bridge reset emit
  run_bridge_untouched lines h others =
      let start : Bridge p = record { sock = none; process = h; out = line (codes "READY") } in
      let (same, closed) = bridge_loop-Untouched lines start others refl in rw closed same

  request_connected :
      (count : ℕ) (usage : Bytes) (call : (s : ℕ) → Call p s) (f : List Bytes) (b : Bridge p)
      (s : ℕ)
      → b.sock ≡ some s
      → ltb (length f) count ≡ false
      → request w count usage call f b ≡ finish w (call s new_response b.process) b
  unfolding request
  request_connected count usage call f b s connected enough =
      ap (λ o. request_on w o count usage call f b) connected ∙ rw enough refl

  perform-add :
      (c : Course) (b : Bridge p)
      → perform p w overflow (codes "ADD" ∷ cells c) b
        ≡ some (handle_add p w overflow (codes "ADD" ∷ cells c) b)
  unfolding perform codes bytes_eq is_empty
  perform-add c b = refl

  -- A line of "ADD" and the eight fields of a course, none of which holds a tab or a carriage return, is
  -- performed on a connected session as `client_add` of exactly this course.
  pub perform-add_line :
      (c : Course) (b : Bridge p) (s : ℕ)
      → AllCells (c ∷ [])
      → b.sock ≡ some s
      → perform p w overflow (tsv_split (codes "ADD" ++ separated tab (cells c))) b
        ≡ some (finish w (client_add p s c new_response b.process) b)
  unfolding handle_add
  perform-add_line c b s plain connected =
      ap (λ f. perform p w overflow f b)
        (tsv_split-separated (codes "ADD") (cells c) add-IsCell plain)
      ∙ perform-add c b
      ∙ ap some (
          request_connected 9 (codes "ADD requires 8 fields") (λ s'. client_add p s' c)
            (codes "ADD" ∷ cells c) b s connected refl)
