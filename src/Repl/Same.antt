-- ===== src/Repl/Same.antt =====
-- The shell against the bridge: a command does to the connection what the bridge's verb does.
use dcn1003_group.Base.{
  ℕ, ◌≡◌, refl, Bool-cases, inl, inr, ap, ◌∙◌, false, Option, none, some, List, ◌++◌, All, ltb,
  Bytes, codes, bytes_eq, is_empty, length,
}
use dcn1003_group.Base.Int.{ℤ}
use dcn1003_group.Error.{ErrorInfo, no_error, is_success}
use dcn1003_group.Number.{atoi}
use dcn1003_group.Platform.{Platform}
use dcn1003_group.Protocol.{Process}
use dcn1003_group.Connect.{Winsock, Handler, connect_to}
use dcn1003_group.Client.{
  ClientResponse, new_response, Call, client_login, client_logout, client_query_code,
  client_query_instructor, client_query_semester, client_view_all, client_add, client_update,
  client_delete,
}
use dcn1003_group.Wire.Split.{separated}
use dcn1003_group.Tsv.{tab, tsv_split}
use dcn1003_group.Tsv.RoundTrip.{tsv_split-separated}
use dcn1003_group.Bridge.{
  Bridge, emit, finish, request, request_on, perform, reset, handle_connected, handle_disconnect,
  handle_connect, handle_login, handle_logout, handle_query_code, handle_query_instructor,
  handle_query_semester, handle_view_all, handle_add, handle_update, handle_delete,
}
use dcn1003_group.Repl.{print, served, repl_connected, repl_command, repl_split, repl_perform}
use dcn1003_group.Repl.Command.{
  Command, connect, disconnect, login, logout, query_code, query_instructor, query_semester,
  view_all, add, update, delete, arguments, shell_verb, bridge_verb, words_of, fields_of,
  shell_verb-IsWord, bridge_verb-IsCell,
}
use dcn1003_group.Repl.Words.{IsWord, AllWords-IsCell, repl_split-separated}

-- The same socket and the same process; what was printed is left out.
abbrev pub Same : {p : Platform} → Bridge p → Bridge p → Type 0
Same b b' = (b.sock ≡ b'.sock) × (b.process ≡ b'.process)

-- Both loops go on, in the same state.
abbrev pub SameStep : {p : Platform} → Option (Bridge p) → Option (Bridge p) → Type 0
SameStep (some b) (some b') = Same b b'
SameStep _ _ = ⊥

module _ {p : Platform} (w : Winsock p) where
  finish-Same :
      (answer : ErrorInfo × ClientResponse × Process p) (b : Bridge p) (out : Bytes)
      → Same (served w answer b) (finish w answer (record b { out = out }))
  unfolding served finish print emit reset
  finish-Same (err, r, h) b out = elim (Bool-cases (is_success err)) [
    | inl ok ↦ rw ok (refl, refl)
    | inr failed ↦ rw failed (refl, refl)
  ]

  connected-Same :
      (answer : Handler × ErrorInfo × p.Net) (b : Bridge p) (out : Bytes)
      → Same (repl_connected w answer b) (handle_connected w answer (record b { out = out }))
  unfolding print emit
  connected-Same (s, err, n) b out = elim (Bool-cases (is_success err)) [
    | inl ok ↦ rw ok (refl, refl)
    | inr failed ↦ rw failed (refl, refl)
  ]

module _ (p : Platform) (w : Winsock p) (overflow : Bytes → ℤ) where
  -- A command that needs a connection, with and without one.
  on_socket-Same :
      (o : Option ℕ) (count : ℕ) (usage : Bytes) (calls : (s : ℕ) → Call p s) (t f : List Bytes)
      (b : Bridge p) (out : Bytes)
      → ((s : ℕ)
          → repl_command p w overflow (some s) t b ≡ served w (calls s new_response b.process) b)
      → ltb (length f) count ≡ false
      → Same
          (repl_command p w overflow o t b)
          (request_on w o count usage calls f (record b { out = out }))
  unfolding repl_command print emit
  on_socket-Same none count usage calls t f b out same enough = (refl, refl)
  on_socket-Same (some s) count usage calls t f b out same enough =
      let g = finish-Same w (calls s new_response b.process) b out in
      rw enough (
        ap (λ (x : Bridge p). x.sock) (same s) ∙ g.0,
        ap (λ (x : Bridge p). x.process) (same s) ∙ g.1,
      )

  -- A command of the shell does to the connection and to the process what the bridge does for the same
  -- verb and arguments, whatever either has printed before.
  repl_perform-Same :
      (k : Command) (b : Bridge p) (out : Bytes)
      → SameStep
          (repl_perform p w overflow (words_of k) b)
          (perform p w overflow (fields_of k) (record b { out = out }))
  unfolding repl_perform perform repl_command codes bytes_eq is_empty request handle_connect
      handle_disconnect handle_login handle_logout handle_query_code handle_query_instructor
      handle_query_semester handle_view_all handle_add handle_update handle_delete print emit reset
  repl_perform-Same (connect host port) b out =
      connected-Same w (connect_to w host (atoi overflow port) no_error b.process.net) b out
  repl_perform-Same disconnect b out = (refl, refl)
  repl_perform-Same (login name password) b out =
      on_socket-Same b.sock 3 _ (λ s. client_login p s name password)
        (words_of (login name password)) (fields_of (login name password)) b out (λ s. refl) refl
  repl_perform-Same logout b out =
      on_socket-Same b.sock 0 _ (λ s. client_logout p s) (words_of logout) (fields_of logout) b out
        (λ s. refl) refl
  repl_perform-Same (query_code code) b out =
      on_socket-Same b.sock 2 _ (λ s. client_query_code p s code) (words_of (query_code code))
        (fields_of (query_code code)) b out (λ s. refl) refl
  repl_perform-Same (query_instructor name) b out =
      on_socket-Same b.sock 2 _ (λ s. client_query_instructor p s name)
        (words_of (query_instructor name)) (fields_of (query_instructor name)) b out (λ s. refl)
        refl
  repl_perform-Same (query_semester semester) b out =
      on_socket-Same b.sock 2 _ (λ s. client_query_semester p s semester)
        (words_of (query_semester semester)) (fields_of (query_semester semester)) b out (λ s. refl)
        refl
  repl_perform-Same view_all b out =
      on_socket-Same b.sock 0 _ (λ s. client_view_all p s) (words_of view_all) (fields_of view_all)
        b out (λ s. refl) refl
  repl_perform-Same (add c) b out =
      on_socket-Same b.sock 9 _ (λ s. client_add p s c) (words_of (add c)) (fields_of (add c)) b out
        (λ s. refl) refl
  repl_perform-Same (update c) b out =
      on_socket-Same b.sock 9 _ (λ s. client_update p s c) (words_of (update c))
        (fields_of (update c)) b out (λ s. refl) refl
  repl_perform-Same (delete code section) b out =
      on_socket-Same b.sock 3 _ (λ s. client_delete p s code section)
        (words_of (delete code section)) (fields_of (delete code section)) b out (λ s. refl) refl

  -- The line of a command, its verb and arguments separated by spaces, does in the shell to the
  -- connection and to the process what the line of the bridge with the same verb and arguments, separated
  -- by tabs, does there, whatever either has printed before, if each argument is a word: not empty and
  -- without white space.
  pub repl_line-Same :
      (k : Command) (b : Bridge p) (out : Bytes)
      → All IsWord (arguments k)
      → SameStep
          (repl_perform p w overflow (repl_split (shell_verb k ++ separated 32 (arguments k))) b)
          (perform p w overflow
            (tsv_split (bridge_verb k ++ separated tab (arguments k)))
            (record b { out = out }))
  repl_line-Same k b out h =
      rw
        (
          repl_split-separated (shell_verb k) (arguments k) (shell_verb-IsWord k) h,
          tsv_split-separated (bridge_verb k) (arguments k) (bridge_verb-IsCell k)
              (AllWords-IsCell (arguments k) h),
        )
        (repl_perform-Same k b out)
