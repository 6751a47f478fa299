-- ===== src/Repl/Command.antt =====
-- The commands that the shell and the bridge have in common, and their lines.
use dcn1003_group.Base.{List, [], ◌∷◌, arith, Bytes, codes}
use dcn1003_group.Wire.{Course}
use dcn1003_group.Client.{course_fields}
use dcn1003_group.Tsv.RoundTrip.{IsCell}
use dcn1003_group.Repl.Words.{IsWord}

-- The commands that both have.
pub data Command : Type 0 where
  connect : Bytes → Bytes → Command
  disconnect : Command
  login : Bytes → Bytes → Command
  logout : Command
  query_code : Bytes → Command
  query_instructor : Bytes → Command
  query_semester : Bytes → Command
  view_all : Command
  add : Course → Command
  update : Course → Command
  delete : Bytes → Bytes → Command

abbrev pub arguments : Command → List Bytes
arguments (connect host port) = host ∷ port ∷ []
arguments disconnect = []
arguments (login name password) = name ∷ password ∷ []
arguments logout = []
arguments (query_code code) = code ∷ []
arguments (query_instructor name) = name ∷ []
arguments (query_semester semester) = semester ∷ []
arguments view_all = []
arguments (add c) = course_fields c
arguments (update c) = course_fields c
arguments (delete code section) = code ∷ section ∷ []

abbrev pub shell_verb : Command → Bytes
shell_verb (connect host port) = codes "connect"
shell_verb disconnect = codes "disconnect"
shell_verb (login name password) = codes "login"
shell_verb logout = codes "logout"
shell_verb (query_code code) = codes "query_code"
shell_verb (query_instructor name) = codes "query_instructor"
shell_verb (query_semester semester) = codes "query_semester"
shell_verb view_all = codes "view_all"
shell_verb (add c) = codes "add"
shell_verb (update c) = codes "update"
shell_verb (delete code section) = codes "delete"

abbrev pub bridge_verb : Command → Bytes
bridge_verb (connect host port) = codes "CONNECT"
bridge_verb disconnect = codes "DISCONNECT"
bridge_verb (login name password) = codes "LOGIN"
bridge_verb logout = codes "LOGOUT"
bridge_verb (query_code code) = codes "QUERY_CODE"
bridge_verb (query_instructor name) = codes "QUERY_INSTRUCTOR"
bridge_verb (query_semester semester) = codes "QUERY_SEMESTER"
bridge_verb view_all = codes "VIEW_ALL"
bridge_verb (add c) = codes "ADD"
bridge_verb (update c) = codes "UPDATE"
bridge_verb (delete code section) = codes "DELETE"

-- The words of a line of the shell.
abbrev pub words_of : Command → List Bytes
words_of k = shell_verb k ∷ arguments k

-- The fields of a line of the bridge.
abbrev pub fields_of : Command → List Bytes
fields_of k = bridge_verb k ∷ arguments k

pub shell_verb-IsWord : (k : Command) → IsWord (shell_verb k)
unfolding codes
shell_verb-IsWord (connect host port) = ground arith
shell_verb-IsWord disconnect = ground arith
shell_verb-IsWord (login name password) = ground arith
shell_verb-IsWord logout = ground arith
shell_verb-IsWord (query_code code) = ground arith
shell_verb-IsWord (query_instructor name) = ground arith
shell_verb-IsWord (query_semester semester) = ground arith
shell_verb-IsWord view_all = ground arith
shell_verb-IsWord (add c) = ground arith
shell_verb-IsWord (update c) = ground arith
shell_verb-IsWord (delete code section) = ground arith

pub bridge_verb-IsCell : (k : Command) → IsCell (bridge_verb k)
unfolding codes
bridge_verb-IsCell (connect host port) = ground arith
bridge_verb-IsCell disconnect = ground arith
bridge_verb-IsCell (login name password) = ground arith
bridge_verb-IsCell logout = ground arith
bridge_verb-IsCell (query_code code) = ground arith
bridge_verb-IsCell (query_instructor name) = ground arith
bridge_verb-IsCell (query_semester semester) = ground arith
bridge_verb-IsCell view_all = ground arith
bridge_verb-IsCell (add c) = ground arith
bridge_verb-IsCell (update c) = ground arith
bridge_verb-IsCell (delete code section) = ground arith
