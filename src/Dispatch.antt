-- ===== src/Dispatch.antt =====
-- driver/include/CmdHandler.h and the registration and dispatch of driver/src/CmdHandler.cpp. The
-- context of a request is the message, which a handler only reads, and what it may change: the
-- session and the two repositories.
pub mod Table
use dcn1003_group.Base.{
  ℕ, Bool, Option, none, some, List, [], ◌∷◌, ltb, ◌==◌, if◌then◌else◌, Bytes, codes, length,
  get_or,
}
use dcn1003_group.CmdType.{cmd_error, cmd_permission_err, cmd_server_error}
use dcn1003_group.Error.{ErrorInfo, no_error}
use dcn1003_group.Repository.{CourseRepository, AdministratorRepository}

pub data Role : Type 0 where
  student admin : Role

-- The values of the enumeration, by which roles are compared.
abbrev pub role_code : Role → ℕ
role_code Role.student = 0
role_code Role.admin = 1

pub record Session : Type 0 where
  pub role : Role
  pub name : Bytes

-- `Session_t session;`
abbrev pub new_session : Session
new_session = record { role = Role.student; name = [] }

-- `Payload` and `MsgBody` of message.proto; the payload is its repeated field `json`.
abbrev pub Payload : Type 0
Payload = List Bytes

pub record MsgBody : Type 0 where
  pub cmd_type : ℕ
  pub req_id : ℕ
  pub timestamp : ℕ
  pub payload : Payload

-- `p.json(i)`, which the code calls only below `p.json_size()`.
abbrev pub json : Payload → ℕ → Bytes
json p i = get_or p i []

pub record Response : Type 0 where
  pub cmd_type : ℕ
  pub payload : Bytes

abbrev pub respond : ℕ → Bytes → Response
respond cmd text = record { cmd_type = cmd; payload = text }

-- How a handler ends: with a response, or with an exception that carries its `what()`.
pub data Outcome : Type 0 where
  returned : Response → Outcome
  thrown : Bytes → Outcome

pub record Context (c : CourseRepository) (a : AdministratorRepository) : Type 0 where
  pub session : Session
  pub courses : c.Repo
  pub admins : a.Repo

module _ (c : CourseRepository) (a : AdministratorRepository) where
  abbrev pub HandlerFn : Type 0
  HandlerFn = MsgBody → Context c a → Outcome × Context c a

  pub record Entry : Type 0 where
    pub required : Role
    pub fn : HandlerFn

  -- The command table, an `std::unordered_map` keyed by command.
  abbrev pub Dispatcher : Type 0
  Dispatcher = List (ℕ × Entry)

  -- `table_[cmd] = entry`
  unfoldable pub set_entry : ℕ → Entry → Dispatcher → Dispatcher
  set_entry cmd e [] = (cmd, e) ∷ []
  set_entry cmd e ((k, old) ∷ table) =
      if k == cmd then (k, e) ∷ table else (k, old) ∷ set_entry cmd e table

  -- `table_.find(cmd)`
  unfoldable pub find_entry : ℕ → Dispatcher → Option Entry
  find_entry cmd [] = none
  find_entry cmd ((k, e) ∷ table) = if k == cmd then some e else find_entry cmd table

  unfoldable pub register_handler : ℕ → Role → HandlerFn → Dispatcher → ErrorInfo × Dispatcher
  register_handler cmd required fn table =
      (no_error, set_entry cmd (record { required = required; fn = fn }) table)

  -- The `try`/`catch` around the handler.
  unfoldable pub guard_exceptions : Outcome × Context c a → Response × Context c a
  guard_exceptions (returned resp, w) = (resp, w)
  guard_exceptions (thrown what, w) = (respond cmd_server_error (codes "Internal server error"), w)

  unfoldable pub run_entry : Option Entry → MsgBody → Context c a → Response × Context c a
  run_entry none body w = (respond cmd_error (codes "Unknown command"), w)
  run_entry (some e) body w =
      if ltb (role_code w.session.role) (role_code e.required)
      then (respond cmd_permission_err (codes "Insufficient permissions"), w)
      else guard_exceptions (e.fn body w)

  unfoldable pub dispatch : Dispatcher → MsgBody → Context c a → Response × Context c a
  dispatch table body w = run_entry (find_entry body.cmd_type table) body w
