-- ===== src/Server/Threads.antt =====
-- The threads of programs/Server/src/server_main.cpp: each runs `handle_client` with a session of its own,
-- and all share the two repositories. A step is a thread that begins, a request that a thread serves
-- from its receipt on, or a thread whose loop ends; the steps of the threads come in any order.
pub mod Sessions
mod Tests
use dcn1003_group.Base.{ℕ, ◌≡◌, Option, none, some, ◌==◌, if◌then◌else◌}
use dcn1003_group.Repository.{CourseRepository, AdministratorRepository}
use dcn1003_group.Dispatch.{Session, new_session, MsgBody, Response, Context}
use dcn1003_group.Server.Access.{serve_request}

-- The repositories, and the session of each thread that runs.
pub record Shared (c : CourseRepository) (a : AdministratorRepository) : Type 0 where
  pub sessions : ℕ → Option Session
  pub courses : c.Repo
  pub admins : a.Repo

unfoldable pub put : ℕ → Option Session → (ℕ → Option Session) → ℕ → Option Session
put i t sessions j = if i == j then t else sessions j

module _ (c : CourseRepository) (a : AdministratorRepository) where
  -- `main` before its first client.
  abbrev pub no_threads : c.Repo → a.Repo → Shared c a
  no_threads courses admins = record { sessions = λ i. none; courses = courses; admins = admins }

  -- `ReqContext_t ctx{body, session, courses, admins};` of a thread with this session.
  abbrev pub context_of : Session → Shared c a → Context c a
  context_of t s = record { session = t; courses = s.courses; admins = s.admins }

  -- A thread starts with a new session.
  unfoldable pub began : ℕ → Shared c a → Shared c a
  unfolding put
  began i s = record s { sessions = put i (some new_session) s.sessions }

  -- The thread's loop was left.
  unfoldable pub ended : ℕ → Shared c a → Shared c a
  unfolding put
  ended i s = record s { sessions = put i none s.sessions }

  -- A request of a thread that has this session: the response, and the state after it.
  unfoldable pub served : ℕ → Session → MsgBody → Shared c a → Response × Shared c a
  unfolding put
  served i t body s =
      let (resp, w) = serve_request c a body (context_of t s) in
      (
        resp,
        record {
          sessions = put i (some w.session) s.sessions;
          courses = w.courses;
          admins = w.admins;
        },
      )

  pub data Step : Shared c a → Shared c a → Type 0 where
    begins : (i : ℕ) (s : Shared c a) → s.sessions i ≡ none → Step s (began i s)
    serves :
        (i : ℕ) (t : Session) (body : MsgBody) (s : Shared c a)
        → s.sessions i ≡ some t
        → Step s (served i t body s).1
    ends : (i : ℕ) (t : Session) (s : Shared c a) → s.sessions i ≡ some t → Step s (ended i s)

  -- The steps so far, the last one outermost.
  pub data Steps (s : Shared c a) : Shared c a → Type 0 where
    start : Steps s s
    after : {s' s'' : Shared c a} → Steps s s' → Step s' s'' → Steps s s''
