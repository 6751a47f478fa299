-- ===== src/Server/Threads/Sessions.antt =====
-- Whose session is an administrator's while several clients are served, and what the threads keep.
use dcn1003_group.Base.{
  ℕ, ◌≡◌, ◌≢◌, refl, sym, ap, ◌∙◌, Bool, true, false, ◌⊎◌, inl, inr, Option, none, some, ◌==◌,
  arith, Bool-cases,
}
use mathlib.Core.Path.{subst}
use dcn1003_group.CmdType.{cmd_logout_req}
use dcn1003_group.Repository.{CourseRepository, AdministratorRepository}
use dcn1003_group.Dispatch.{Role, Session, new_session}
use dcn1003_group.Server.Access.{IsLogin, serve-Entitled}
use dcn1003_group.Server.Kept.{KeepsCourses, KeepsAdmins, serve_request-Keeps}
use dcn1003_group.Server.Threads.{
  Shared, put, no_threads, context_of, began, ended, served, Step, begins, serves, ends, Steps,
  start, after,
}

abbrev pub IsAdmin : Option Session → Type 0
IsAdmin none = ⊥
IsAdmin (some t) = t.role ≡ Role.admin

module _ (c : CourseRepository) (a : AdministratorRepository) where
  -- What the step means for thread `i`, when `Before` holds ahead of it: a request of its own that is a
  -- login which `verify_login` accepts in the state it meets; or `Before`, and the step is another
  -- thread's, or a request of its own that is no logout.
  abbrev AfterStep : ℕ → {s s' : Shared c a} → Type 0 → Step c a s s' → Type 0
  AfterStep i Before (begins j s idle) = (j ≢ i) × Before
  AfterStep i Before (serves j t body s busy) =
      ((j ≡ i) × IsLogin c a body (context_of c a t s))
      ⊎ (((j ≢ i) ⊎ (body.cmd_type ≢ cmd_logout_req)) × Before)
  AfterStep i Before (ends j t s busy) = (j ≢ i) × Before

  -- The last login of thread `i` that was accepted, with neither a logout of its own nor the end of the
  -- thread since.
  unfoldable pub LoggedIn : ℕ → {s s' : Shared c a} → Steps c a s s' → Type 0
  LoggedIn i start = ⊥
  LoggedIn i (after path step) = AfterStep i (LoggedIn i path) step

  same_thread : (j i : ℕ) → (j == i) ≡ true → j ≡ i
  same_thread j i e = ground arith

  other_thread : (j i : ℕ) → (j == i) ≡ false → j ≢ i
  other_thread j i e same = ground arith

  put_same :
      (j i : ℕ) (o : Option Session) (f : ℕ → Option Session) → (j == i) ≡ true → put j o f i ≡ o
  unfolding put
  put_same j i o f e = rw e refl

  put_other :
      (j i : ℕ) (o : Option Session) (f : ℕ → Option Session) → (j == i) ≡ false → put j o f i ≡ f i
  unfolding put
  put_other j i o f e = rw e refl

  Step-AfterStep :
      (i : ℕ) {s s' : Shared c a} (Before : Type 0) (step : Step c a s s')
      → (IsAdmin (s.sessions i) → Before)
      → IsAdmin (s'.sessions i)
      → AfterStep i Before step
  unfolding began ended served
  Step-AfterStep i Before (begins j s idle) before h = elim (Bool-cases (j == i)) [
    | inl same ↦
        absurd (student_admin (subst IsAdmin (put_same j i (some new_session) s.sessions same) h))
    | inr differ ↦ (
      other_thread j i differ,
      before (subst IsAdmin (put_other j i (some new_session) s.sessions differ) h),
    )
  ]
    where
      student_admin : Role.student ≢ Role.admin
      student_admin e = cc
  Step-AfterStep i Before (ends j t s busy) before h = elim (Bool-cases (j == i)) [
    | inl same ↦ absurd (subst IsAdmin (put_same j i none s.sessions same) h)
    | inr differ ↦
        (other_thread j i differ, before (subst IsAdmin (put_other j i none s.sessions differ) h))
  ]
  Step-AfterStep i Before (serves j t body s busy) before h = elim (Bool-cases (j == i)) [
    | inr differ ↦ inr (
      inl (other_thread j i differ),
      before (subst IsAdmin (put_other j i _ s.sessions differ) h),
    )
    | inl same ↦
        elim (serve-Entitled c a body (context_of c a t s)
          (subst IsAdmin (put_same j i _ s.sessions same) h)) [
            | inr login ↦ inl (same_thread j i same, login)
            | inl (admin, stays) ↦ inr (
              inr stays,
              before (subst IsAdmin (sym busy ∙ ap s.sessions (same_thread j i same)) admin),
            )
          ]
  ]

  -- In every state that the server reaches with threads that come, are served and go in any order, a
  -- thread whose session is an administrator's had a login of its own that `verify_login` accepted in the
  -- state that it met, which the other threads may have changed, and since then neither a logout of its
  -- own nor its end. No request of another thread makes a session an administrator's.
  pub admin-LoggedIn :
      (i : ℕ) (courses : c.Repo) (admins : a.Repo) (s : Shared c a)
      → (path : Steps c a (no_threads c a courses admins) s) → IsAdmin (s.sessions i)
      → LoggedIn i path
  unfolding LoggedIn
  admin-LoggedIn i courses admins s start h = h
  admin-LoggedIn i courses admins s (after path step) h =
      Step-AfterStep i (LoggedIn i path) step (λ e. admin-LoggedIn i courses admins _ path e) h

  module _ (of_courses : c.Repo → Bool) (of_admins : a.Repo → Bool) (kc : KeepsCourses c of_courses)
      (ka : KeepsAdmins a of_admins) where
    Step-Keeps :
        {s s' : Shared c a}
        → Step c a s s'
        → (of_courses s'.courses ≡ of_courses s.courses)
          × (of_admins s'.admins ≡ of_admins s.admins)
    unfolding began ended served
    Step-Keeps (begins j s idle) = (refl, refl)
    Step-Keeps (ends j t s busy) = (refl, refl)
    Step-Keeps (serves j t body s busy) =
        serve_request-Keeps c a of_courses of_admins kc ka body (context_of c a t s)

    -- What no operation of a repository changes is as it was after any steps of the threads.
    pub Steps-Keeps :
        {s s' : Shared c a}
        → Steps c a s s'
        → (of_courses s'.courses ≡ of_courses s.courses)
          × (of_admins s'.admins ≡ of_admins s.admins)
    Steps-Keeps start = (refl, refl)
    Steps-Keeps (after path step) =
        let (courses, admins) = Steps-Keeps path in
        let (courses', admins') = Step-Keeps step in (courses' ∙ courses, admins' ∙ admins)
