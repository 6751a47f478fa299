-- ===== src/Repository.antt =====
-- The two data repositories as the handlers see them: the public operations of `CourseRepository` and
-- `AdministratorRepository` in driver/include/database.h. Every operation returns the repository
-- beside its result, since even a query may write the last error.
use dcn1003_group.Base.{Bool, List, Bytes}
use dcn1003_group.Base.Int.{ℤ}
use dcn1003_group.Wire.{Course}

pub record Administrator : Type 0 where
  pub username : Bytes
  pub password : Bytes

pub record CourseRepository : Type 1 where
  pub Repo : Type 0
  pub insert_or_replace : Course → Repo → Bool × Repo
  pub search_by_course_code : Bytes → Repo → List Course × Repo
  pub search_by_instructor : Bytes → Repo → List Course × Repo
  pub view_courses_by_semester : Bytes → Repo → List Course × Repo
  pub view_all_courses : Repo → List Course × Repo
  pub view_all_courses_paged : ℤ → ℤ → Repo → List Course × Repo
  pub delete_course : Bytes → Bytes → Repo → Bool × Repo
  pub update : Course → Repo → Bool × Repo
  pub last_error : Repo → Bytes

pub record AdministratorRepository : Type 1 where
  pub Repo : Type 0
  pub insert_or_replace : Administrator → Repo → Bool × Repo
  pub verify_login : Bytes → Bytes → Repo → Bool × Repo
  pub list_usernames : Repo → List Bytes × Repo
  pub rename : Bytes → Bytes → Repo → Bool × Repo
  pub remove : Bytes → Repo → Bool × Repo
  pub exists : Bytes → Repo → Bool
  pub last_error : Repo → Bytes
