-- ===== src/CourseStore/Statements.antt =====
-- The SQL texts of driver/src/db_courses_handle.cpp, each as the pieces the source writes.
use dcn1003_group.Base.{◌++◌, Bytes, codes}

abbrev pub join_select : Bytes
join_select =
    codes "SELECT c.code, c.title, c.section, c.instructor,"
    ++ codes "       s.day, s.duration, s.semester, s.classroom"
    ++ codes " FROM courses c"
    ++ codes " INNER JOIN schedules s ON c.code = s.course_code AND c.section = s.section"

abbrev pub schema_sql : Bytes
schema_sql =
    codes "CREATE TABLE IF NOT EXISTS courses ("
    ++ codes "  code       VARCHAR(32)  NOT NULL,"
    ++ codes "  title      VARCHAR(128) NOT NULL,"
    ++ codes "  section    VARCHAR(32)  NOT NULL,"
    ++ codes "  instructor VARCHAR(64)  NOT NULL,"
    ++ codes "  PRIMARY KEY (code, section)"
    ++ codes ");"
    ++ codes "CREATE TABLE IF NOT EXISTS schedules ("
    ++ codes "  course_code VARCHAR(32) NOT NULL,"
    ++ codes "  section     VARCHAR(32) NOT NULL,"
    ++ codes "  day         DATE        NOT NULL,"
    ++ codes "  duration    VARCHAR(32) NOT NULL,"
    ++ codes "  semester    VARCHAR(16) NOT NULL DEFAULT '',"
    ++ codes "  classroom   VARCHAR(64) NOT NULL DEFAULT '',"
    ++ codes "  PRIMARY KEY (course_code, section, day, duration, semester),"
    ++ codes "  FOREIGN KEY (course_code, section)"
    ++ codes "    REFERENCES courses(code, section)"
    ++ codes "    ON DELETE CASCADE ON UPDATE CASCADE"
    ++ codes ");"
    ++ codes "CREATE INDEX IF NOT EXISTS idx_courses_instructor ON courses(instructor);"
    ++ codes "CREATE INDEX IF NOT EXISTS idx_schedules_classroom ON schedules(classroom);"
    ++ codes "CREATE INDEX IF NOT EXISTS idx_schedules_day ON schedules(day);"
    ++ codes "CREATE INDEX IF NOT EXISTS idx_schedules_semester ON schedules(semester);"

abbrev pub begin_sql : Bytes
begin_sql = codes "BEGIN;"

abbrev pub commit_sql : Bytes
commit_sql = codes "COMMIT;"

abbrev pub rollback_sql : Bytes
rollback_sql = codes "ROLLBACK;"

abbrev pub insert_course_sql : Bytes
insert_course_sql =
    codes "INSERT INTO courses(code, title, section, instructor) VALUES(?,?,?,?)"
    ++ codes " ON CONFLICT(code, section) DO UPDATE SET"
    ++ codes " title=excluded.title, instructor=excluded.instructor;"

abbrev pub insert_schedule_sql : Bytes
insert_schedule_sql =
    codes "INSERT INTO schedules(course_code, section, day, duration, semester, classroom)"
    ++ codes " VALUES(?,?,?,?,?,?)"
    ++ codes " ON CONFLICT(course_code, section, day, duration, semester) DO UPDATE SET"
    ++ codes " classroom=excluded.classroom;"

abbrev pub update_course_sql : Bytes
update_course_sql = codes "UPDATE courses SET title=?, instructor=? WHERE code=? AND section=?;"

abbrev pub update_schedule_sql : Bytes
update_schedule_sql =
    codes "UPDATE schedules SET classroom=?"
    ++ codes " WHERE course_code=? AND section=? AND day=? AND duration=? AND semester=?;"

abbrev pub delete_course_sql : Bytes
delete_course_sql = codes "DELETE FROM courses WHERE code = ? AND section = ?;"

abbrev pub delete_schedule_sql : Bytes
delete_schedule_sql =
    codes "DELETE FROM schedules"
    ++ codes " WHERE course_code=? AND section=? AND day=? AND duration=? AND semester=?;"

abbrev pub count_sql : Bytes
count_sql =
    codes "SELECT COUNT(*) FROM courses c"
    ++ codes " INNER JOIN schedules s ON c.code = s.course_code AND c.section = s.section;"

abbrev pub by_code : Bytes
by_code = codes " WHERE c.code = ? ORDER BY c.section, s.day;"

abbrev pub by_instructor : Bytes
by_instructor = codes " WHERE c.instructor LIKE ? ORDER BY c.code, c.section;"

abbrev pub by_classroom : Bytes
by_classroom = codes " WHERE s.classroom LIKE ? ORDER BY c.code, c.section;"

abbrev pub by_day : Bytes
by_day = codes " WHERE s.day = ? ORDER BY c.code, c.section;"

abbrev pub by_semester : Bytes
by_semester = codes " WHERE s.semester = ? ORDER BY c.code, c.section, s.day;"

abbrev pub all_order : Bytes
all_order = codes " ORDER BY c.code, c.section, s.semester, s.day;"

abbrev pub page_order : Bytes
page_order = codes " ORDER BY c.code, c.section, s.semester, s.day"
