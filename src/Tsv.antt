-- ===== src/Tsv.antt =====
-- The lines of the client's bridge: `tsv_split`, `join_courses_tsv` and the printing of names in
-- programs/Client/src/client_main.cpp.
pub mod RoundTrip
use dcn1003_group.Base.{ℕ, true, false, List, [], ◌∷◌, ◌++◌, ◌==◌, Bytes, length}
use dcn1003_group.Number.{decimal}
use dcn1003_group.Wire.{Course}

abbrev pub tab : ℕ
tab = 9

-- The loop of `tsv_split`, over the fields so far and the current field; a carriage return is dropped.
tsv_loop : Bytes → List Bytes → Bytes → List Bytes
tsv_loop [] out cur = out ++ cur ∷ []
tsv_loop (c ∷ s) out cur = elim (c == 13) [
  | true ↦ tsv_loop s out cur
  | false ↦ elim (c == tab) [
    | true ↦ tsv_loop s (out ++ cur ∷ []) []
    | false ↦ tsv_loop s out (cur ++ c ∷ [])
  ]
]

unfoldable pub tsv_split : Bytes → List Bytes
unfolding tsv_loop
tsv_split s = tsv_loop s [] []

-- The eight fields of a course, each behind a tab.
course_tsv : Course → Bytes
course_tsv c =
    tab
    ∷ (c.code
        ++ (tab
            ∷ (c.title
                ++ (tab
                    ∷ (c.section
                        ++ (tab
                            ∷ (c.instructor
                                ++ (tab
                                    ∷ (c.day
                                        ++ (tab
                                            ∷ (c.duration
                                                ++ (tab
                                                    ∷ (c.semester
                                                        ++ (tab ∷ c.classroom))))))))))))))

courses_tsv : List Course → Bytes
courses_tsv [] = []
courses_tsv (c ∷ cs) = course_tsv c ++ courses_tsv cs

unfoldable pub join_courses_tsv : List Course → Bytes
unfolding course_tsv courses_tsv
join_courses_tsv cs = decimal (length cs) ++ courses_tsv cs

names_tsv : List Bytes → Bytes
names_tsv [] = []
names_tsv (n ∷ names) = tab ∷ (n ++ names_tsv names)

-- What `emit_admins` prints behind "ADMINS" and a tab.
unfoldable pub join_names_tsv : List Bytes → Bytes
unfolding names_tsv
join_names_tsv names = decimal (length names) ++ names_tsv names
