-- ===== src/Tsv/RoundTrip.antt =====
-- What `tsv_split` reads from a line of fields.
use dcn1003_group.Base.{
  ℕ, ◌≡◌, ◌≢◌, refl, List, [], ◌∷◌, ◌++◌, append-nil, append_assoc, arith, Bytes, Lacks, All,
  All-append, length,
}
use dcn1003_group.Number.{decimal}
use dcn1003_group.Number.RoundTrip.{decimal-Lacks}
use dcn1003_group.Wire.{Course}
use dcn1003_group.Wire.Split.{separated}
use dcn1003_group.Tsv.{
  tab, tsv_loop, tsv_split, course_tsv, courses_tsv, join_courses_tsv, names_tsv, join_names_tsv,
}

-- The field holds no tab and no carriage return.
abbrev pub IsCell : Bytes → Type 0
IsCell s = Lacks tab s × Lacks 13 s

tsv_loop_field :
    (f rest : Bytes) (out : List Bytes) (cur : Bytes)
    → IsCell f
    → tsv_loop (f ++ rest) out cur ≡ tsv_loop rest out (cur ++ f)
unfolding tsv_loop
tsv_loop_field [] rest out cur h = rw append-nil
tsv_loop_field (c ∷ f) rest out cur ((ht, hts), (hr, hrs)) =
    ground
      (arith, tsv_loop_field f rest out (cur ++ c ∷ []) (hts, hrs), append_assoc cur (c ∷ []) f)

tsv_loop-tab :
    (s : Bytes) (out : List Bytes) (cur : Bytes)
    → tsv_loop (tab ∷ s) out cur ≡ tsv_loop s (out ++ cur ∷ []) []
unfolding tsv_loop
tsv_loop-tab s out cur = ground arith

tsv_loop-separated :
    (fs out : List Bytes) (cur : Bytes)
    → All IsCell fs
    → tsv_loop (separated tab fs) out cur ≡ out ++ cur ∷ fs
tsv_loop-separated [] out cur h = unfold tsv_loop in refl
tsv_loop-separated (f ∷ fs) out cur (hf, hfs) =
    rw (tsv_loop-tab, tsv_loop_field f _ _ [] hf)
      (rw (tsv_loop-separated fs (out ++ cur ∷ []) f hfs) (append_assoc out (cur ∷ []) (f ∷ fs)))

-- A line of fields without tabs and carriage returns is read back as these fields.
pub tsv_split-separated :
    (f : Bytes) (fs : List Bytes)
    → IsCell f
    → All IsCell fs
    → tsv_split (f ++ separated tab fs) ≡ f ∷ fs
unfolding tsv_split
tsv_split-separated f fs hf hfs = rw (tsv_loop_field f _ [] [] hf) (tsv_loop-separated fs [] f hfs)

abbrev pub cells : Course → List Bytes
cells c =
    c.code ∷ c.title ∷ c.section ∷ c.instructor ∷ c.day ∷ c.duration ∷ c.semester ∷ c.classroom ∷ []

abbrev pub all_cells : List Course → List Bytes
all_cells [] = []
all_cells (c ∷ cs) = cells c ++ all_cells cs

courses_tsv-separated : (cs : List Course) → courses_tsv cs ≡ separated tab (all_cells cs)
unfolding courses_tsv course_tsv
courses_tsv-separated [] = refl
courses_tsv-separated (c ∷ cs) = simp (courses_tsv-separated cs, append_assoc)

abbrev pub AllCells : List Course → Type 0
AllCells cs = All IsCell (all_cells cs)

decimal-IsCell : (n : ℕ) → IsCell (decimal n)
decimal-IsCell n = (decimal-Lacks tab n (λ h. ground arith), decimal-Lacks 13 n (λ h. ground arith))

-- The line with the courses, behind its first word, is read back as the word, the number of the courses
-- and their eight fields in order, if no field holds a tab or a carriage return.
pub tsv_split-join_courses_tsv :
    (word : Bytes) (cs : List Course)
    → IsCell word
    → AllCells cs
    → tsv_split (word ++ (tab ∷ join_courses_tsv cs)) ≡ word ∷ decimal (length cs) ∷ all_cells cs
unfolding join_courses_tsv
tsv_split-join_courses_tsv word cs hw h = rw (courses_tsv-separated cs) (
    tsv_split-separated word (decimal (length cs) ∷ all_cells cs) hw
      (decimal-IsCell (length cs), h))

separated-Lacks : (fs : List Bytes) → All (Lacks 10) fs → Lacks 10 (separated tab fs)
separated-Lacks [] h = tt
separated-Lacks (f ∷ fs) (hf, hfs) =
    ((λ e. omega arith), All-append (λ c. c ≢ 10) f (separated tab fs) hf (separated-Lacks fs hfs))

-- The line with the courses has no line's end in it, if no field has one.
pub join_courses_tsv-Lacks :
    (word : Bytes) (cs : List Course)
    → Lacks 10 word
    → All (Lacks 10) (all_cells cs)
    → Lacks 10 (word ++ (tab ∷ join_courses_tsv cs))
unfolding join_courses_tsv
join_courses_tsv-Lacks word cs hw h = rw (courses_tsv-separated cs) (
    All-append (λ c. c ≢ 10) word (separated tab (decimal (length cs) ∷ all_cells cs)) hw
      (separated-Lacks (decimal (length cs) ∷ all_cells cs)
        (decimal-Lacks 10 (length cs) (λ e. ground arith), h)))

names_tsv-separated : (names : List Bytes) → names_tsv names ≡ separated tab names
unfolding names_tsv
names_tsv-separated [] = refl
names_tsv-separated (n ∷ names) = rw (names_tsv-separated names) refl

-- The same for the names of the administrators.
pub tsv_split-join_names_tsv :
    (word : Bytes) (names : List Bytes)
    → IsCell word
    → All IsCell names
    → tsv_split (word ++ (tab ∷ join_names_tsv names)) ≡ word ∷ decimal (length names) ∷ names
unfolding join_names_tsv
tsv_split-join_names_tsv word names hw h = rw (names_tsv-separated names) (
    tsv_split-separated word (decimal (length names) ∷ names) hw (decimal-IsCell (length names), h))
