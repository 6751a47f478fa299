-- ===== src/Wire/Tests.antt =====
-- Tests of the response text, and the theorems at concrete inputs.
use dcn1003_group.Base.{◌≡◌, refl, some, List, [], ◌∷◌, ◌++◌, arith, codes, is_empty}
use dcn1003_group.Base.Int.{negsuc}
use dcn1003_group.Number.{decimal, stoi, to_string}
use dcn1003_group.Number.RoundTrip.{stoi-to_string}
use dcn1003_group.Wire.{Course, serialize_courses, split, parse_courses}
use dcn1003_group.Wire.RoundTrip.{parse_courses-serialize_courses}

abbrev networks : Course
networks = record {
  code = b'N' ∷ b'1' ∷ [];
  title = b'N' ∷ [];
  section = b'1' ∷ [];
  instructor = b'L' ∷ [];
  day = [];
  duration = b'9' ∷ [];
  semester = b'S' ∷ [];
  classroom = b'A' ∷ [];
}

abbrev listing : List Course
listing = networks ∷ networks ∷ []

serialize_one :
    serialize_courses (networks ∷ [])
    ≡ codes "1"
      ++ (0x1E
          ∷ (codes "N1"
              ++ (0x1F
                  ∷ (codes "N"
                      ++ (0x1F
                          ∷ (codes "1"
                              ++ (0x1F
                                  ∷ (codes "L"
                                      ++ (0x1F
                                          ∷ (0x1F
                                              ∷ (codes "9"
                                                  ++ (0x1F
                                                      ∷ (codes "S"
                                                          ++ (0x1F ∷ codes "A"))))))))))))))
unfolding serialize_courses codes decimal
serialize_one = refl

split_empty_parts : split (codes ",a,,") b',' ≡ [] ∷ codes "a" ∷ [] ∷ [] ∷ []
unfolding split codes
split_empty_parts = refl

parse_short_record : parse_courses (b'1' ∷ 0x1E ∷ b'a' ∷ 0x1F ∷ b'b' ∷ []) ≡ []
unfolding parse_courses split is_empty
parse_short_record = refl

decimal_2026 : decimal 2026 ≡ codes "2026"
unfolding decimal codes
decimal_2026 = refl

parse_courses-serialize_courses_example : parse_courses (serialize_courses listing) ≡ listing
parse_courses-serialize_courses_example = parse_courses-serialize_courses listing (omega arith)

stoi-to_string_example : stoi (to_string (negsuc 41)) ≡ some (negsuc 41)
stoi-to_string_example = stoi-to_string (negsuc 41) (omega arith)
