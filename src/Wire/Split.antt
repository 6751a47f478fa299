-- ===== src/Wire/Split.antt =====
-- `split` of a text that is put together from parts that lack the separator.
use dcn1003_group.Base.{
  ℕ, ◌≡◌, refl, List, [], ◌∷◌, ◌++◌, append-nil, append_assoc, arith, Bytes, Lacks, All,
}
use dcn1003_group.Wire.{split_loop, split}

-- Every part behind a separator.
abbrev pub separated : ℕ → List Bytes → Bytes
separated sep [] = []
separated sep (p ∷ ps) = sep ∷ (p ++ separated sep ps)

split_loop_part :
    (sep : ℕ) (p rest : Bytes) (out : List Bytes) (cur : Bytes)
    → Lacks sep p
    → split_loop sep (p ++ rest) out cur ≡ split_loop sep rest out (cur ++ p)
unfolding split_loop
split_loop_part sep [] rest out cur h = rw append-nil
split_loop_part sep (c ∷ p) rest out cur h =
    ground (arith, split_loop_part sep p rest out (cur ++ c ∷ []), append_assoc cur (c ∷ []) p)

split_loop_sep :
    (sep : ℕ) (s : Bytes) (out : List Bytes) (cur : Bytes)
    → split_loop sep (sep ∷ s) out cur ≡ split_loop sep s (out ++ cur ∷ []) []
unfolding split_loop
split_loop_sep sep s out cur = ground arith

split_loop-separated :
    (sep : ℕ) (ps out : List Bytes) (cur : Bytes)
    → All (Lacks sep) ps
    → split_loop sep (separated sep ps) out cur ≡ out ++ cur ∷ ps
split_loop-separated sep [] out cur h = unfold split_loop in refl
split_loop-separated sep (p ∷ ps) out cur (hp, hps) =
    rw (split_loop_sep, split_loop_part sep p _ _ [] hp)
      (rw (split_loop-separated sep ps (out ++ cur ∷ []) p hps)
        (append_assoc out (cur ∷ []) (p ∷ ps)))

pub split-separated :
    (sep : ℕ) (p : Bytes) (ps : List Bytes)
    → Lacks sep p
    → All (Lacks sep) ps
    → split (p ++ separated sep ps) sep ≡ p ∷ ps
unfolding split
split-separated sep p ps hp hps =
    rw (split_loop_part sep p _ [] [] hp) (split_loop-separated sep ps [] p hps)
