-- ===== src/Repl/Words.antt =====
-- What `repl_split` reads from a line of words.
use dcn1003_group.Base.{
  ℕ, ◌≡◌, refl, sym, ap, ◌∙◌, true, false, List, [], ◌∷◌, ◌++◌, append-nil, append_assoc, arith,
  Bytes, Lacks, All,
}
use dcn1003_group.Number.{is_space}
use dcn1003_group.Wire.Split.{separated}
use dcn1003_group.Tsv.{tab}
use dcn1003_group.Tsv.RoundTrip.{IsCell}
use dcn1003_group.Repl.{push_token, token_loop, repl_split}

abbrev NoSpace : Bytes → Type 0
NoSpace = All (λ c. is_space c ≡ false)

-- Not empty, and without white space.
abbrev pub IsWord : Bytes → Type 0
IsWord [] = ⊥
IsWord (c ∷ s) = NoSpace (c ∷ s)

IsWord-NoSpace : (s : Bytes) → IsWord s → NoSpace s
IsWord-NoSpace [] h = absurd h
IsWord-NoSpace (c ∷ s) h = h

NoSpace-Lacks : (b : ℕ) (s : Bytes) → is_space b ≡ true → NoSpace s → Lacks b s
NoSpace-Lacks b [] space h = tt
NoSpace-Lacks b (c ∷ s) space (hc, h) = (
  λ same. absurd (true_false (sym space ∙ ap is_space (sym same) ∙ hc)),
  NoSpace-Lacks b s space h,
)
  where
    true_false : true ≡ false → ⊥
    true_false e = ground arith

pub AllWords-IsCell : (ws : List Bytes) → All IsWord ws → All IsCell ws
AllWords-IsCell [] h = tt
AllWords-IsCell (v ∷ ws) (hv, h) =
    let free = IsWord-NoSpace v hv in
    ((NoSpace-Lacks tab v refl free, NoSpace-Lacks 13 v refl free), AllWords-IsCell ws h)

token_loop_word :
    (v rest : Bytes) (out : List Bytes) (cur : Bytes)
    → NoSpace v
    → token_loop (v ++ rest) out cur ≡ token_loop rest out (cur ++ v)
unfolding token_loop
token_loop_word [] rest out cur h = rw append-nil
token_loop_word (c ∷ v) rest out cur (hc, h) =
    rw (hc, token_loop)
      (token_loop_word v rest out (cur ++ c ∷ []) h
        ∙ ap (token_loop rest out) (append_assoc cur (c ∷ []) v))

token_loop_space :
    (s : Bytes) (out : List Bytes) (cur : Bytes)
    → token_loop (32 ∷ s) out cur ≡ token_loop s (push_token cur out) []
unfolding token_loop
token_loop_space s out cur = refl

token_loop-separated :
    (ws out : List Bytes) (cur : Bytes)
    → IsWord cur
    → All IsWord ws
    → token_loop (separated 32 ws) out cur ≡ out ++ cur ∷ ws
token_loop-separated [] out [] hc h = absurd hc
token_loop-separated [] out (c ∷ cur) hc h = unfold token_loop in refl
token_loop-separated (v ∷ ws) out [] hc h = absurd hc
token_loop-separated (v ∷ ws) out (c ∷ cur) hc (hv, h) =
    rw (token_loop_space, token_loop_word v _ _ [] (IsWord-NoSpace v hv))
      (rw (token_loop-separated ws (out ++ (c ∷ cur) ∷ []) v hv h)
        (append_assoc out ((c ∷ cur) ∷ []) (v ∷ ws)))

-- A line of words with a space between each two is read back as these words.
pub repl_split-separated :
    (v : Bytes) (ws : List Bytes)
    → IsWord v
    → All IsWord ws
    → repl_split (v ++ separated 32 ws) ≡ v ∷ ws
unfolding repl_split
repl_split-separated v ws hv h =
    rw (token_loop_word v _ [] [] (IsWord-NoSpace v hv)) (token_loop-separated ws [] v hv h)
