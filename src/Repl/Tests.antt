-- ===== src/Repl/Tests.antt =====
-- The shell over the loopback platform.
use dcn1003_group.Base.{
  ◌≡◌, refl, some, [], ◌∷◌, ◌++◌, arith, Bytes, codes, bytes_eq, is_empty, replicate,
}
use dcn1003_group.Base.Int.{ℤ, pos}
use dcn1003_group.Protocol.{Process}
use dcn1003_group.Examples.Loopback.{loopback}
use dcn1003_group.Examples.Winsock.{loopback_winsock}
use dcn1003_group.Tsv.{tsv_split}
use dcn1003_group.Bridge.{Bridge, reset, perform}
use dcn1003_group.Bridge.{line}
use dcn1003_group.Repl.{print, repl_split, repl_command, repl_perform, repl_loop, run_repl}
use dcn1003_group.Repl.Command.{login}
use dcn1003_group.Repl.Same.{SameStep, repl_line-Same}

abbrev process : Process loopback
process = record {
  net = record { sent = []; coming = [] };
  rng = 1;
  key = replicate 32 7;
  req_id = 5;
  now = 100;
}

-- what `atoi` gives for a number that is too large
abbrev too_large : Bytes → ℤ
too_large s = pos 0

abbrev connected : Bridge loopback
connected = record { sock = some 3; process = process; out = [] }

repl_prints :
    (run_repl loopback loopback_winsock too_large
      (codes "  logout" ∷ [] ∷ codes "quit now" ∷ codes "help" ∷ [])
      process).out
    ≡ line (codes "DCN1003 client REPL. Type 'help' for commands.")
      ++ codes "> "
      ++ line (codes "  [ERR] not connected")
      ++ codes "> "
      ++ codes "> "
unfolding run_repl repl_loop repl_perform repl_command repl_split print reset codes bytes_eq
    is_empty
repl_prints = refl

repl_line-Same_example :
    SameStep
      (repl_perform loopback loopback_winsock too_large
        (repl_split (codes "login amy pw"))
        connected)
      (perform loopback loopback_winsock too_large
        (tsv_split (codes "LOGIN" ++ 9 ∷ (codes "amy" ++ 9 ∷ codes "pw")))
        (record connected { out = line (codes "READY") }))
unfolding codes
repl_line-Same_example =
    repl_line-Same loopback loopback_winsock too_large (login (codes "amy") (codes "pw")) connected
      (line (codes "READY")) (ground arith)
