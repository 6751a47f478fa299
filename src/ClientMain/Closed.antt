-- ===== src/ClientMain/Closed.antt =====
-- What `main` of the client leaves open.
use dcn1003_group.Base.{
  ℕ, suc, ◌≡◌, refl, Bool, true, false, not, none, List, Bytes, arith, both_branches, if◌then◌else◌,
}
use dcn1003_group.Base.Int.{ℤ}
use dcn1003_group.Error.{ErrorInfo, is_success}
use dcn1003_group.WinsockGuard
use dcn1003_group.WinsockGuard.{Startup, Guard, Uses, is_ok}
use dcn1003_group.Platform.{Platform}
use dcn1003_group.Crypto.{read_app_key}
use dcn1003_group.Socket.Kept.{Transfers}
use dcn1003_group.Protocol.{Process}
use dcn1003_group.Connect.{Winsock}
use dcn1003_group.Connect.Owned.{Sockets}
use dcn1003_group.Connect.Held.{Holds}
use dcn1003_group.Bridge.{Bridge, run_bridge}
use dcn1003_group.Bridge.Sockets.{run_bridge-Owns}
use dcn1003_group.Repl.{run_repl}
use dcn1003_group.Repl.Sockets.{run_repl-OwnsSocket}
use dcn1003_group.ClientMain.{Exit, bridge_mode, key_read, guarded, client_main}

module _ {p : Platform} {w : Winsock p} (laws : Sockets w)
    (keeps : (x : ℕ) → Transfers p (λ n. laws.is_open n x)) {u : Startup} (uses : Uses u) where
  -- The sockets and the uses of the socket library are those of before.
  abbrev pub Closed : p.Net → ℕ → Exit p u → Type 0
  Closed n k e = ((x : ℕ) → laws.is_open e.process.net x ≡ laws.is_open n x) × (uses.uses e.wsa ≡ k)

  destroy_uses :
      (k : ℕ) (guard : Guard) (s : u.Wsa)
      → guard.initialized ≡ true
      → uses.uses s ≡ suc k
      → uses.uses (WinsockGuard.destroy u guard s) ≡ k
  unfolding WinsockGuard.destroy
  destroy_uses k guard s on count = rw on (uses.ends s k count)

  held_none : (n : p.Net) → Holds laws (laws.is_open n) none n
  held_none n = ((λ x. ground arith), tt)

  session-Closed :
      (k : ℕ) (guard : Guard) (s : u.Wsa) (n : p.Net) (b : Bridge p)
      → guard.initialized ≡ true
      → uses.uses s ≡ suc k
      → Holds laws (laws.is_open n) none b.process.net
      → Closed n k (record {
        code = 0;
        process = b.process;
        out = b.out;
        wsa = WinsockGuard.destroy u guard s;
      })
  session-Closed k guard s n b on count (all, apart) =
      ((λ x. ground (arith, all x)), destroy_uses k guard s on count)

  module _ (overflow : Bytes → ℤ) where
    key_read-Closed :
        (k : ℕ) (guard : Guard) (args lines : List Bytes) (h : Process p) (s : u.Wsa)
        (answer : ErrorInfo × Bytes)
        → guard.initialized ≡ true
        → uses.uses s ≡ suc k
        → Closed h.net k (key_read p w u overflow guard args lines h s answer)
    key_read-Closed k guard args lines h s (err, key) on count =
        let loaded : Process p = record h { key = key } in
        both_branches (Closed h.net k) (not (is_success err))
          ((λ x. refl), destroy_uses k guard s on count)
          (session-Closed k guard s h.net
            (if bridge_mode args
              then run_bridge p w overflow lines loaded
              else run_repl p w overflow lines loaded)
            on count
            (both_branches (λ (b : Bridge p). Holds laws (laws.is_open h.net) none b.process.net)
              (bridge_mode args)
              (run_bridge-Owns laws keeps (laws.is_open h.net) overflow lines loaded
                (held_none h.net))
              (run_repl-OwnsSocket laws keeps (laws.is_open h.net) overflow lines loaded
                (held_none h.net))))

    guarded-Closed :
        (args lines : List Bytes) (h : Process p) (s : u.Wsa) (answer : Bool × u.Wsa)
        → u.wsa_startup s ≡ answer
        → Closed h.net
            (uses.uses s)
            (guarded p w u overflow args lines h (WinsockGuard.constructed answer.0, answer.1))
    unfolding is_ok WinsockGuard.destroy
    guarded-Closed args lines h s (true, s') got =
        key_read-Closed (uses.uses s) (WinsockGuard.constructed true) args lines h s'
          (read_app_key p h.key) refl (uses.starts s s' got)
    guarded-Closed args lines h s (false, s') got = ((λ x. refl), uses.starts_none s s' got)

    -- Whatever the system and the server answer, and whatever lines are read: when `main` of the client
    -- returns, as the bridge or as the shell or early, the open sockets and the uses of the socket library
    -- are those of before.
    pub client_main-Closed :
        (args lines : List Bytes) (h : Process p) (s : u.Wsa)
        → Closed h.net (uses.uses s) (client_main p w u overflow args lines h s)
    unfolding client_main WinsockGuard.construct
    client_main-Closed args lines h s = guarded-Closed args lines h s (u.wsa_startup s) refl
