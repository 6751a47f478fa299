-- ===== src/ClientMain.antt =====
-- `main` of programs/Client/src/client_main.cpp: the guard, the key, and the choice between the bridge and
-- the shell.
pub mod Closed
mod Tests
use dcn1003_group.Base.{
  ℕ, Bool, false, not, ◌||◌, List, [], ◌∷◌, if◌then◌else◌, Bytes, codes, bytes_eq,
}
use dcn1003_group.Base.Int.{ℤ}
use dcn1003_group.Error.{ErrorInfo, is_success}
use dcn1003_group.WinsockGuard
use dcn1003_group.WinsockGuard.{Startup, Guard, is_ok}
use dcn1003_group.Platform.{Platform}
use dcn1003_group.Crypto.{read_app_key}
use dcn1003_group.Protocol.{Process}
use dcn1003_group.Connect.{Winsock}
use dcn1003_group.Bridge.{Bridge, run_bridge}
use dcn1003_group.Repl.{run_repl}

-- Whether one of the arguments behind the program's name is "--bridge".
abbrev bridge_mode : List Bytes → Bool
bridge_mode [] = false
bridge_mode (arg ∷ args) = bytes_eq arg (codes "--bridge") || bridge_mode args

-- How `main` returned: with the code, and with what is left of the process.
pub record Exit (p : Platform) (u : Startup) : Type 0 where
  pub code : ℕ
  pub process : Process p
  pub out : Bytes
  pub wsa : u.Wsa

module _ (p : Platform) (w : Winsock p) (u : Startup) (overflow : Bytes → ℤ) where
  abbrev failed : Guard → Process p → u.Wsa → Exit p u
  failed guard h s = record {
    code = 1;
    process = h;
    out = [];
    wsa = WinsockGuard.destroy u guard s;
  }

  abbrev session_ended : Guard → u.Wsa → Bridge p → Exit p u
  session_ended guard s b = record {
    code = 0;
    process = b.process;
    out = b.out;
    wsa = WinsockGuard.destroy u guard s;
  }

  abbrev key_read :
      Guard → List Bytes → List Bytes → Process p → u.Wsa → ErrorInfo × Bytes → Exit p u
  key_read guard args lines h s (err, key) =
      if not (is_success err)
      then failed guard (record h { key = key }) s
      else session_ended guard s (
          if bridge_mode args
          then run_bridge p w overflow lines (record h { key = key })
          else run_repl p w overflow lines (record h { key = key }))

  abbrev guarded : List Bytes → List Bytes → Process p → Guard × u.Wsa → Exit p u
  guarded args lines h (guard, s) =
      if not (is_ok guard)
      then failed guard h s
      else key_read guard args lines h s (read_app_key p h.key)

  -- `main` with its arguments, for the lines that it reads from the standard input.
  unfoldable pub client_main : List Bytes → List Bytes → Process p → u.Wsa → Exit p u
  unfolding is_ok WinsockGuard.destroy
  client_main args lines h s = guarded args lines h (WinsockGuard.construct u s)
