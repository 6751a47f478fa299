-- ===== src/WinsockGuard.antt =====
-- driver/include/winsock_guard.h and driver/src/winsock_guard.cpp: the guard that starts the socket
-- library and ends its use.
use dcn1003_group.Base.{ℕ, suc, ◌≡◌, Bool, true, false, if◌then◌else◌, codes}
use dcn1003_group.Error.{ErrorCode, ErrorInfo, no_error, is_success}

-- `WSAStartup`: whether it returned 0; and `WSACleanup`.
pub record Startup : Type 1 where
  pub Wsa : Type 0
  pub wsa_startup : Wsa → Bool × Wsa
  pub wsa_cleanup : Wsa → Wsa

pub record Guard : Type 0 where
  pub err : ErrorInfo
  pub initialized : Bool

unfoldable pub is_ok : Guard → Bool
is_ok g = is_success g.err

abbrev pub constructed : Bool → Guard
constructed true = record { err = no_error; initialized = true }
constructed false = record {
  err = record { e = ErrorCode.socket_err; message = codes "WSAStartup failed" };
  initialized = false;
}

module _ (u : Startup) where
  unfoldable pub construct : u.Wsa → Guard × u.Wsa
  construct s = let (ok, s') = u.wsa_startup s in (constructed ok, s')

  unfoldable pub destroy : Guard → u.Wsa → u.Wsa
  destroy g s = if g.initialized then u.wsa_cleanup s else s

-- What Winsock's documentation says: each successful WSAStartup is one use, which one WSACleanup ends.
pub record Uses (u : Startup) : Type 0 where
  pub uses : u.Wsa → ℕ
  pub starts : (s s' : u.Wsa) → u.wsa_startup s ≡ (true, s') → uses s' ≡ suc (uses s)
  pub starts_none : (s s' : u.Wsa) → u.wsa_startup s ≡ (false, s') → uses s' ≡ uses s
  pub ends : (s : u.Wsa) (n : ℕ) → uses s ≡ suc n → uses (u.wsa_cleanup s) ≡ n
