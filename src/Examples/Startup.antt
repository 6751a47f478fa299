-- ===== src/Examples/Startup.antt =====
-- A socket library that always starts and counts its uses.
use dcn1003_group.Base.{ℕ, suc, ◌-◌, ◌≡◌, sym, ap, Bool, true, false, arith}
use dcn1003_group.WinsockGuard.{Startup, Uses}

abbrev pub counting_startup : Startup
counting_startup = record { Wsa = ℕ; wsa_startup = λ n. (true, suc n); wsa_cleanup = λ n. n - 1 }

pub always_starts : (s s' : ℕ) → counting_startup.wsa_startup s ≡ (false, s') → s' ≡ s
always_starts s s' e = absurd (ground arith)

abbrev pub counting_startup-Uses : Uses counting_startup
counting_startup-Uses = record {
  uses = λ n. n;
  starts = λ s s' e. sym (ap (λ (t : Bool × ℕ). t.1) e);
  starts_none = always_starts;
  ends = λ s n e. omega arith;
}
