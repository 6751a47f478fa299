-- ===== src/Examples/Winsock.antt =====
-- Winsock over the loopback platform, where every connection succeeds with socket 3; and a platform whose
-- state is the list of the open sockets, and its Winsock.
use dcn1003_group.Base.{
  none, ap, sym, ℕ, suc, ◌+◌, ◌≤◌, ◌≡◌, refl, Bool, true, false, Option, some, List, [], ◌∷◌, arith,
  ◌==◌, if◌then◌else◌,
}
use dcn1003_group.Base.Int.{pos}
use dcn1003_group.Platform.{Platform}
use dcn1003_group.Connect.{Winsock}
use dcn1003_group.Connect.Owned.{Sockets}
use dcn1003_group.Server.Process.Owned.{Accepts}
use dcn1003_group.Examples.Loopback.{loopback}

abbrev pub loopback_winsock : Winsock loopback
loopback_winsock = record {
  inet_pton = λ host. some host;
  inet_ntop = λ ip. ip;
  socket = λ n. (some 3, n);
  set_reuse = λ s n. n;
  connect = λ s ip port n. (true, n);
  bind = λ s ip port n. (true, n);
  listen = λ s backlog n. (true, n);
  close = λ s n. n;
  last_error = λ n. pos 0;
}

abbrev pub open_list : Platform
open_list = record loopback {
  Net = List ℕ;
  send = λ s d len n. (pos 0, n);
  recv = λ s len n. (pos 0, [], n);
}

abbrev total : List ℕ → ℕ
total [] = 0
total (x ∷ xs) = x + total xs

unfoldable pub holds : List ℕ → ℕ → Bool
holds [] x = false
holds (y ∷ ys) x = if y == x then true else holds ys x

unfoldable pub without : ℕ → List ℕ → List ℕ
without s [] = []
without s (y ∷ ys) = if s == y then without s ys else y ∷ without s ys

abbrev pub open_list_winsock : Winsock open_list
open_list_winsock = record {
  inet_pton = λ host. some host;
  inet_ntop = λ ip. ip;
  socket = λ n. (some (suc (total n)), suc (total n) ∷ n);
  set_reuse = λ s n. n;
  connect = λ s ip port n. (true, n);
  bind = λ s ip port n. (true, n);
  listen = λ s backlog n. (true, n);
  close = λ s n. without s n;
  last_error = λ n. pos 0;
}

holds-lt : (xs : List ℕ) (x : ℕ) → total xs ≤ x → holds xs (suc x) ≡ false
unfolding holds
holds-lt [] x h = refl
holds-lt (y ∷ ys) x h = ground (arith, holds-lt ys x (omega arith))

holds-without :
    (s : ℕ) (xs : List ℕ) (x : ℕ) → holds (without s xs) x ≡ (if s == x then false else holds xs x)
unfolding holds without
holds-without s [] x = ground arith
holds-without s (y ∷ ys) x = ground (arith, holds-without s ys x)

some_value :
    (s t : ℕ) (n n' : List ℕ)
    → ◌≡◌ {A = Option ℕ × List ℕ} (some s, n) (some t, n')
    → (s ≡ t) × (n ≡ n')
some_value s t n n' e = ground arith

socket_none :
    (n n' : List ℕ) (x : ℕ) → open_list_winsock.socket n ≡ (none, n') → holds n' x ≡ holds n x
socket_none n n' x e = absurd (ground arith)

unfoldable pub open_list-Sockets : Sockets open_list_winsock
unfolding holds holds-lt holds-without some_value socket_none
open_list-Sockets = record {
  is_open = holds;
  fresh = λ n n' s e.
      let (same, after) = some_value (suc (total n)) s (suc (total n) ∷ n) n' e in
      rw (← same) (holds-lt n (total n) (omega arith));
  opens = λ n n' s x e.
      let (same, after) = some_value (suc (total n)) s (suc (total n) ∷ n) n' e in
      rw (← after, ← same) refl;
  opens_none = socket_none;
  closes = λ n s x. holds-without s n x;
  connect_keeps = λ s ip port n x. refl;
  bind_keeps = λ s ip port n x. refl;
  listen_keeps = λ s backlog n x. refl;
  reuse_keeps = λ s n x. refl;
}

-- `accept` succeeds on an open socket.
abbrev accept_if : Bool → List ℕ → Option ℕ × List ℕ
accept_if true n = (some (suc (total n)), suc (total n) ∷ n)
accept_if false n = (none, n)

unfoldable pub open_list_accept : ℕ → List ℕ → Option ℕ × List ℕ
open_list_accept l n = accept_if (holds n l) n

accept_if_fresh :
    (b : Bool) (n n' : List ℕ) (c : ℕ) → accept_if b n ≡ (some c, n') → holds n c ≡ false
accept_if_fresh true n n' c e =
    let (same, after) = some_value (suc (total n)) c (suc (total n) ∷ n) n' e in
    rw (← same) (holds-lt n (total n) (omega arith))
accept_if_fresh false n n' c e = absurd (ground arith)

accept_if_opens :
    (b : Bool) (n n' : List ℕ) (c x : ℕ)
    → accept_if b n ≡ (some c, n')
    → holds n' x ≡ (if c == x then true else holds n x)
unfolding holds
accept_if_opens true n n' c x e =
    let (same, after) = some_value (suc (total n)) c (suc (total n) ∷ n) n' e in
    rw (← after, ← same) refl
accept_if_opens false n n' c x e = absurd (ground arith)

accept_if_opens_none :
    (b : Bool) (n n' : List ℕ) (x : ℕ) → accept_if b n ≡ (none, n') → holds n' x ≡ holds n x
accept_if_opens_none true n n' x e = absurd (ground arith)
accept_if_opens_none false n n' x e = ap (λ (r : Option ℕ × List ℕ). holds r.1 x) (sym e)

pub open_list-Accepts : Accepts open_list-Sockets open_list_accept
unfolding open_list_accept open_list-Sockets
open_list-Accepts = record {
  fresh = λ l n n' c e. accept_if_fresh (holds n l) n n' c e;
  opens = λ l n n' c x e. accept_if_opens (holds n l) n n' c x e;
  opens_none = λ l n n' x e. accept_if_opens_none (holds n l) n n' x e;
}

pub open_list_accept_refuses :
    (l : ℕ) (n : List ℕ) → open_list-Sockets.is_open n l ≡ false → (open_list_accept l n).0 ≡ none
unfolding open_list_accept open_list-Sockets
open_list_accept_refuses l n h = ap (λ b. (accept_if b n).0) h
