-- ===== src/Connect/Held.antt =====
-- A session that holds at most one socket, among the sockets of others.
use dcn1003_group.Base.{
  ℕ, ◌≡◌, ◌∙◌, inl, inr, Bool, true, false, Option, none, some, ◌||◌, ◌==◌, arith, Bool-cases,
}
use dcn1003_group.Platform.{Platform}
use dcn1003_group.Connect.{Winsock, close_valid}
use dcn1003_group.Connect.Owned.{Sockets, Opened}

abbrev pub is_held : Option ℕ → ℕ → Bool
is_held none x = false
is_held (some l) x = l == x

pub same_number : (a b : ℕ) → (a == b) ≡ true → a ≡ b
same_number a b e = ground arith

module _ {p : Platform} {w : Winsock p} (laws : Sockets w) (others : ℕ → Bool) where
  -- The held socket is none of the others.
  abbrev Apart : Option ℕ → Type 0
  Apart none = Unit
  Apart (some l) = others l ≡ false

  -- The open sockets are the held one, if there is one, and the others.
  abbrev pub Holds : Option ℕ → p.Net → Type 0
  Holds o n = ((x : ℕ) → laws.is_open n x ≡ (is_held o x || others x)) × Apart o

  pub close-Holds : (o : Option ℕ) (n : p.Net) → Holds o n → Holds none (close_valid w o n)
  close-Holds none n h = h
  close-Holds (some l) n (all, apart) = (closed, tt)
    where
      closed : (x : ℕ) → laws.is_open (w.close l n) x ≡ (false || others x)
      closed x = elim (Bool-cases (l == x)) [
        | inl same ↦ rw (← same_number l x same) (ground (arith, laws.closes n l l, apart))
        | inr differ ↦ ground (arith, laws.closes n l x, all x, differ)
      ]

  -- A new socket takes the place of the held one, which is closed.
  pub replace-Holds :
      (o s : Option ℕ) (n n' : p.Net)
      → Holds o n
      → Opened w laws n s n'
      → Holds s (close_valid w o n')
  replace-Holds o none n n' (all, apart) same = close-Holds o n' ((λ x. same x ∙ all x), apart)
  replace-Holds none (some s) n n' (all, apart) (fresh, opens) =
      ((λ x. ground (arith, opens x, all x)), ground (arith, all s))
  replace-Holds (some l) (some s) n n' (all, apart) (fresh, opens) =
      (replaced, ground (arith, all s))
    where
      distinct : (s == l) ≡ false
      distinct = ground (arith, all s, same_number l s)

      replaced : (x : ℕ) → laws.is_open (w.close l n') x ≡ ((s == x) || others x)
      replaced x = elim (Bool-cases (l == x)) [
        | inl same ↦
            rw (← same_number l x same) (ground (arith, laws.closes n' l l, apart, distinct))
        | inr differ ↦ ground (arith, laws.closes n' l x, opens x, all x, differ)
      ]
