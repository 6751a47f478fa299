-- ===== src/Dispatch/Table.antt =====
-- The command table: what a registration changes.
use dcn1003_group.Base.{
  ℕ, ◌≡◌, refl, some, [], ◌∷◌, inl, inr, arith, ◌==◌, ==_iff, Bool-cases, if◌then◌else◌,
}
use mathlib.Core.Path.{subst₂}
use mathlib.Core.Option.{some-injective}
use dcn1003_group.Repository.{CourseRepository, AdministratorRepository}
use dcn1003_group.Dispatch.{
  Role, HandlerFn, Entry, Dispatcher, set_entry, find_entry, register_handler,
}

module _ (c : CourseRepository) (a : AdministratorRepository) where
  -- Every entry of the table, with its command, has the property.
  abbrev pub AllEntries : (ℕ → Entry c a → Type 0) → Dispatcher c a → Type 0
  AllEntries P [] = Unit
  AllEntries P ((k, e) ∷ table) = P k e × AllEntries P table

  pub AllEntries-find_entry :
      (P : ℕ → Entry c a → Type 0) (cmd : ℕ) (e : Entry c a) (table : Dispatcher c a)
      → AllEntries P table
      → find_entry c a cmd table ≡ some e
      → P cmd e
  unfolding find_entry
  AllEntries-find_entry P cmd e [] h found = cc
  AllEntries-find_entry P cmd e ((k, e') ∷ table) h found = elim (Bool-cases (k == cmd)) [
    | inl same ↦ subst₂ P ((==_iff k cmd).0 same) (some-injective e' e (rw same at found)) h.0
    | inr differs ↦ AllEntries-find_entry P cmd e table h.1 (rw differs at found)
  ]

  pub find_entry-set_entry :
      (j k : ℕ) (e : Entry c a) (table : Dispatcher c a)
      → find_entry c a j (set_entry c a k e table)
        ≡ (if k == j then some e else find_entry c a j table)
  unfolding set_entry find_entry
  find_entry-set_entry j k e [] = refl
  find_entry-set_entry j k e ((i, old) ∷ table) = ground (arith, find_entry-set_entry j k e table)

  -- After a registration the command has the new handler and role, also if it was registered before,
  -- and every other command is as it was.
  pub find_entry-register_handler :
      (j k : ℕ) (required : Role) (fn : HandlerFn c a) (table : Dispatcher c a)
      → find_entry c a j (register_handler c a k required fn table).1 ≡ (
          if k == j then some (record { required = required; fn = fn }) else find_entry c a j table)
  unfolding register_handler
  find_entry-register_handler j k required fn table = find_entry-set_entry j k _ table
