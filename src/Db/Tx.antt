-- ===== src/Db/Tx.antt =====
-- Statements that read and write the database and may fail, and `InTx` of
-- internal/database/database.go. What was written before a failure stays written until a
-- transaction is rolled back.
pub mod Hoare
pub mod Frame
pub mod Keeps
use trackstar.AppErr.{Failure, is_not_found}
use trackstar.Common.{Bool, Option, if◌then◌else◌, none, some}
use trackstar.Db.Rows.{Db}

pub data Result (A : Type 0) : Type 0 where
  ok : A → Result A
  err : Failure → Result A

abbrev pub Tx : Type 0 → Type 0
Tx A = Db → Result A × Db

module _ {A : Type 0} where
  abbrev pub pure : A → Tx A
  pure a d = (ok a, d)

  abbrev pub fail : Failure → Tx A
  fail e d = (err e, d)

  abbrev pub gets : (Db → A) → Tx A
  gets f d = (ok (f d), d)

  abbrev pub or_fail : Failure → Option A → Tx A
  or_fail e none d = (err e, d)
  or_fail e (some a) d = (ok a, d)

  -- `if err != nil { return wrap(err) }`
  abbrev pub map_err : (Failure → Failure) → Tx A → Tx A
  map_err f m d = let (r, d') = m d in elim r [ ok a ↦ (ok a, d') | err e ↦ (err (f e), d') ]

  -- What is looked up may be missing; any other failure is passed on.
  abbrev pub unless_missing : Tx A → Tx (Option A)
  unless_missing m d =
      let (r, d') = m d in
      elim r [
        | ok a ↦ (ok (some a), d')
        | err e ↦ if is_not_found e then (ok none, d') else (err e, d')
      ]

  -- A failed transaction leaves the database as it was.
  abbrev pub rolled_back : Result A → Db → Db → Result A × Db
  rolled_back (ok a) before after = (ok a, after)
  rolled_back (err e) before after = (err e, before)

  unfoldable pub in_tx : Tx A → Tx A
  in_tx m d = let (r, d') = m d in rolled_back r d d'

abbrev pub update : (Db → Db) → Tx Unit
update f d = (ok tt, f d)

infixl 5 ◌>>=◌ ◌>>◌
abbrev pub ◌>>=◌ : {A B : Type 0} → Tx A → (A → Tx B) → Tx B
◌>>=◌ m f d = let (r, d') = m d in elim r [ ok a ↦ f a d' | err e ↦ (err e, d') ]

abbrev pub ◌>>◌ : {B : Type 0} → Tx Unit → Tx B → Tx B
m >> k = m >>= λ _. k

-- `if test { return err }`
abbrev pub refuse_if : Bool → Failure → Tx Unit
refuse_if b e d = (if b then err e else ok tt, d)
