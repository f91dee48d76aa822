-- ===== src/User/Admins.antt =====
-- The accounts of an installation and its administrators, under `UpdateUser` of
-- internal/database/dbgen/users.sql.go and `Update` of internal/user/user.go.
use text.Mathlib.Text.{◌==◌ as str_eq}
use trackstar.Common.{
  All, Bool, Bool-cases, List, [], any, arith, false, first, inl, inr, length, modify, not, refl,
  select, some, true, ℕ, ◌&&◌, ◌==◌, ◌||◌, ◌∷◌, ◌≡◌, ◌≤◌,
}
use trackstar.Db.Accounts.Users.{has_user_id, is_active_admin}
use trackstar.Db.Order.{Ascending}
use trackstar.Db.Rows.{Db, UserRow}

-- No two accounts share an id or an email.
abbrev pub DifferentAccounts : UserRow → UserRow → Type 0
DifferentAccounts a b = ((a.id == b.id) ≡ false) × (str_eq a.email b.email ≡ false)

abbrev pub no_users : List UserRow → Bool
no_users us = length us == 0

-- Accounts are told apart, and once there are any, one is an active administrator.
abbrev pub IsManaged : Db → Type 0
IsManaged d =
    Ascending DifferentAccounts d.users × ((no_users d.users || any is_active_admin d.users) ≡ true)

-- An active administrator besides the user with the given id.
abbrev pub another_admin : ℕ → UserRow → Bool
another_admin id u = is_active_admin u && not (has_user_id id u)

none_has_id :
    (id : ℕ) (x : UserRow) (us : List UserRow)
    → has_user_id id x ≡ true
    → All (DifferentAccounts x) us
    → any is_active_admin us ≡ true
    → any (another_admin id) us ≡ true
none_has_id id x [] e h a = a
none_has_id id x (u ∷ us) e h a =
    ground (arith, e, h.0.0, a, λ (r : any is_active_admin us ≡ true). none_has_id id x us e h.1 r)

counted-any :
    (us : List UserRow) → 1 ≤ length (select is_active_admin us) → any is_active_admin us ≡ true
counted-any [] h = absurd (omega arith)
counted-any (u ∷ us) h = elim (Bool-cases (is_active_admin u)) [
  | inl e ↦ ground (arith, e)
  | inr e ↦ let rest = counted-any us (ground (arith, e, h)) in ground (arith, e, rest)
]

-- Where two are counted, one is another.
pub two_admins :
    (id : ℕ) (us : List UserRow)
    → Ascending DifferentAccounts us
    → 2 ≤ length (select is_active_admin us)
    → any (another_admin id) us ≡ true
two_admins id [] s h = absurd (omega arith)
two_admins id (u ∷ us) s h = elim (Bool-cases (is_active_admin u)) [
  | inl a ↦
      let left = counted-any us (ground (arith, a, h)) in
      elim (Bool-cases (has_user_id id u)) [
        | inl e ↦ let rest = none_has_id id u us e s.0 left in ground (arith, a, e, rest)
        | inr e ↦ ground (arith, a, e)
      ]
  | inr a ↦ let rest = two_admins id us s.1 (ground (arith, a, h)) in ground (arith, a, rest)
]

-- Where the user is no active administrator, whoever is one is another.
pub admin_elsewhere :
    (id : ℕ) (u : UserRow) (us : List UserRow)
    → Ascending DifferentAccounts us
    → first (has_user_id id) us ≡ some u
    → is_active_admin u ≡ false
    → any is_active_admin us ≡ true
    → any (another_admin id) us ≡ true
admin_elsewhere id u [] s f n a = a
admin_elsewhere id u (x ∷ us) s f n a = elim (Bool-cases (has_user_id id x)) [
  | inl e ↦
      let same : x ≡ u = ground (arith, e, f) in
      let lacks : is_active_admin x ≡ false = rw same n in
      let rest = none_has_id id x us e s.0 (ground (arith, lacks, a)) in ground (arith, e, rest)
  | inr e ↦ elim (Bool-cases (is_active_admin x)) [
    | inl b ↦ ground (arith, e, b)
    | inr b ↦
        let rest = admin_elsewhere id u us s.1 (ground (arith, e, f)) n (ground (arith, b, a)) in
        ground (arith, e, rest)
  ]
]

pub another-stays :
    (id : ℕ) (f : UserRow → UserRow) (us : List UserRow)
    → any (another_admin id) us ≡ true
    → any is_active_admin (modify (has_user_id id) f us) ≡ true
another-stays id f [] a = a
another-stays id f (u ∷ us) a =
    ground (arith, a, λ (r : any (another_admin id) us ≡ true). another-stays id f us r)

pub made-admin :
    (id : ℕ) (f : UserRow → UserRow) (u : UserRow) (us : List UserRow)
    → first (has_user_id id) us ≡ some u
    → ((x : UserRow) → is_active_admin (f x) ≡ true)
    → any is_active_admin (modify (has_user_id id) f us) ≡ true
made-admin id f u [] e h = absurd (ground (arith, e))
made-admin id f u (x ∷ us) e h = elim (Bool-cases (has_user_id id x)) [
  | inl hit ↦ let now = h x in ground (arith, hit, now)
  | inr miss ↦
      let rest = made-admin id f u us (ground (arith, miss, e)) h in ground (arith, miss, rest)
]

-- Rewriting rows without touching ids and emails keeps the accounts apart.
module _ (p : UserRow → Bool) (f : UserRow → UserRow)
    (same : (u : UserRow) → ((f u).id ≡ u.id) × ((f u).email ≡ u.email)) where
  all-apart :
      (x y : UserRow) (us : List UserRow)
      → y.id ≡ x.id
      → y.email ≡ x.email
      → All (DifferentAccounts x) us
      → All (DifferentAccounts y) (modify p f us)
  all-apart x y [] i m h = tt
  all-apart x y (u ∷ us) i m h = elim (Bool-cases (p u)) [
    | inl e ↦ rw (e, (same u).0, (same u).1, i, m) (h.0, all-apart x y us i m h.1)
    | inr e ↦ rw (e, i, m) (h.0, all-apart x y us i m h.1)
  ]

  pub modify-apart :
      (us : List UserRow)
      → Ascending DifferentAccounts us
      → Ascending DifferentAccounts (modify p f us)
  modify-apart [] h = tt
  modify-apart (u ∷ us) h = elim (Bool-cases (p u)) [
    | inl e ↦ rw e (all-apart u (f u) us (same u).0 (same u).1 h.0, modify-apart us h.1)
    | inr e ↦ rw e (all-apart u u us refl refl h.0, modify-apart us h.1)
  ]
