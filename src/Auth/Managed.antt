-- ===== src/Auth/Managed.antt =====
-- The accounts of an installation from its first registration on, under the operations of
-- internal/auth/auth.go and internal/user/user.go.
pub mod Kept
pub mod Reach
use Prim.Native.String.{len}
use mathlib.Core.Option
use text.Mathlib.Text.{◌==◌ as str_eq}
use text.Mathlib.TextEquality.{eq_iff}
use trackstar.AppErr.{
  Failure, app, conflict_err, constraint, forbidden_err, invalid_err, no_rows, oauth,
}
use trackstar.Auth.Accounts.{
  AuthEnv, RegisterInput, bad_password, chosen_name, is_address, new_user, normalize_email,
  password_err, register, register_body,
}
use trackstar.Common.{
  All, Bool-cases, List, Option, String, [], any, arith, false, first, inl, inr, is_some, length,
  ltb, map, none, not, refl, some, sym, true, ℕ, ◌&&◌, ◌==◌, ◌∷◌, ◌≡◌,
}
use trackstar.Db.Accounts.Users.{
  count_users, create_user, get_user_by_email, has_email, new_user_row,
}
use trackstar.Db.Rows.{Db, UserRow}
use trackstar.Db.Stories.{Engine}
use trackstar.Db.Tx.{or_fail, unless_missing}
use trackstar.Db.Tx.Hoare.{Hoare, Hoare-bind, Hoare-refuse, OkPost}
use trackstar.Db.Tx.Keeps.{Keeps, Keeps-bind, Keeps-in_tx, Keeps-lift, Keeps-pure, Keeps-refuse}
use trackstar.User.{user_of}
use trackstar.User.Admins.{DifferentAccounts, IsManaged}

unless_found :
    {A : Type 0} (P : Db → Type 0) (e : Failure) (o : Option A) (d : Db)
    → P d
    → OkPost (λ (x : Option A) d. P d) (unless_missing (λ s. or_fail e o s) d)
unless_found P no_rows none d h = h
unless_found P (app k m) none d h = tt
unless_found P (oauth c) none d h = tt
unless_found P constraint none d h = tt
unless_found P e (some a) d h = h

unless_missing-keeps :
    (P : Db → Type 0) (email : String)
    → Hoare P (unless_missing (get_user_by_email email)) (λ _ d. P d)
unfolding get_user_by_email
unless_missing-keeps P email = record {
  at = λ d h. unless_found P no_rows (first (has_email email) d.users) d h;
}

-- The number of accounts is known.
abbrev Counted : ℕ → Db → Type 0
Counted n d = IsManaged d × (n ≡ length d.users)

differ_symm : (s t : String) → str_eq s t ≡ false → str_eq t s ≡ false
differ_symm s t h = elim (Bool-cases (str_eq t s)) [
  | inr e ↦ e
  | inl e ↦
      let same : str_eq s t ≡ true = (eq_iff s t).1 (sym ((eq_iff t s).0 e)) in
      absurd (ground (arith, h, same))
]

apart_from_new :
    (row : UserRow) (us : List UserRow)
    → All (λ i. (i == row.id) ≡ false) (map (λ u. u.id) us)
    → any (has_email row.email) us ≡ false
    → All (DifferentAccounts row) us
apart_from_new row [] h e = tt
apart_from_new row (u ∷ us) h e =
    let differs : str_eq u.email row.email ≡ false = ground (arith, e) in
    let flip = differ_symm u.email row.email differs in
    ((ground (arith, h.0), flip), apart_from_new row us h.1 (ground (arith, e)))

create_user-IsManaged :
    (engine : Engine) (email hash name : String) (now n : ℕ)
    → Hoare
        (Counted n)
        (create_user engine (new_user email hash name (n == 0)) now)
        (λ _ d. IsManaged d)
unfolding create_user
create_user-IsManaged engine email hash name now n = record {
  at = λ d h. elim (Bool-cases (any (has_email email) d.users)) [
    | inl taken ↦ rw taken tt
    | inr new ↦
        let id = engine.fresh_id (map (λ u. u.id) d.users) in
        let row = new_user_row (new_user email hash name (n == 0)) id now in
        rw new (
          (apart_from_new row d.users (engine.fresh_id_new (map (λ u. u.id) d.users)) new, h.0.0),
          ground (arith, h.0.1, h.1),
        )
  ];
}

counts : Hoare IsManaged count_users (λ n d. Counted n d)
unfolding count_users
counts = record { at = λ d h. (h, refl) }

register_body-IsManaged :
    (env : AuthEnv) (now : ℕ) (email hash name : String)
    → Hoare IsManaged (register_body env now email hash name) (λ _ d. IsManaged d)
unfolding register_body
register_body-IsManaged env now email hash name =
    Hoare-bind (λ n d. Counted n d) counts
      λ n.
        Hoare-refuse (ltb 0 n && not env.allow_registration)
          (forbidden_err "registration is disabled")
          λ _.
            Hoare-bind (λ _ d. Counted n d) (unless_missing-keeps (Counted n) email)
              λ taken.
                Hoare-refuse (is_some taken)
                  (conflict_err "an account with this email already exists")
                  (λ _. create_user-IsManaged env.engine email hash name now n)

pub register-IsManaged :
    (env : AuthEnv) (salt : String) (now : ℕ) (input : RegisterInput)
    → Keeps IsManaged (register env salt now input)
unfolding register
register-IsManaged env salt now input =
    let email = normalize_email env input.email in
    let name = chosen_name input.display_name email in
    Keeps-refuse (not (is_address env email)) (invalid_err "a valid email address is required") λ _.
      Keeps-refuse (ltb 100 (len name)) (invalid_err "display name is too long") λ _.
        Keeps-refuse (bad_password input.password) password_err λ _.
          Keeps-bind (Keeps-lift (env.generate_hash salt input.password)) λ hash.
            Keeps-bind (Keeps-in_tx (register_body-IsManaged env now email hash name))
              (λ row. Keeps-pure (user_of row))
