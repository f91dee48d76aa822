-- ===== src/Project/Keeps.antt =====
-- `SetMember` and `RemoveMember` of internal/project/members.go, and the owners.
use trackstar.AppErr.{Failure, invalid_err, no_rows, or_not_found}
use trackstar.Common.{
  All-modify, Bool-cases, List, Option, [], any, any-All, arith, false, first, inl, inr, modify,
  none, not, some, true, ℕ, ◌==◌, ◌∷◌, ◌≡◌, ◌⊎◌,
}
use trackstar.Db.Accounts.{get_project, get_user}
use trackstar.Db.Ids.{Ascending-select}
use trackstar.Db.Order.{Ascending}
use trackstar.Db.Planning.{
  delete_project_member, is_member, list_project_members, upsert_project_member,
}
use trackstar.Db.Rows.{Db, MemberRow, Role}
use trackstar.Db.Tx.{or_fail}
use trackstar.Db.Tx.Frame.{in_tx-keeps}
use trackstar.Db.Tx.Hoare.{
  Hoare, Hoare-bind, Hoare-if, Hoare-map_err, Hoare-post, Hoare-pure, Hoare-refuse, OkPost,
}
use trackstar.Project.Members.{
  ensure_another_owner, owner_stays, remove_member, remove_member_body, role_eq_owner, role_valid,
  set_member, set_member_body,
}
use trackstar.Project.Owners.{
  DifferentMembers, HasOwner, UniqueMembers, backs, changed-owns, deleted-owns, members_of,
  owner_backed, owns,
}

-- The project has an owner, and its table of members has its primary key.
abbrev pub IsOwned : ℕ → Db → Type 0
IsOwned project d = UniqueMembers d × HasOwner project d

-- It does, and an owner besides `user`.
abbrev IsBacked : ℕ → ℕ → Db → Type 0
IsBacked project user d = IsOwned project d × (any (backs project user) d.members ≡ true)

ensure_another_owner-IsBacked :
    (project user : ℕ)
    → Hoare (IsOwned project) (ensure_another_owner project user) (λ _ d. IsBacked project user d)
unfolding ensure_another_owner list_project_members
ensure_another_owner-IsBacked project user = record {
  at = λ d h. elim (Bool-cases (owner_stays user (members_of project d) false)) [
    | inl stays ↦ rw stays (h, owner_backed project user d h.0 h.1 stays)
    | inr goes ↦ rw goes tt
  ];
}

delete_project_member-IsOwned :
    (project user : ℕ)
    → Hoare (IsBacked project user) (delete_project_member project user) (λ _ d. IsOwned project d)
unfolding delete_project_member
delete_project_member-IsOwned project user = record {
  at = λ d h. (
    Ascending-select DifferentMembers (λ m. not (is_member project user m)) d.members h.0.0,
    deleted-owns project user d.members h.1,
  );
}

modify-DifferentMembers :
    (project user : ℕ) (role : Role) (ms : List MemberRow)
    → Ascending DifferentMembers ms
    → Ascending DifferentMembers
        (modify (is_member project user) (λ m. record m { role = role }) ms)
modify-DifferentMembers project user role [] h = tt
modify-DifferentMembers project user role (m ∷ ms) h =
    elim (Bool-cases (is_member project user m)) [
      | inl hit ↦ rw hit (
        All-modify (DifferentMembers m) (is_member project user) _ ms (λ x differs. differs) h.0,
        modify-DifferentMembers project user role ms h.1,
      )
      | inr miss ↦ rw miss (
        All-modify (DifferentMembers m) (is_member project user) _ ms (λ x differs. differs) h.0,
        modify-DifferentMembers project user role ms h.1,
      )
    ]

set-owns :
    (project user : ℕ) (ms : List MemberRow)
    → any (is_member project user) ms ≡ true
    → any (owns project) (modify (is_member project user) (λ m. record m { role = Role.owner }) ms)
      ≡ true
set-owns project user [] e = e
set-owns project user (m ∷ ms) e = ground (arith, e, set-owns project user ms)

-- The new role is owner, or there is another owner.
abbrev Allowed : ℕ → ℕ → Role → Db → Type 0
Allowed project user role d =
    IsOwned project d × ((role_eq_owner role ≡ true) ⊎ (any (backs project user) d.members ≡ true))

upserted-owns :
    (project user : ℕ) (role : Role) (ms : List MemberRow)
    → any (is_member project user) ms ≡ true
    → (role_eq_owner role ≡ true) ⊎ (any (backs project user) ms ≡ true)
    → any (owns project) (modify (is_member project user) (λ m. record m { role = role }) ms) ≡ true
upserted-owns project user Role.owner ms there h = set-owns project user ms there
upserted-owns project user Role.member ms there (inl f) = cc
upserted-owns project user Role.member ms there (inr b) = changed-owns project user Role.member ms b
upserted-owns project user Role.unknown ms there (inl f) = cc
upserted-owns project user Role.unknown ms there (inr b) =
    changed-owns project user Role.unknown ms b

upsert_project_member-IsOwned :
    (project user : ℕ) (role : Role)
    → Hoare
        (Allowed project user role)
        (upsert_project_member project user role)
        (λ _ d. IsOwned project d)
unfolding upsert_project_member
upsert_project_member-IsOwned project user role = record {
  at = λ d h. elim (Bool-cases (any (is_member project user) d.members)) [
    | inl there ↦ rw there (
      modify-DifferentMembers project user role d.members h.0.0,
      upserted-owns project user role d.members there h.1,
    )
    | inr new ↦
        rw new ((any-All (is_member project user) d.members new, h.0.0), ground (arith, h.0.1))
  ];
}

found_keeps :
    {A : Type 0} (P : Db → Type 0) (e : Failure) (o : Option A) (d : Db)
    → P d
    → OkPost (λ (a : A) x. P x) (or_fail e o d)
found_keeps P e none d h = tt
found_keeps P e (some a) d h = h

get_project-keeps : (P : Db → Type 0) (id : ℕ) → Hoare P (get_project id) (λ _ d. P d)
unfolding get_project
get_project-keeps P id = record {
  at = λ d h. found_keeps P no_rows (first (λ p. p.id == id) d.projects) d h;
}

get_user-keeps : (P : Db → Type 0) (id : ℕ) → Hoare P (get_user id) (λ _ d. P d)
unfolding get_user
get_user-keeps P id = record {
  at = λ d h. found_keeps P no_rows (first (λ u. u.id == id) d.users) d h;
}

set_member_body-IsOwned :
    (project user : ℕ) (role : Role)
    → Hoare (IsOwned project) (set_member_body project user role) (λ _ d. IsOwned project d)
unfolding set_member_body
set_member_body-IsOwned project user role =
    Hoare-bind (λ _ d. IsOwned project d)
      (Hoare-map_err (or_not_found "project") (get_project-keeps (IsOwned project) project))
      λ p.
        Hoare-bind (λ _ d. IsOwned project d)
          (Hoare-map_err (or_not_found "user") (get_user-keeps (IsOwned project) user))
          λ u. Hoare-refuse (not u.is_active) (invalid_err "this user is deactivated") λ _.
            Hoare-bind (λ _ d. Allowed project user role d)
              (Hoare-if (role_eq_owner role) (λ owner. Hoare-pure tt (λ d h. (h, inl owner)))
                (λ _.
                  Hoare-post (λ _ d. IsBacked project user d) (λ _ d h. (h.0, inr h.1))
                    (ensure_another_owner-IsBacked project user)))
              (λ _. upsert_project_member-IsOwned project user role)

remove_member_body-IsOwned :
    (project user : ℕ)
    → Hoare (IsOwned project) (remove_member_body project user) (λ _ d. IsOwned project d)
unfolding remove_member_body
remove_member_body-IsOwned project user =
    Hoare-bind (λ _ d. IsBacked project user d) (ensure_another_owner-IsBacked project user)
      (λ _. delete_project_member-IsOwned project user)

-- A project that has an owner still has one after `RemoveMember`, whether it succeeds or is refused,
-- and a user still has one role in a project.
pub remove_member-IsOwned :
    (project user : ℕ) (d : Db)
    → IsOwned project d
    → IsOwned project (remove_member project user d).1
unfolding remove_member
remove_member-IsOwned project user =
    in_tx-keeps (IsOwned project) (remove_member_body project user)
      (remove_member_body-IsOwned project user)

-- A project that has an owner still has one after `SetMember`, whether it succeeds or is refused,
-- and a user still has one role in a project.
pub set_member-IsOwned :
    (project user : ℕ) (role : Role) (d : Db)
    → IsOwned project d
    → IsOwned project (set_member project user role d).1
unfolding set_member
set_member-IsOwned project user role d h = elim (Bool-cases (role_valid role)) [
  | inl valid ↦ rw valid (
      in_tx-keeps (IsOwned project) (set_member_body project user role)
        (set_member_body-IsOwned project user role) d h)
  | inr unknown_role ↦ rw unknown_role h
]
