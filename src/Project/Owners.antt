-- ===== src/Project/Owners.antt =====
-- The owners of a project, and `ensureAnotherOwner` of internal/project/members.go.
use trackstar.Common.{
  ==_iff, All, All-any, All-both, All-imp, All-select, All-unselect, Bool, Bool-cases, List, [],
  any, any-All, arith, false, inl, inr, leb, modify, not, refl, select, select_passes, subst, true,
  ℕ, ◌&&◌, ◌==◌, ◌∷◌, ◌≡◌,
}
use trackstar.Db.Order.{All-sort_by, All-unsort, Ascending, Ascending-sort_symm, sort_by}
use trackstar.Db.Planning.{is_member}
use trackstar.Db.Rows.{Db, MemberRow, Role}
use trackstar.Project.Members.{owner_stays, role_eq_owner}

abbrev pub owns : ℕ → MemberRow → Bool
owns project m = m.project_id == project && role_eq_owner m.role

abbrev pub HasOwner : ℕ → Db → Type 0
HasOwner project d = any (owns project) d.members ≡ true

-- The primary key of the table: a project and a user.
abbrev pub DifferentMembers : MemberRow → MemberRow → Type 0
DifferentMembers a b = is_member a.project_id a.user_id b ≡ false

abbrev pub UniqueMembers : Db → Type 0
UniqueMembers d = Ascending DifferentMembers d.members

-- In the list of one project the users differ.
abbrev DifferentUsers : MemberRow → MemberRow → Type 0
DifferentUsers a b = (b.user_id == a.user_id) ≡ false

abbrev other_owner : ℕ → MemberRow → Bool
other_owner user m = not (m.user_id == user) && role_eq_owner m.role

stays_past :
    (user : ℕ) (ms : List MemberRow) (b : Bool)
    → All (λ m. (m.user_id == user) ≡ false) ms
    → any (other_owner user) ms ≡ false
    → owner_stays user ms b ≡ not b
unfolding owner_stays
stays_past user [] b h e = refl
stays_past user (m ∷ ms) b h e = ground (arith, h.0, e, stays_past user ms b h.1)

others_not_owner :
    (user : ℕ) (ms : List MemberRow)
    → All (λ m. (m.user_id == user) ≡ false) ms
    → any (other_owner user) ms ≡ false
    → All (λ m. role_eq_owner m.role ≡ false) ms
others_not_owner user [] h e = tt
others_not_owner user (m ∷ ms) h e =
    (ground (arith, h.0, e), others_not_owner user ms h.1 (ground (arith, h.0, e)))

-- Where the check passes and there is no other owner, the user is none either.
not_owner :
    (user : ℕ) (ms : List MemberRow)
    → Ascending DifferentUsers ms
    → any (other_owner user) ms ≡ false
    → owner_stays user ms false ≡ true
    → All (λ m. role_eq_owner m.role ≡ false) ms
unfolding owner_stays
not_owner user [] h e s = tt
not_owner user (m ∷ ms) h e s = elim (Bool-cases (m.user_id == user)) [
  | inl hit ↦
      let rest : any (other_owner user) ms ≡ false = ground (arith, hit, e) in
      let away : All (λ x. (x.user_id == user) ≡ false) ms =
        All-imp ms
          (λ x differs.
            subst (λ u. (x.user_id == u) ≡ false) ((==_iff m.user_id user).0 hit) differs)
          h.0 in
      (
        ground (arith, hit, s, stays_past user ms (role_eq_owner m.role) away rest),
        others_not_owner user ms away rest,
      )
  | inr miss ↦ (
    ground (arith, miss, e),
    not_owner user ms h.1 (ground (arith, miss, e)) (ground (arith, miss, e, s)),
  )
]

lacks_owner :
    (project : ℕ) (m : MemberRow)
    → ((m.project_id == project) ≡ true → role_eq_owner m.role ≡ false)
    → owns project m ≡ false
lacks_owner project m f = elim (Bool-cases (m.project_id == project)) [
  | inl here ↦ ground (arith, here, f here)
  | inr there ↦ ground (arith, there)
]

selected_users :
    (project : ℕ) (ms : List MemberRow)
    → Ascending DifferentMembers ms
    → Ascending DifferentUsers (select (λ m. m.project_id == project) ms)
selected_users project [] h = tt
selected_users project (m ∷ ms) h = elim (Bool-cases (m.project_id == project)) [
  | inl hit ↦
      let kept : List MemberRow = select (λ x. x.project_id == project) ms in
      let away : All (DifferentUsers m) kept =
        All-both kept (λ x here differs. ground (arith, hit, here, differs))
          (select_passes (λ x. x.project_id == project) ms)
          (All-select (DifferentMembers m) (λ x. x.project_id == project) ms h.0) in
      rw hit (away, selected_users project ms h.1)
  | inr miss ↦ rw miss (selected_users project ms h.1)
]

-- Another owner than `user`.
abbrev pub backs : ℕ → ℕ → MemberRow → Bool
backs project user m = owns project m && not (m.user_id == user)

abbrev pub members_of : ℕ → Db → List MemberRow
members_of project d =
    sort_by (λ a b. leb a.user_id b.user_id) (select (λ m. m.project_id == project) d.members)

pub owner_backed :
    (project user : ℕ) (d : Db)
    → UniqueMembers d
    → HasOwner project d
    → owner_stays user (members_of project d) false ≡ true
    → any (backs project user) d.members ≡ true
owner_backed project user d unique owned s =
    elim (Bool-cases (any (backs project user) d.members)) [
      | inl there ↦ there
      | inr missing ↦
          let in_project : MemberRow → Bool = λ m. m.project_id == project in
          let le : MemberRow → MemberRow → Bool = λ a b. leb a.user_id b.user_id in
          let kept : List MemberRow = select in_project d.members in
          let none_else : All (λ m. other_owner user m ≡ false) kept =
            All-both kept (λ m here lacks. ground (arith, here, lacks))
              (select_passes in_project d.members)
              (All-select (λ m. backs project user m ≡ false) in_project d.members
                (any-All (backs project user) d.members missing)) in
          let no_owner : All (λ m. role_eq_owner m.role ≡ false) (sort_by le kept) =
            not_owner user (sort_by le kept)
              (Ascending-sort_symm DifferentUsers (λ a b h. ground (arith, h)) le kept
                (selected_users project d.members unique))
              (All-any (other_owner user) (sort_by le kept)
                (All-sort_by (λ m. other_owner user m ≡ false) le kept none_else))
              s in
          let gone : any (owns project) d.members ≡ false = All-any (owns project) d.members (
            All-imp d.members (λ m f. lacks_owner project m f)
              (All-unselect (λ m. role_eq_owner m.role ≡ false) in_project d.members
                (All-unsort (λ m. role_eq_owner m.role ≡ false) le kept no_owner))) in
          absurd (ground (arith, owned, gone))
    ]

pub deleted-owns :
    (project user : ℕ) (ms : List MemberRow)
    → any (backs project user) ms ≡ true
    → any (owns project) (select (λ m. not (is_member project user m)) ms) ≡ true
deleted-owns project user [] e = e
deleted-owns project user (m ∷ ms) e = ground (arith, e, deleted-owns project user ms)

pub changed-owns :
    (project user : ℕ) (role : Role) (ms : List MemberRow)
    → any (backs project user) ms ≡ true
    → any (owns project) (modify (is_member project user) (λ m. record m { role = role }) ms) ≡ true
changed-owns project user role [] e = e
changed-owns project user role (m ∷ ms) e = ground (arith, e, changed-owns project user role ms)
