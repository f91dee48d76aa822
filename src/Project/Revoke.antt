-- ===== src/Project/Revoke.antt =====
-- What `AccessFor` says of a user whom `RemoveMember` has removed.
use trackstar.Common.{
  Bool-cases, List, [], any, arith, false, first, inl, inr, is_some, length, none, not, refl,
  select, some, subst, sym, true, ℕ, ◌==◌, ◌∷◌, ◌≡◌,
}
use trackstar.Db.Accounts.{get_project}
use trackstar.Db.Planning.{
  delete_project_member, get_project_member, is_member, list_project_members,
}
use trackstar.Db.Rows.{Db, MemberRow, ProjectRow}
use trackstar.Db.Tx.{Result, in_tx, ok}
use trackstar.Project.Keeps.{IsOwned, remove_member-IsOwned}
use trackstar.Project.Members.{
  access_for, ensure_another_owner, membership_access, no_access, owner_stays, remove_member,
  remove_member_body,
}
use trackstar.Project.Owners.{members_of, owns}

remove_runs :
    (project user : ℕ) (d d' : Db)
    → remove_member project user d ≡ (ok tt, d')
    → d' ≡ record d { members = select (λ m. not (is_member project user m)) d.members }
unfolding remove_member remove_member_body ensure_another_owner list_project_members
    delete_project_member in_tx
remove_runs project user d d' e =
    elim (Bool-cases (owner_stays user (members_of project d) false)) [
      | inl stays ↦ ground (arith, stays, e)
      | inr goes ↦ absurd (ground (arith, goes, e))
    ]

first-deleted :
    (project user : ℕ) (ms : List MemberRow)
    → first (is_member project user) (select (λ m. not (is_member project user m)) ms) ≡ none
first-deleted project user [] = refl
first-deleted project user (m ∷ ms) = ground (arith, first-deleted project user ms)

owned_counts :
    (project : ℕ) (ms : List MemberRow)
    → any (owns project) ms ≡ true
    → (length (select (λ m. m.project_id == project) ms) == 0) ≡ false
owned_counts project [] e = cc
owned_counts project (m ∷ ms) e = ground (arith, e, owned_counts project ms)

-- In a project with an owner, a user whom `RemoveMember` has removed may do nothing any more unless
-- they are an administrator: `AccessFor` grants neither reading, writing nor managing.
pub remove_member-access_for :
    (project user : ℕ) (p : ProjectRow) (d d' : Db)
    → IsOwned project d
    → first (λ q. q.id == project) d.projects ≡ some p
    → remove_member project user d ≡ (ok tt, d')
    → access_for project user false d'
      ≡ (ok (record no_access { archived = is_some p.archived_at }), d')
unfolding access_for membership_access get_project get_project_member
remove_member-access_for project user p d d' owned found e =
    let after = remove_runs project user d d' e in
    let still = remove_member-IsOwned project user d owned in
    let counts =
      owned_counts project d'.members
        (subst (λ (r : Result Unit × Db). any (owns project) r.1.members ≡ true) e still.1) in
    let missing : first (is_member project user) d'.members ≡ none =
      subst (λ (x : Db). first (is_member project user) x.members ≡ none) (sym after)
        (first-deleted project user d.members) in
    let there : first (λ q. q.id == project) d'.projects ≡ some p =
      subst (λ (x : Db). first (λ q. q.id == project) x.projects ≡ some p) (sym after) found in
    ground (arith, counts, missing, there)
