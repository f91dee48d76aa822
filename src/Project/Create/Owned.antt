-- ===== src/Project/Create/Owned.antt =====
-- A project that `Create` of internal/project/project.go has made.
use trackstar.Common.{
  Bool, Bool-cases, List, Option-cases, [], any, arith, false, first, inl, inr, map, modify, not,
  some, true, ℕ, ◌&&◌, ◌==◌, ◌∷◌, ◌≡◌,
}
use trackstar.Db.Accounts.{get_user}
use trackstar.Db.Planning.{is_member, upsert_project_member}
use trackstar.Db.Rows.{Db, MemberRow, ProjectRow, Role, UserRow}
use trackstar.Db.Tx.{Result, err, in_tx, ok}
use trackstar.Project.Create.{
  CreateEnv, combine_of, create_body, create_owned, create_project, default_settings,
}
use trackstar.Project.Members.{role_eq_owner}
use trackstar.Project.Settings.{ProjectInput, Settings, apply}
use trackstar.Project.Slug.{has_slug, unique_slug}
use trackstar.Project.Slug.Ends.{unique_slug_ends}

abbrev pub is_owned_by : ℕ → ℕ → MemberRow → Bool
is_owned_by project user m = is_member project user m && role_eq_owner m.role

-- A new project with a slug of its own, of which the user is an owner.
abbrev pub is_created : ℕ → Db → Result ProjectRow × Db → Bool
is_created owner before (err e, d) = false
is_created owner before (ok row, d) =
    not (any (has_slug row.slug) before.projects)
    && any (λ p. p.id == row.id) d.projects
    && any (is_owned_by row.id owner) d.members

made_owner :
    (project user : ℕ) (ms : List MemberRow)
    → any (is_member project user) ms ≡ true
    → any
        (is_owned_by project user)
        (modify (is_member project user) (λ m. record m { role = Role.owner }) ms)
      ≡ true
made_owner project user [] h = absurd (ground (arith, h))
made_owner project user (m ∷ ms) h =
    ground (arith, h, λ (r : any (is_member project user) ms ≡ true). made_owner project user ms r)

make_owner-owned :
    (project user : ℕ) (d : Db)
    → any (is_owned_by project user) (upsert_project_member project user Role.owner d).1.members
      ≡ true
unfolding upsert_project_member
make_owner-owned project user d = elim (Bool-cases (any (is_member project user) d.members)) [
  | inl there ↦ let made = made_owner project user d.members there in ground (arith, there, made)
  | inr new ↦ ground (arith, new)
]

-- `Create` with settings that `apply` accepts succeeds for a creator that there is: the project gets
-- a slug that no other has, and its creator is an owner.
pub create_owned-is_created :
    (env : CreateEnv) (now owner : ℕ) (input : ProjectInput) (u : UserRow) (s : Settings) (d : Db)
    → (owner == 0) ≡ false
    → first (λ x. x.id == owner) d.users ≡ some u
    → apply input (default_settings u.default_combine_icebox_backlog) ≡ ok s
    → is_created owner d (create_owned env now owner input d) ≡ true
unfolding create_owned create_body combine_of create_project get_user in_tx upsert_project_member
create_owned-is_created env now owner input u s d real found good =
    let ends = unique_slug_ends env.slugs s.name d.projects in
    elim (Option-cases (unique_slug env.slugs s.name d.projects)) [
      | inl missing ↦ absurd (ground (arith, ends, missing))
      | inr (slug, chosen) ↦
          let id = env.engine.fresh_id (map (λ p. p.id) d.projects) in
          let free : any (has_slug slug) d.projects ≡ false = ground (arith, ends, chosen) in
          let owned = make_owner-owned id owner d in
          ground (arith, real, found, good, chosen, free, owned)
    ]
