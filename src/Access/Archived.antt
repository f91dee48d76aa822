-- ===== src/Access/Archived.antt =====
-- Requests of internal/api/access.go in a project that `SetArchived` of internal/project/project.go
-- has archived.
use mathlib.Core.Option.{some-injective}
use trackstar.Access.{authorize, judged, write_access}
use trackstar.AppErr.{or_not_found}
use trackstar.Common.{
  Bool, Bool-cases, Option-cases, arith, false, first, first-modify-kept, first_passes,
  if◌then◌else◌, inl, inr, is_some, modify, refl, some, subst, sym, true, ℕ, ◌==◌, ◌∙◌, ◌≡◌,
}
use trackstar.Db.Accounts.{get_project}
use trackstar.Db.Rows.{Db, ProjectRow}
use trackstar.Db.Tx.{Result, err, ok, pure, ◌>>=◌}
use trackstar.Db.Tx.Hoare.{
  Hoare, Hoare-any, Hoare-bind, Hoare-if, Hoare-map_err, Hoare-post, Hoare-pure, Hoare-weaken,
  OkPost,
}
use trackstar.Db.Tx.Keeps.{Hoare-in_tx}
use trackstar.Project.Members.{Access, access_for, membership_access}
use trackstar.Project.Settings.{
  same_bool, set_archived, set_archived_body, set_project_archived, write_project,
}

-- The project is archived.
record IsArchived (id : ℕ) (d : Db) : Type 0 where
  row : ProjectRow
  found : first (λ p. p.id == id) d.projects ≡ some row
  dated : is_some row.archived_at ≡ true

-- Failures, and answers of which nothing is said.
abbrev pub is_refused : Result Unit → Bool
is_refused (ok u) = false
is_refused (err e) = true

never_write : (a : Access) → a.archived ≡ true → is_refused (judged write_access a) ≡ true
never_write a h = elim (Bool-cases a.read) [
  | inl r ↦ ground (arith, r, h)
  | inr r ↦ ground (arith, r)
]

get_project-found :
    (P : Db → Type 0) (id : ℕ)
    → Hoare P (get_project id) (λ p d. P d × (first (λ q. q.id == id) d.projects ≡ some p))
unfolding get_project
get_project-found P id = record {
  at = λ d h. elim (Option-cases (first (λ q. q.id == id) d.projects)) [
    | inl missing ↦ rw missing tt
    | inr found ↦ rw found.1 (h, found.1)
  ];
}

get_project-IsArchived :
    (id : ℕ) → Hoare (IsArchived id) (get_project id) (λ p d. is_some p.archived_at ≡ true)
get_project-IsArchived id =
    Hoare-post (λ p d. IsArchived id d × (first (λ q. q.id == id) d.projects ≡ some p))
      (λ p d h.
        subst (λ (q : ProjectRow). is_some q.archived_at ≡ true)
          (some-injective h.0.row p (sym h.0.found ∙ h.1)) h.0.dated)
      (get_project-found (IsArchived id) id)

marked :
    (project user : ℕ) (is_admin : Bool) (p : ProjectRow)
    → is_some p.archived_at ≡ true
    → Hoare
        (λ d. Unit)
        (membership_access project user is_admin >>= λ a.
          pure (if is_some p.archived_at then record a { write = false; archived = true } else a))
        (λ a d. a.archived ≡ true)
marked project user is_admin p dated =
    Hoare-bind (λ a d. Unit) (Hoare-any (membership_access project user is_admin))
      (λ a. Hoare-pure _ (λ d h. ground (arith, dated)))

access_for-archived :
    (project user : ℕ) (is_admin : Bool)
    → Hoare (IsArchived project) (access_for project user is_admin) (λ a d. a.archived ≡ true)
unfolding access_for
access_for-archived project user is_admin =
    Hoare-bind {A = ProjectRow} (λ p d. is_some p.archived_at ≡ true)
      (Hoare-map_err (or_not_found "project") (get_project-IsArchived project))
      (λ p. record { at = λ d dated. (marked project user is_admin p dated).at d tt })

same_true : (b : Bool) → same_bool b true ≡ true → b ≡ true
same_true true h = refl
same_true false h = h

write_project-IsArchived :
    (now id : ℕ) (p : ProjectRow)
    → Hoare {A = Unit}
        (λ d. Unit × (first (λ q. q.id == id) d.projects ≡ some p))
        (write_project id (λ q. record q { archived_at = some now; updated_at = now }))
        (λ _ d. IsArchived id d)
write_project-IsArchived now id p = record {
  at = λ d h.
      let f = λ (q : ProjectRow). record q { archived_at = some now; updated_at = now } in
      let there =
        first-modify-kept (λ q. q.id == id) (λ q. q.id == id) f d.projects (λ q. refl) h.1 in
      let hit = first_passes (λ q. q.id == id) d.projects h.1 in
      record {
        row = f p;
        found =
            subst
              (λ (b : Bool).
                first (λ q. q.id == id) (modify (λ q. q.id == id) f d.projects)
                ≡ some (if b then f p else p))
              hit there;
        dated = refl;
      };
}

set_project_archived-IsArchived :
    (now id : ℕ) (p : ProjectRow)
    → Hoare
        (λ d. Unit × (first (λ q. q.id == id) d.projects ≡ some p))
        (set_project_archived id (some now) now)
        (λ row d. IsArchived id d)
unfolding set_project_archived
set_project_archived-IsArchived now id p =
    Hoare-bind {A = Unit} (λ _ d. IsArchived id d) (write_project-IsArchived now id p)
      (λ _.
        Hoare-post (λ q d. IsArchived id d × (first (λ x. x.id == id) d.projects ≡ some q))
          (λ q d h. h.0) (get_project-found (IsArchived id) id))

refused_at :
    (r : Result Access) (x d : Db)
    → OkPost (λ a y. a.archived ≡ true) (r, x)
    → is_refused (((λ (s : Db). (r, x)) >>= λ a s. (judged write_access a, s)) d).0 ≡ true
refused_at (ok a) x d h = never_write a h
refused_at (err f) x d h = refl

set_archived_body-IsArchived :
    (now id : ℕ) → Hoare (λ d. Unit) (set_archived_body now id true) (λ row d. IsArchived id d)
unfolding set_archived_body
set_archived_body-IsArchived now id =
    Hoare-bind (λ p d. Unit × (first (λ q. q.id == id) d.projects ≡ some p))
      (Hoare-map_err (or_not_found "project") (get_project-found (λ d. Unit) id))
      λ p.
        Hoare-if (same_bool (is_some p.archived_at) true)
          (λ already.
            Hoare-weaken
              (λ d h. record {
                row = p;
                found = h.1;
                dated = same_true (is_some p.archived_at) already;
              })
              (Hoare-post (λ q d. IsArchived id d × (first (λ x. x.id == id) d.projects ≡ some q))
                (λ q d h. h.0) (get_project-found (IsArchived id) id)))
          (λ open_now. set_project_archived-IsArchived now id p)

-- A project that `SetArchived` has archived takes no changes: `authorize` refuses every request to
-- write in it, of members, owners and administrators alike.
pub set_archived-authorize :
    (now id user : ℕ) (is_admin : Bool) (row : ProjectRow) (d d' : Db)
    → set_archived now id true d ≡ (ok row, d')
    → is_refused (authorize id user is_admin write_access d').0 ≡ true
unfolding set_archived authorize
set_archived-authorize now id user is_admin row d d' e =
    let archived : IsArchived id d' =
      subst (OkPost (λ r x. IsArchived id x)) e
        ((Hoare-in_tx (λ r x. IsArchived id x) (set_archived_body-IsArchived now id)).at d tt) in
    let (r, x) = access_for id user is_admin d' in
    refused_at r x d' ((access_for-archived id user is_admin).at d' archived)
