-- ===== src/Story/Blockers/Acyclic.antt =====
-- `setBlockers` of internal/story/tasks.go, and cycles of blockers.
use mathlib.Core.List.{reverse, reverse_aux}
use trackstar.Common.{
  ==_iff, All, Bool-cases, List, [], any, arith, false, inl, inr, length, ltb, not, refl, select,
  subst, sym, true, ℕ, ◌&&◌, ◌==◌, ◌∷◌, ◌≡◌, ◌⊎◌,
}
use trackstar.Db.Planning.{add_story_blocker, clear_story_blockers}
use trackstar.Db.Rows.{BlockerRow, Db, StoryRow}
use trackstar.Db.Stories.{find_story}
use trackstar.Db.Tx.{ok}
use trackstar.Db.Tx.Hoare.{Hoare, Hoare-bind, Hoare-given, Hoare-pure, Hoare-refuse, OkPost}
use trackstar.Story.Blockers.{
  add_blockers, check_blockers, not_in_project, reaches, set_blockers, too_many_blockers,
}
use trackstar.Story.Blockers.Search.{Edge, Waits, lists, more, one, reaches_complete, Waits-trans}

-- No story waits on itself, directly or through others.
abbrev pub Acyclic : Db → Type 0
Acyclic d = (s : ℕ) → ¬ Waits d s s

-- A story that `story` may list: not itself, and no chain of blockers leads from it to `story`.
abbrev IsFine : Db → ℕ → ℕ → Type 0
IsFine d story id = ((id == story) ≡ false) × (¬ Waits d id story)

-- `e` has the links of `d`, but for those of `story`, which are fine.
abbrev Relinked : Db → ℕ → Db → Type 0
Relinked d story e = (a b : ℕ) → Edge e a b → ((a ≡ story) × IsFine d story b) ⊎ Edge d a b

module _ (d : Db) (story : ℕ) (e : Db) (linked : Relinked d story e) where
  -- A chain from a fine story stays among the links of `d`.
  old_chain : (a b : ℕ) → IsFine d story a → Waits e a b → Waits d a b
  old_chain a b fine (one edge) = elim (linked a b edge) [
    | inl (same, _) ↦ absurd (ground (arith, same, fine.0))
    | inr old ↦ one old
  ]
  old_chain a b fine (more {b = m} edge w) = elim (linked a m edge) [
    | inl (same, _) ↦ absurd (ground (arith, same, fine.0))
    | inr old ↦ elim (Bool-cases (m == story)) [
      | inl arrived ↦ absurd (fine.1 (subst (Waits d a) ((==_iff m story).0 arrived) (one old)))
      | inr on ↦ more old (old_chain m b (on, λ v. fine.1 (more old v)) w)
    ]
  ]

  -- A chain that passes `story` goes on from there through a fine story.
  passes :
      (a b : ℕ)
      → Waits e a b
      → Waits d a b
        ⊎ ((c : ℕ) × IsFine d story c × ((a ≡ story) ⊎ Waits d a story) × ((c ≡ b) ⊎ Waits d c b))
  passes a b (one edge) = elim (linked a b edge) [
    | inl (same, fine) ↦ inr (b, fine, inl same, inl refl)
    | inr old ↦ inl (one old)
  ]
  passes a b (more {b = m} edge w) = elim (linked a m edge) [
    | inl (same, fine) ↦ inr (m, fine, inl same, inr (old_chain m b fine w))
    | inr old ↦ elim (passes m b w) [
      | inl v ↦ inl (more old v)
      | inr (c, fine, inl same, rest) ↦ inr (c, fine, inr (subst (Waits d a) same (one old)), rest)
      | inr (c, fine, inr v, rest) ↦ inr (c, fine, inr (more old v), rest)
    ]
  ]

  no_return :
      (s c : ℕ) → IsFine d story c → (s ≡ story) ⊎ Waits d s story → ¬ ((c ≡ s) ⊎ Waits d c s)
  no_return s c fine (inl same) (inl e') = ground (arith, same, e', fine.0)
  no_return s c fine (inl same) (inr w) = fine.1 (subst (Waits d c) same w)
  no_return s c fine (inr v) (inl e') = fine.1 (subst (λ x. Waits d x story) (sym e') v)
  no_return s c fine (inr v) (inr w) = fine.1 (Waits-trans w v)

  Relinked-Acyclic : Acyclic d → Acyclic e
  Relinked-Acyclic acyclic s w = elim (passes s s w) [
    | inl old ↦ acyclic s old
    | inr (c, fine, before, rest) ↦ no_return s c fine before rest
  ]

-- A database that is known.
abbrev Is : Db → Db → Type 0
Is d e = e ≡ d

check_blockers-IsFine :
    (story : StoryRow) (ids clean : List ℕ) (d : Db)
    → All (IsFine d story.id) clean
    → OkPost (λ r e. (e ≡ d) × All (IsFine d story.id) r) (check_blockers story ids clean d)
unfolding check_blockers
check_blockers-IsFine story [] clean d h = (refl, h)
check_blockers-IsFine story (id ∷ ids) clean d h = elim (Bool-cases (id == story.id)) [
  | inl itself ↦ rw itself tt
  | inr other ↦ elim (Bool-cases (any (λ c. c == id) clean)) [
    | inl seen ↦ rw (other, seen) (check_blockers-IsFine story ids clean d h)
    | inr fresh ↦ elim (Bool-cases (not_in_project story.project_id (find_story id d))) [
      | inl outside ↦ rw (other, fresh, outside) tt
      | inr inside ↦ elim (Bool-cases (reaches id story.id d)) [
        | inl waits ↦ rw (other, fresh, inside, waits) tt
        | inr free ↦
            rw (other, fresh, inside, free)
              (check_blockers-IsFine story ids (id ∷ clean) d
                ((other, reaches_complete d id story.id free), h))
      ]
    ]
  ]
]

check_blockers-at :
    (d : Db) (story : StoryRow) (ids : List ℕ)
    → Hoare (Is d) (check_blockers story ids []) (λ clean e. Is d e × All (IsFine d story.id) clean)
check_blockers-at d story ids = record {
  at = λ e same.
      subst
        (λ x.
          OkPost (λ clean y. Is d y × All (IsFine d story.id) clean)
            (check_blockers story ids [] x))
        (sym same) (check_blockers-IsFine story ids [] d tt);
}

any-select :
    (a b story : ℕ) (rs : List BlockerRow)
    → any (lists a b) (select (λ r. not (r.story_id == story)) rs) ≡ true
    → any (lists a b) rs ≡ true
any-select a b story [] e = e
any-select a b story (r ∷ rs) e = ground (arith, any-select a b story rs)

clear-Relinked :
    (d : Db) (story : ℕ) → Hoare (Is d) (clear_story_blockers story) (λ _ e. Relinked d story e)
unfolding clear_story_blockers
clear-Relinked d story = record {
  at = λ e same a b edge. inr (
      any-select a b story d.blockers (
        subst
          (λ (x : Db). any (lists a b) (select (λ r. not (r.story_id == story)) x.blockers) ≡ true)
          same edge));
}

add_link :
    (d : Db) (story id a b : ℕ) (rs : List BlockerRow)
    → IsFine d story id
    → (any (lists a b) rs ≡ true → ((a ≡ story) × IsFine d story b) ⊎ Edge d a b)
    → any (lists a b) (record { story_id = story; blocker_id = id } ∷ rs) ≡ true
    → ((a ≡ story) × IsFine d story b) ⊎ Edge d a b
add_link d story id a b rs fine linked edge = elim (Bool-cases (story == a && id == b)) [
  | inl hit ↦
      inl (ground (arith, hit), subst (IsFine d story) ((==_iff id b).0 (ground (arith, hit))) fine)
  | inr miss ↦ linked (ground (arith, miss, edge))
]

All-reverse_aux {κ} :
    (P : ℕ → Type κ) (xs ys : List ℕ) → All P xs → All P ys → All P (reverse_aux xs ys)
All-reverse_aux P [] ys h k = k
All-reverse_aux P (x ∷ xs) ys h k = All-reverse_aux P xs (x ∷ ys) h.1 (h.0, k)

add_story_blocker-Relinked :
    (d : Db) (story id : ℕ)
    → IsFine d story id
    → Hoare (Relinked d story) (add_story_blocker story id) (λ _ e. Relinked d story e)
unfolding add_story_blocker
add_story_blocker-Relinked d story id fine = record {
  at = λ e linked. elim (Bool-cases (any (lists story id) e.blockers)) [
    | inl there ↦ rw there tt
    | inr free ↦ rw free (λ a b. add_link d story id a b e.blockers fine (linked a b))
  ];
}

add_blockers-Relinked :
    (d : Db) (story : ℕ) (ids : List ℕ)
    → All (IsFine d story) ids
    → Hoare (Relinked d story) (add_blockers story ids) (λ _ e. Relinked d story e)
unfolding add_blockers
add_blockers-Relinked d story [] fine = Hoare-pure tt (λ e h. h)
add_blockers-Relinked d story (id ∷ ids) fine =
    Hoare-bind (λ _ e. Relinked d story e) (add_story_blocker-Relinked d story id fine.0)
      (λ _. add_blockers-Relinked d story ids fine.1)

set_blockers-Relinked :
    (d : Db) (story : StoryRow) (ids : List ℕ)
    → Hoare (Is d) (set_blockers story ids) (λ _ e. Relinked d story.id e)
unfolding set_blockers
set_blockers-Relinked d story ids =
    Hoare-bind (λ clean e. Is d e × All (IsFine d story.id) clean) (check_blockers-at d story ids)
      λ clean. Hoare-given λ fine. Hoare-refuse (ltb 20 (length clean)) too_many_blockers λ _.
        Hoare-bind (λ _ e. Relinked d story.id e) (clear-Relinked d story.id)
          (λ _.
            add_blockers-Relinked d story.id (reverse clean)
              (All-reverse_aux (IsFine d story.id) clean [] fine tt))

-- `setBlockers` makes no cycle: where no story waits on itself, directly or through others, before
-- it succeeds, none does after it.
pub set_blockers-Acyclic :
    (story : StoryRow) (ids : List ℕ) (d d' : Db)
    → Acyclic d
    → set_blockers story ids d ≡ (ok tt, d')
    → Acyclic d'
set_blockers-Acyclic story ids d d' h e =
    let linked : OkPost (λ (a : Unit) x. Relinked d story.id x) (ok tt, d') =
      subst (OkPost (λ a x. Relinked d story.id x)) e
        ((set_blockers-Relinked d story ids).at d refl) in
    Relinked-Acyclic d story.id d' linked h
