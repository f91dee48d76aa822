-- ===== src/Story/Blockers/Search.antt =====
-- The search of `reaches` of internal/story/tasks.go, and chains of blockers.
use trackstar.Common.{
  ==_iff, All, All-imp, All-unmap, All-unselect, Bool, Bool-cases, List, [], any, arith, false, inl,
  inr, leb, map, select, subst, suc, true, zero, ℕ, ◌&&◌, ◌==◌, ◌∷◌, ◌≡◌,
}
use trackstar.Db.Order.{All-unsort}
use trackstar.Db.Rows.{BlockerRow, Db}
use trackstar.Story.Blockers.{any_reaches, blockers_of, reaches, reaches_from}

-- One story lists another as a blocker.
abbrev pub lists : ℕ → ℕ → BlockerRow → Bool
lists a b r = r.story_id == a && r.blocker_id == b

abbrev pub Edge : Db → ℕ → ℕ → Type 0
Edge d a b = any (lists a b) d.blockers ≡ true

-- A chain of blockers of one link or more.
pub data Waits (d : Db) : ℕ → ℕ → Type 0 where
  one : {a b : ℕ} → Edge d a b → Waits d a b
  more : {a b c : ℕ} → Edge d a b → Waits d b c → Waits d a c

pub Waits-trans : {d : Db} {a b c : ℕ} → Waits d a b → Waits d b c → Waits d a c
Waits-trans (one e) w = more e w
Waits-trans (more e v) w = more e (Waits-trans v w)

any_link {κ} :
    {C : Type κ} (a b : ℕ) (rs : List BlockerRow)
    → any (lists a b) rs ≡ true
    → All (λ r. (r.story_id == a) ≡ true → (r.blocker_id == b) ≡ true → C) rs
    → C
any_link a b [] e h = cc
any_link a b (r ∷ rs) e h = elim (Bool-cases (lists a b r)) [
  | inl hit ↦ h.0 (ground (arith, hit)) (ground (arith, hit))
  | inr miss ↦ any_link a b rs (ground (arith, miss, e)) h.1
]

any_reaches-eq-false :
    (go : ℕ → Bool) (target : ℕ) (bs : List ℕ)
    → any_reaches go target bs ≡ false
    → All (λ b. ((b == target) ≡ false) × (go b ≡ false)) bs
unfolding any_reaches
any_reaches-eq-false go target [] e = tt
any_reaches-eq-false go target (b ∷ bs) e =
    ((ground (arith, e), ground (arith, e)), any_reaches-eq-false go target bs (ground (arith, e)))

-- A search that finds nothing found nothing from any blocker.
reaches_from-step :
    (d : Db) (rounds from b target : ℕ)
    → reaches_from (blockers_of d) (suc rounds) from target ≡ false
    → Edge d from b
    → ((b == target) ≡ false) × (reaches_from (blockers_of d) rounds b target ≡ false)
unfolding reaches_from
reaches_from-step d rounds from b target e edge =
    let go : ℕ → Bool = λ c. reaches_from (blockers_of d) rounds c target in
    let Clear : ℕ → Type 0 = λ c. ((c == target) ≡ false) × (go c ≡ false) in
    let of_story : BlockerRow → Bool = λ r. r.story_id == from in
    let listed : All Clear (blockers_of d from) =
      any_reaches-eq-false go target (blockers_of d from) e in
    let rows : All (λ r. Clear r.blocker_id) (select of_story d.blockers) =
      All-unmap Clear (λ r. r.blocker_id) (select of_story d.blockers)
        (All-unsort Clear leb (map (λ r. r.blocker_id) (select of_story d.blockers)) listed) in
    any_link from b d.blockers edge (
      All-imp d.blockers
        (λ r clear here same. subst Clear ((==_iff r.blocker_id b).0 same) (clear here))
        (All-unselect (λ r. Clear r.blocker_id) of_story d.blockers rows))

no_chain :
    (d : Db) (rounds from target : ℕ)
    → reaches_from (blockers_of d) rounds from target ≡ false
    → ¬ Waits d from target
unfolding reaches_from
no_chain d zero from target e w = cc
no_chain d (suc rounds) from target e (one edge) =
    let (differs, _) = reaches_from-step d rounds from target target e edge in
    ground (arith, differs)
no_chain d (suc rounds) from target e (more {b = b} edge w) =
    let (_, rest) = reaches_from-step d rounds from b target e edge in
    no_chain d rounds b target rest w

-- Where `reaches` reports nothing, there is no chain of blockers, of any length, from the one story
-- to the other: a search that is cut off never does so.
pub reaches_complete :
    (d : Db) (from target : ℕ) → reaches from target d ≡ false → ¬ Waits d from target
unfolding reaches
reaches_complete d from target = no_chain d 51 from target
