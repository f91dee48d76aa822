-- ===== src/Workflow/Graph.antt =====
-- The workflow of internal/story/states.go as a graph: what chains of transitions can do.
use trackstar.Common.{any, arith, refl, true, ◌↔◌, ◌≡◌, ◌≢◌, ◌⊎◌}
use trackstar.Workflow.{
  Section, State, can_transition, entry_state, in_progress, is_target, ordered_states, section_of,
  state_eq, state_valid,
}

-- Chains of allowed transitions whose states, after the first, satisfy a condition.
pub data Run (cond_at : State → Type 0) (s : State) : State → Type 0 where
  here : Run cond_at s s
  next : {t u : State} → Run cond_at s t → can_transition t u ≡ true → cond_at u → Run cond_at s u

-- Started, finished, delivered or rejected, or accepted.
abbrev pub IsUnderway : State → Type 0
IsUnderway s = (in_progress s ≡ true) ⊎ (s ≡ State.accepted)

IsUnderway-step :
    (s t : State) → IsUnderway s → can_transition s t ≡ true → t ≢ State.unstarted → IsUnderway t
unfolding in_progress can_transition
IsUnderway-step s t h e ne = ground arith

-- Work that is under way goes back to the icebox or the backlog only through unstarted: a chain of
-- transitions that begins at such work and avoids unstarted never leaves it.
pub IsUnderway-leaves_by_unstarted :
    {s t : State} → IsUnderway s → Run (λ u. u ≢ State.unstarted) s t → IsUnderway t
IsUnderway-leaves_by_unstarted h here = h
IsUnderway-leaves_by_unstarted h (next {t} {u} r e ne) =
    IsUnderway-step t u (IsUnderway-leaves_by_unstarted h r) e ne

undelivered_step :
    (s t : State)
    → s ≢ State.accepted
    → can_transition s t ≡ true
    → t ≢ State.delivered
    → (s ≢ State.delivered)
    → t ≢ State.accepted
unfolding can_transition
undelivered_step s t h e ne nd = ground arith

-- Nothing is accepted without having been delivered.
pub accepted_needs_delivery :
    {s t : State}
    → (s ≢ State.accepted) × (s ≢ State.delivered)
    → Run (λ u. u ≢ State.delivered) s t
    → (t ≢ State.accepted) × (t ≢ State.delivered)
accepted_needs_delivery h here = h
accepted_needs_delivery h (next {t} {u} r e ne) =
    let before = accepted_needs_delivery h r in (undelivered_step t u before.0 e ne before.1, ne)

Run-trans :
    {allowed : State → Type 0} {s t u : State} → Run allowed s t → Run allowed t u → Run allowed s u
Run-trans r here = r
Run-trans r (next q e h) = next (Run-trans r q) e h

from_started : Run (λ u. Unit {0}) State.started State.accepted
unfolding can_transition
from_started =
    let to_finished : Run (λ u. Unit {0}) State.started State.finished = next here refl tt in
    let to_delivered : Run (λ u. Unit {0}) State.started State.delivered =
      next to_finished refl tt in
    next to_delivered refl tt

to_started :
    {s : State} → can_transition s State.started ≡ true → Run (λ u. Unit {0}) s State.accepted
to_started e = Run-trans (next here e tt) from_started

-- From every valid state some chain of transitions leads to accepted.
pub accepted_reachable : (s : State) → state_valid s ≡ true → Run (λ u. Unit {0}) s State.accepted
unfolding state_valid can_transition
accepted_reachable State.started h = from_started
accepted_reachable State.accepted h = here
accepted_reachable State.delivered h = next here refl tt
accepted_reachable State.unknown h = cc
accepted_reachable s h = to_started refl

-- The ordering scope of a section is made up of exactly the states that `SectionOf` maps to it,
-- less accepted; and `entryState` gives a target section a state of its own scope.
pub ordered_states_exact :
    (sec : Section) (s : State)
    → is_target sec ≡ true
    → state_valid s ≡ true
    → ((any (λ t. state_eq t s) (ordered_states sec) ≡ true)
        ↔ ((section_of s ≡ sec) × (s ≢ State.accepted)))
      × (any (λ t. state_eq t (entry_state sec)) (ordered_states sec) ≡ true)
unfolding is_target ordered_states section_of state_valid entry_state
ordered_states_exact sec s h v = (ground arith, ground arith)
