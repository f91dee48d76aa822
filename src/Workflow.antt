-- ===== src/Workflow.antt =====
-- internal/story/states.go: story types, states, sections and the workflow between the states.
-- In the source these are strings; `unknown` stands for any string that is none of the constants.
pub mod Graph
use trackstar.Common.{Bool, List, String, [], any, false, true, ℕ, ◌==◌, ◌||◌, ◌∷◌}

-- `Type`
pub data StoryType : Type 0 where
  feature bug chore unknown : StoryType

pub data State : Type 0 where
  icebox backlog unstarted started finished delivered accepted rejected unknown : State

pub data Section : Type 0 where
  icebox backlog current done unknown : Section

abbrev type_code : StoryType → ℕ
type_code StoryType.feature = 0
type_code StoryType.bug = 1
type_code StoryType.chore = 2
type_code StoryType.unknown = 3

abbrev state_code : State → ℕ
state_code State.icebox = 0
state_code State.backlog = 1
state_code State.unstarted = 2
state_code State.started = 3
state_code State.finished = 4
state_code State.delivered = 5
state_code State.accepted = 6
state_code State.rejected = 7
state_code State.unknown = 8

abbrev section_code : Section → ℕ
section_code Section.icebox = 0
section_code Section.backlog = 1
section_code Section.current = 2
section_code Section.done = 3
section_code Section.unknown = 4

-- `==` on the strings.
abbrev pub type_eq : StoryType → StoryType → Bool
type_eq a b = type_code a == type_code b

abbrev pub state_eq : State → State → Bool
state_eq a b = state_code a == state_code b

abbrev pub section_eq : Section → Section → Bool
section_eq a b = section_code a == section_code b

-- The strings themselves, as the activity log records them.
unfoldable pub type_text : StoryType → String
type_text StoryType.feature = "feature"
type_text StoryType.bug = "bug"
type_text StoryType.chore = "chore"
type_text StoryType.unknown = "?"

unfoldable pub state_text : State → String
state_text State.icebox = "icebox"
state_text State.backlog = "backlog"
state_text State.unstarted = "unstarted"
state_text State.started = "started"
state_text State.finished = "finished"
state_text State.delivered = "delivered"
state_text State.accepted = "accepted"
state_text State.rejected = "rejected"
state_text State.unknown = "?"

unfoldable pub section_text : Section → String
section_text Section.icebox = "icebox"
section_text Section.backlog = "backlog"
section_text Section.current = "current"
section_text Section.done = "done"
section_text Section.unknown = "?"

-- `Type.Valid`
unfoldable pub type_valid : StoryType → Bool
type_valid t = type_eq t StoryType.feature || type_eq t StoryType.bug || type_eq t StoryType.chore

-- The map `transitions`; a key that is missing gives the empty slice.
unfoldable pub transitions : State → List State
transitions State.icebox = State.backlog ∷ State.unstarted ∷ State.started ∷ []
transitions State.backlog = State.icebox ∷ State.unstarted ∷ State.started ∷ []
transitions State.unstarted = State.icebox ∷ State.backlog ∷ State.started ∷ []
transitions State.started = State.finished ∷ State.unstarted ∷ []
transitions State.finished = State.delivered ∷ State.started ∷ []
transitions State.delivered = State.accepted ∷ State.rejected ∷ []
transitions State.rejected = State.started ∷ []
transitions State.accepted = State.delivered ∷ []
transitions State.unknown = []

-- `State.Valid`: the state is a key of the map.
unfoldable pub state_valid : State → Bool
state_valid State.unknown = false
state_valid s = true

unfoldable pub can_transition : State → State → Bool
unfolding transitions
can_transition from to = any (λ s. state_eq s to) (transitions from)

-- `SectionOf`
unfoldable pub section_of : State → Section
section_of State.icebox = Section.icebox
section_of State.backlog = Section.backlog
section_of s = Section.current

unfoldable pub ordered_states : Section → List State
ordered_states Section.icebox = State.icebox ∷ []
ordered_states Section.backlog = State.backlog ∷ []
ordered_states Section.current =
    State.unstarted ∷ State.started ∷ State.finished ∷ State.delivered ∷ State.rejected ∷ []
ordered_states s = []

unfoldable pub entry_state : Section → State
entry_state Section.icebox = State.icebox
entry_state Section.backlog = State.backlog
entry_state s = State.unstarted

unfoldable pub in_progress : State → Bool
in_progress s =
    state_eq s State.started
    || state_eq s State.finished
    || state_eq s State.delivered
    || state_eq s State.rejected

abbrev pub estimates : List ℕ
estimates = 0 ∷ 1 ∷ 2 ∷ 3 ∷ 5 ∷ 8 ∷ []

-- `validEstimate`
unfoldable pub valid_estimate : ℕ → Bool
valid_estimate v = any (λ e. e == v) estimates

-- The test of `Create`, `Move` and `MoveMany`: a section that stories can be put into.
unfoldable pub is_target : Section → Bool
is_target s =
    section_eq s Section.icebox || section_eq s Section.backlog || section_eq s Section.current
