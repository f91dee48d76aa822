-- ===== src/Events.antt =====
-- internal/events/hub.go: the change feed of the projects. The mutex makes each operation of the hub
-- one step.
pub mod Spec
pub mod Refine
use mathlib.Core.Option
use trackstar.Common.{
  Bool, List, Option, String, [], false, first, if◌then◌else◌, length, ltb, modify, none, select,
  some, true, ℕ, ◌%◌, ◌&&◌, ◌++◌, ◌+◌, ◌==◌, ◌^◌, ◌∷◌,
}
use trackstar.Db.Stories.{story_ids}
use trackstar.Db.Tx.{◌>>◌}

infixl 5 ◌>>=◌
abbrev ◌>>=◌ : {A B : Type 0} → Option A → (A → Option B) → Option B
none >>= f = none
some a >>= f = f a

-- `Event`; a story id of 0 and an empty list are the absent ones.
pub record Event : Type 0 where
  pub kind : String
  pub project_id : ℕ
  pub story_id : ℕ
  pub story_ids : List ℕ
  pub client : String

-- `Stories`
unfoldable pub stories_event : ℕ → List ℕ → String → Event
stories_event project (id ∷ []) client = record {
  kind = "stories";
  project_id = project;
  story_id = id;
  story_ids = [];
  client = client;
}
stories_event project ids client = record {
  kind = "stories";
  project_id = project;
  story_id = 0;
  story_ids = ids;
  client = client;
}

-- `bufferSize`
abbrev pub buffer_size : ℕ
buffer_size = 16

-- A channel, which its subscriber holds, and whether `h.subs[project][id]` is it. Of an inner map that
-- is empty nothing can be told from one that is missing.
pub record Channel : Type 0 where
  pub project : ℕ
  pub id : ℕ
  pub buffer : List Event
  pub is_closed : Bool
  pub is_listed : Bool

-- `Hub`; `next` is a uint64.
pub record Hub : Type 0 where
  pub channels : List Channel
  pub next : ℕ
  pub dropped : ℕ

-- `NewHub`
abbrev pub new_hub : Hub
new_hub = record { channels = []; next = 0; dropped = 0 }

abbrev pub is_sub : ℕ → ℕ → Channel → Bool
is_sub project id c = c.is_listed && c.project == project && c.id == id

abbrev pub unlisted : Channel → Channel
unlisted c = record c { is_listed = false }

abbrev pub new_channel : ℕ → ℕ → Channel
new_channel project id = record {
  project = project;
  id = id;
  buffer = [];
  is_closed = false;
  is_listed = true;
}

-- `Subscribe`, with the id by which the subscriber is known; an entry under the same id is replaced.
unfoldable pub subscribe : ℕ → Hub → ℕ × Hub
subscribe project h = (
  h.next,
  record h {
    channels = new_channel project h.next ∷ modify (is_sub project h.next) unlisted h.channels;
    next = (h.next + 1) % 2 ^ 64;
  },
)

-- Closing a channel that is closed panics, which is `none`.
abbrev pub close : Channel → Option Channel
close c = if c.is_closed then none else some (record c { is_closed = true; is_listed = false })

abbrev pub join_closed : Option Channel → Option (List Channel) → Option (List Channel)
join_closed head rest = do c ← head; cs ← rest; some (c ∷ cs)

-- `close`, of every channel that is selected.
abbrev pub close_each : (Channel → Bool) → List Channel → Option (List Channel)
close_each p [] = some []
close_each p (c ∷ cs) = join_closed (if p c then close c else some c) (close_each p cs)

-- The function that `Subscribe` returns; a second call does nothing, since the entry is gone.
unfoldable pub cancel : ℕ → ℕ → Hub → Option Hub
cancel project id h = do
  cs ← close_each (is_sub project id) h.channels
  some (record h { channels = cs })

-- The event for one subscriber, and the number of those that were dropped. Sending on a closed
-- channel panics; one whose buffer is full is closed and forgotten.
abbrev pub deliver : Event → Channel → Option (Channel × ℕ)
deliver e c =
    if c.is_listed && c.project == e.project_id
    then (if c.is_closed
        then none
        else if ltb (length c.buffer) buffer_size
        then some (record c { buffer = c.buffer ++ (e ∷ []) }, 0)
        else some (record c { is_closed = true; is_listed = false }, 1))
    else some (c, 0)

abbrev pub join_delivered :
    Option (Channel × ℕ) → Option (List Channel × ℕ) → Option (List Channel × ℕ)
join_delivered head rest = do (c, n) ← head; (cs, m) ← rest; some (c ∷ cs, n + m)

abbrev pub deliver_all : Event → List Channel → Option (List Channel × ℕ)
deliver_all e [] = some ([], 0)
deliver_all e (c ∷ cs) = join_delivered (deliver e c) (deliver_all e cs)

-- `Publish`; the order of the map does not matter, since each subscriber has its own channel.
unfoldable pub publish : Event → Hub → Option Hub
publish e h = do
  (cs, n) ← deliver_all e h.channels
  some (record h { channels = cs; dropped = h.dropped + n })

-- `Subscribers`; 0 stands for all projects.
unfoldable pub subscribers : ℕ → Hub → ℕ
subscribers project h =
    if project == 0
    then length (select (λ c. c.is_listed) h.channels)
    else length (select (λ c. c.is_listed && c.project == project) h.channels)

-- What a subscriber that reads gets: an event, the end of a closed channel, or nothing yet.
pub data Received : Type 0 where
  got : Event → Received
  at_end waiting : Received

abbrev pub read_of : Option Channel → Received
read_of none = waiting
read_of (some c) = elim c.buffer [ [] ↦ if c.is_closed then at_end else waiting | e ∷ es ↦ got e ]

abbrev pub rest_of : List Event → List Event
rest_of [] = []
rest_of (e ∷ es) = es

abbrev pub taken_from : Channel → Channel
taken_from c = record c { buffer = rest_of c.buffer }

-- A read of the channel with the given id.
unfoldable pub receive : ℕ → Hub → Received × Hub
receive id h = (
  read_of (first (λ c. c.id == id) h.channels),
  record h { channels = modify (λ c. c.id == id) taken_from h.channels },
)
