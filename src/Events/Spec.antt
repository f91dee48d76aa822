-- ===== src/Events/Spec.antt =====
-- What the hub of internal/events/hub.go promises, without channels: the events of all projects in
-- the order in which they were published, and for every subscriber how much of that it has read.
use mathlib.Core.Option
use trackstar.Common.{
  Bool, List, Option, [], drop, false, first, if◌then◌else◌, length, ltb, modify, none, not, select,
  some, suc, true, ℕ, ◌&&◌, ◌++◌, ◌+◌, ◌==◌, ◌||◌, ◌∷◌,
}
use trackstar.Events.{
  Event, Hub, Received, at_end, buffer_size, cancel, got, publish, receive, rest_of, subscribe,
  subscribers, waiting,
}

-- A subscriber that is read to: where it came in, and how many of its project's events since then it
-- has taken. One that is over has what was left unread.
pub data Status : Type 0 where
  reading : ℕ → ℕ → Status
  ended : List Event → Status

pub record Feed : Type 0 where
  pub project : ℕ
  pub id : ℕ
  pub status : Status

pub record Board : Type 0 where
  pub log : List Event
  pub feeds : List Feed
  pub next : ℕ
  pub dropped : ℕ

abbrev pub new_board : Board
new_board = record { log = []; feeds = []; next = 0; dropped = 0 }

abbrev pub is_reading : Status → Bool
is_reading (reading start taken) = true
is_reading (ended es) = false

-- The project's events from the given place in the log on.
abbrev pub since : ℕ → ℕ → List Event → List Event
since project start log = select (λ e. e.project_id == project) (drop start log)

abbrev pub unread : List Event → ℕ → Status → List Event
unread log project (reading start taken) = drop taken (since project start log)
unread log project (ended es) = es

abbrev pub advanced : Status → Status
advanced (reading start taken) = reading start (suc taken)
advanced (ended es) = ended (rest_of es)

abbrev pub read_feed : List Event → Option Feed → Received
read_feed log none = waiting
read_feed log (some f) = elim (unread log f.project f.status) [
  | [] ↦ if is_reading f.status then waiting else at_end
  | e ∷ es ↦ got e
]

abbrev pub advance : List Event → Feed → Feed
advance log f = elim (unread log f.project f.status) [
  | [] ↦ f
  | e ∷ es ↦ record f { status = advanced f.status }
]

-- A subscriber with too much to read yet is dropped.
abbrev pub is_stuck : List Event → Event → Feed → Bool
is_stuck log e f =
    is_reading f.status
    && f.project == e.project_id
    && not (ltb (length (unread log f.project f.status)) buffer_size)

abbrev pub end_feed : List Event → Feed → Feed
end_feed log f = record f { status = ended (unread log f.project f.status) }

abbrev pub is_feed : ℕ → ℕ → Feed → Bool
is_feed project id f = is_reading f.status && f.project == project && f.id == id

-- What is asked of the hub, and what it answers.
pub data Call : Type 0 where
  subscribing : ℕ → Call
  cancelling : ℕ → ℕ → Call
  publishing : Event → Call
  counting : ℕ → Call
  receiving : ℕ → Call

pub data Answer : Type 0 where
  numbered : ℕ → Answer
  done : Answer
  received : Received → Answer

abbrev pub counted_feeds : ℕ → List Feed → ℕ
counted_feeds project fs =
    length (select (λ f. is_reading f.status && (project == 0 || f.project == project)) fs)

-- The same calls on the hub; `none` is a panic.
abbrev pub answered : Call → Hub → Option (Answer × Hub)
answered (subscribing project) h = let (id, h') = subscribe project h in some (numbered id, h')
answered (cancelling project id) h = Option.map (λ h'. (done, h')) (cancel project id h)
answered (publishing e) h = Option.map (λ h'. (done, h')) (publish e h)
answered (counting project) h = some (numbered (subscribers project h), h)
answered (receiving id) h = let (r, h') = receive id h in some (received r, h')

abbrev pub then_answers : Answer → Option (List Answer) → Option (List Answer)
then_answers a rest = Option.map (λ as'. a ∷ as') rest

unfoldable pub hub_answers : List Call → Hub → Option (List Answer)
hub_answers [] h = some []
hub_answers (c ∷ cs) h = elim (answered c h) [
  | none ↦ none
  | some (a, h') ↦ then_answers a (hub_answers cs h')
]

unfoldable pub promised : Call → Board → Answer × Board
promised (subscribing project) b = (
  numbered b.next,
  record b {
    feeds = record { project = project; id = b.next; status = reading (length b.log) 0 } ∷ b.feeds;
    next = b.next + 1;
  },
)
promised (cancelling project id) b =
    (done, record b { feeds = modify (is_feed project id) (end_feed b.log) b.feeds })
promised (publishing e) b = (
  done,
  record b {
    log = b.log ++ (e ∷ []);
    feeds = modify (is_stuck b.log e) (end_feed b.log) b.feeds;
    dropped = b.dropped + length (select (is_stuck b.log e) b.feeds);
  },
)
promised (counting project) b = (numbered (counted_feeds project b.feeds), b)
promised (receiving id) b = (
  received (read_feed b.log (first (λ f. f.id == id) b.feeds)),
  record b { feeds = modify (λ f. f.id == id) (advance b.log) b.feeds },
)

-- The answers to one call after the other.
unfoldable pub answers : List Call → Board → List Answer
answers [] b = []
answers (c ∷ cs) b = let (a, b') = promised c b in a ∷ answers cs b'
