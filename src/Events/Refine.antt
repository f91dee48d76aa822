-- ===== src/Events/Refine.antt =====
-- The hub of internal/events/hub.go against what it promises.
pub mod Calls
pub mod Run
use mathlib.Core.Option
use trackstar.Common.{
  All, Bool, Bool-cases, List, [], arith, drop, false, if◌then◌else◌, inl, inr, length, ltb, map,
  modify, not, refl, select, some, suc, true, zero, ℕ, ◌&&◌, ◌++◌, ◌+◌, ◌<◌, ◌==◌, ◌∙◌, ◌∷◌, ◌≡◌,
  ◌≤◌,
}
use trackstar.Events.{
  Channel, Event, Hub, buffer_size, close, close_each, deliver, deliver_all, is_sub, join_closed,
  join_delivered,
}
use trackstar.Events.Spec.{
  Board, Feed, Status, end_feed, ended, is_feed, is_reading, is_stuck, reading, since, unread,
}

module _ {A : Type 0} where
  pub drop-append : (n : ℕ) (xs ys : List A) → n ≤ length xs → drop n (xs ++ ys) ≡ drop n xs ++ ys
  drop-append zero xs ys h = refl
  drop-append (suc n) [] ys h = absurd (omega arith)
  drop-append (suc n) (x ∷ xs) ys h = drop-append n xs ys (omega arith)

  pub select-snoc :
      (p : A → Bool) (xs : List A) (y : A)
      → select p (xs ++ (y ∷ [])) ≡ (if p y then select p xs ++ (y ∷ []) else select p xs)
  select-snoc p [] y = ground arith
  select-snoc p (x ∷ xs) y = ground (arith, select-snoc p xs y)

abbrev pub channel_of : List Event → Feed → Channel
channel_of log f = record {
  project = f.project;
  id = f.id;
  buffer = unread log f.project f.status;
  is_closed = not (is_reading f.status);
  is_listed = is_reading f.status;
}

abbrev pub hub_of : Board → Hub
hub_of b = record { channels = map (channel_of b.log) b.feeds; next = b.next; dropped = b.dropped }

-- Who reads came in at a place in the log, and has taken no more than there was since.
abbrev pub IsPlace : List Event → ℕ → Status → Type 0
IsPlace log project (reading start taken) =
    (start ≤ length log) × (taken ≤ length (since project start log))
IsPlace log project (ended es) = Unit

abbrev pub IsFeed : List Event → ℕ → Feed → Type 0
IsFeed log next f = (f.id < next) × IsPlace log f.project f.status

abbrev pub IsBoard : Board → Type 0
IsBoard b = All (IsFeed b.log b.next) b.feeds

pub since-append :
    (project start : ℕ) (log : List Event) (e : Event)
    → start ≤ length log
    → since project start (log ++ (e ∷ [])) ≡ (
        if e.project_id == project
        then since project start log ++ (e ∷ [])
        else since project start log)
since-append project start log e h =
    let tail = drop-append start log (e ∷ []) h in
    let mine : Event → Bool = λ x. x.project_id == project in
    (λ i. select mine (tail i)) ∙ select-snoc mine (drop start log) e

-- Delivering an event to one channel, and the same said of its feed.
deliver_status :
    (log : List Event) (e : Event) (project id : ℕ) (s : Status)
    → IsPlace log project s
    → let f : Feed = record { project = project; id = id; status = s } in
      deliver e (channel_of log f)
      ≡ some (
        channel_of (log ++ (e ∷ [])) (if is_stuck log e f then end_feed log f else f),
        if is_stuck log e f then 1 else 0,
      )
deliver_status log e project id (ended es) h = refl
deliver_status log e project id (reading start taken) h =
    let grows = since-append project start log e h.0 in
    let fits = drop-append taken (since project start log) (e ∷ []) h.1 in
    elim (Bool-cases (project == e.project_id)) [
      | inr other ↦
          let skips : (e.project_id == project) ≡ false = ground (arith, other) in
          ground (arith, other, skips, grows)
      | inl mine ↦
          let hits : (e.project_id == project) ≡ true = ground (arith, mine) in
          elim (Bool-cases (ltb (length (drop taken (since project start log))) buffer_size)) [
            | inl room ↦ ground (arith, mine, hits, room, grows, fits)
            | inr full ↦ ground (arith, mine, hits, full)
          ]
    ]

counted_one :
    (b : Bool) (f : Feed) (fs : List Feed)
    → (if b then 1 else 0) + length fs ≡ length (if b then f ∷ fs else fs)
counted_one b f fs = ground arith

pub deliver_all-feeds :
    (log : List Event) (e : Event) (next : ℕ) (fs : List Feed)
    → All (IsFeed log next) fs
    → deliver_all e (map (channel_of log) fs)
      ≡ some (
        map (channel_of (log ++ (e ∷ []))) (modify (is_stuck log e) (end_feed log) fs),
        length (select (is_stuck log e) fs),
      )
deliver_all-feeds log e next [] h = refl
deliver_all-feeds log e next (f ∷ fs) h =
    let rest = deliver_all-feeds log e next fs h.1 in
    let head = deliver_status log e f.project f.id f.status h.0.1 in
    (λ i. join_delivered (head i) (rest i)) ∙ (λ i. some (
      map (channel_of (log ++ (e ∷ []))) (modify (is_stuck log e) (end_feed log) (f ∷ fs)),
      counted_one (is_stuck log e f) f (select (is_stuck log e) fs) i,
    ))

closed_one :
    (log : List Event) (project id project' id' : ℕ) (s : Status) (cs : List Channel)
    → let f : Feed = record { project = project'; id = id'; status = s } in
      let c = channel_of log f in
      join_closed (if is_sub project id c then close c else some c) (some cs)
      ≡ some (channel_of log (if is_feed project id f then end_feed log f else f) ∷ cs)
closed_one log project id project' id' (ended es) cs = refl
closed_one log project id project' id' (reading start taken) cs =
    elim (Bool-cases (project' == project && id' == id)) [
      | inl hit ↦ ground (arith, hit)
      | inr miss ↦ ground (arith, miss)
    ]

-- Closing a channel, and the same said of its feed.
pub close_each-feeds :
    (log : List Event) (project id : ℕ) (fs : List Feed)
    → close_each (is_sub project id) (map (channel_of log) fs)
      ≡ some (map (channel_of log) (modify (is_feed project id) (end_feed log) fs))
close_each-feeds log project id [] = refl
close_each-feeds log project id (f ∷ fs) =
    let rest = close_each-feeds log project id fs in
    let c = channel_of log f in
    (λ i. join_closed (if is_sub project id c then close c else some c) (rest i))
    ∙ closed_one log project id f.project f.id f.status _
