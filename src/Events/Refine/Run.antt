-- ===== src/Events/Refine/Run.antt =====
-- Runs of the hub of internal/events/hub.go: any calls, one after the other.
use trackstar.Common.{
  All, All-imp, Bool, Bool-cases, List, [], ap, arith, drop, false, if◌then◌else◌, inl, inr, length,
  modify, refl, some, subst, suc, sym, true, ℕ, ◌++◌, ◌+◌, ◌<◌, ◌==◌, ◌^◌, ◌∷◌, ◌≡◌, ◌≤◌,
}
use trackstar.Events.{Event, cancel, new_hub, publish, receive, subscribers}
use trackstar.Events.Refine.{
  IsBoard, IsFeed, IsPlace, close_each-feeds, deliver_all-feeds, hub_of, since-append,
}
use trackstar.Events.Refine.Calls.{
  counting_promised, drop_next, list_cases, reading_promised, subscribing_promised,
}
use trackstar.Events.Spec.{
  Board, Call, Feed, Status, advance, answered, answers, cancelling, counting, end_feed, ended,
  hub_answers, is_feed, is_stuck, new_board, numbered, promised, publishing, reading, received,
  receiving, since, subscribing,
}

-- What the promise keeps of its own state.
module _ (log : List Event) where
  All-modify-feeds :
      (next next' : ℕ) (log' : List Event) (p : Feed → Bool) (g : Feed → Feed) (fs : List Feed)
      → next ≤ next'
      → ((f : Feed) → IsFeed log next f → IsFeed log' next' (if p f then g f else f))
      → All (IsFeed log next) fs
      → All (IsFeed log' next') (modify p g fs)
  All-modify-feeds next next' log' p g [] le step h = tt
  All-modify-feeds next next' log' p g (f ∷ fs) le step h =
      (step f h.0, All-modify-feeds next next' log' p g fs le step h.1)

longer : {A : Type 0} (xs : List A) (y : A) → length (xs ++ (y ∷ [])) ≡ suc (length xs)
longer [] y = refl
longer (x ∷ xs) y = ap suc (longer xs y)

still_within :
    (b : Bool) (n : ℕ) (xs : List Event) (y : Event)
    → n ≤ length xs
    → n ≤ length (if b then xs ++ (y ∷ []) else xs)
still_within true n xs y h = ground (arith, h, longer xs y)
still_within false n xs y h = h

IsPlace-append :
    (log : List Event) (e : Event) (project : ℕ) (s : Status)
    → IsPlace log project s
    → IsPlace (log ++ (e ∷ [])) project s
IsPlace-append log e project (ended es) h = tt
IsPlace-append log e project (reading start taken) h =
    let grows = since-append project start log e h.0 in
    let more = longer log e in
    let kept = longer (since project start log) e in
    (
      ground (arith, h.0, more),
      subst (λ (es : List Event). taken ≤ length es) (sym grows)
          (still_within (e.project_id == project) taken (since project start log) e h.1),
    )

publishing_feed :
    (log : List Event) (e : Event) (next : ℕ) (f : Feed)
    → IsFeed log next f
    → IsFeed (log ++ (e ∷ [])) next (if is_stuck log e f then end_feed log f else f)
publishing_feed log e next f h = elim (Bool-cases (is_stuck log e f)) [
  | inl stuck ↦ rw stuck (h.0, tt)
  | inr fine ↦ rw fine (h.0, IsPlace-append log e f.project f.status h.1)
]

cancelling_feed :
    (log : List Event) (project id next : ℕ) (f : Feed)
    → IsFeed log next f
    → IsFeed log next (if is_feed project id f then end_feed log f else f)
cancelling_feed log project id next f h = elim (Bool-cases (is_feed project id f)) [
  | inl hit ↦ rw hit (h.0, tt)
  | inr miss ↦ rw miss h
]

advanced_place :
    (log : List Event) (id next project : ℕ) (s : Status)
    → id < next
    → IsPlace log project s
    → IsFeed log next (advance log (record { project = project; id = id; status = s }))
advanced_place log id next project (ended []) small h = (small, tt)
advanced_place log id next project (ended (e ∷ es)) small h = (small, tt)
advanced_place log id next project (reading start taken) small h =
    elim (list_cases (drop taken (since project start log))) [
      | inl none_left ↦ rw (none_left, advance) (small, h)
      | inr (e, es, left) ↦
          let next_one = drop_next taken (since project start log) left in
          rw (left, advance) (small, (h.0, next_one.1))
    ]

receiving_feed :
    (log : List Event) (id next : ℕ) (f : Feed)
    → IsFeed log next f
    → IsFeed log next (if f.id == id then advance log f else f)
receiving_feed log id next f h = elim (Bool-cases (f.id == id)) [
  | inl hit ↦ rw hit (advanced_place log f.id next f.project f.status h.0 h.1)
  | inr miss ↦ rw miss h
]

promised-IsBoard :
    (c : Call) (b : Board)
    → IsBoard b
    → IsBoard (promised c b).1 × ((promised c b).1.next ≤ b.next + 1)
unfolding promised
promised-IsBoard (subscribing project) b h = (
  ((omega arith, (omega arith, omega arith)), All-imp b.feeds (λ f k. (omega (arith, k.0), k.1)) h),
  omega arith,
)
promised-IsBoard (cancelling project id) b h = (
  All-modify-feeds b.log b.next b.next b.log (is_feed project id) (end_feed b.log) b.feeds
      (omega arith) (cancelling_feed b.log project id b.next) h,
  omega arith,
)
promised-IsBoard (publishing e) b h = (
  All-modify-feeds b.log b.next b.next (b.log ++ (e ∷ [])) (is_stuck b.log e) (end_feed b.log)
      b.feeds (omega arith) (publishing_feed b.log e b.next) h,
  omega arith,
)
promised-IsBoard (counting project) b h = (h, omega arith)
promised-IsBoard (receiving id) b h = (
  All-modify-feeds b.log b.next b.next b.log (λ f. f.id == id) (advance b.log) b.feeds (omega arith)
      (receiving_feed b.log id b.next) h,
  omega arith,
)

answered-promised :
    (c : Call) (b : Board)
    → IsBoard b
    → b.next + 1 < 2 ^ 64
    → answered c (hub_of b) ≡ some ((promised c b).0, hub_of (promised c b).1)
unfolding promised cancel publish subscribers receive
answered-promised (subscribing project) b h small =
    let same = subscribing_promised project b h small in λ i. some (numbered (same i).0, (same i).1)
answered-promised (cancelling project id) b h small =
    let closed = close_each-feeds b.log project id b.feeds in ground (arith, closed)
answered-promised (publishing e) b h small =
    let sent = deliver_all-feeds b.log e b.next b.feeds h in ground (arith, sent)
answered-promised (counting project) b h small =
    let same = counting_promised b.log project b.feeds in λ i. some (numbered (same i), hub_of b)
answered-promised (receiving id) b h small =
    let (read, rest) = reading_promised b.log id b.feeds in
    λ i. some (received (read i), record { channels = rest i; next = b.next; dropped = b.dropped })

hub_answers_promised :
    (cs : List Call) (b : Board)
    → IsBoard b
    → b.next + length cs < 2 ^ 64
    → hub_answers cs (hub_of b) ≡ some (answers cs b)
unfolding hub_answers answers
hub_answers_promised [] b h small = refl
hub_answers_promised (c ∷ cs) b h small =
    let head = answered-promised c b h (omega (arith, small)) in
    let keeps = promised-IsBoard c b h in
    let rest = hub_answers_promised cs (promised c b).1 keeps.0 (omega (arith, small, keeps.1)) in
    ground (arith, head, rest)

-- The hub does what it promises: whatever calls are made one after the other, fewer than 2^64 of
-- them, it never panics by closing or writing to a closed channel, and it answers every call as the
-- shared log of all events does. So a subscriber reads its project's events from the moment it came
-- in, in the order of publishing, none twice and none left out, until it cancels or is dropped with
-- 16 unread; then it still reads those, and the end after them.
pub hub_answers-answers :
    (cs : List Call) → length cs < 2 ^ 64 → hub_answers cs new_hub ≡ some (answers cs new_board)
hub_answers-answers cs small = hub_answers_promised cs new_board tt (omega (arith, small))
