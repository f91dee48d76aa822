-- ===== src/Events/Refine/Calls.antt =====
-- The calls of the hub of internal/events/hub.go against what they promise.
use trackstar.Common.{
  All, Bool-cases, List, [], arith, drop, false, first, if◌then◌else◌, inl, inr, length, map,
  modify, refl, select, some, suc, sym, true, zero, ℕ, ◌%◌, ◌&&◌, ◌+◌, ◌<◌, ◌==◌, ◌^◌, ◌∷◌, ◌≡◌,
  ◌≤◌, ◌⊎◌,
}
use trackstar.Events.{Event, is_sub, read_of, subscribe, taken_from, unlisted}
use trackstar.Events.Refine.{IsBoard, IsFeed, channel_of, hub_of}
use trackstar.Events.Spec.{
  Board, Feed, Status, advance, counted_feeds, ended, promised, read_feed, reading, since,
  subscribing, unread,
}

-- A new subscriber has nothing to read.
drop-length : {A : Type 0} (xs : List A) → drop (length xs) xs ≡ []
drop-length [] = refl
drop-length (x ∷ xs) = drop-length xs

none_replaced :
    (log : List Event) (project next : ℕ) (fs : List Feed)
    → All (IsFeed log next) fs
    → modify (is_sub project next) unlisted (map (channel_of log) fs) ≡ map (channel_of log) fs
none_replaced log project next [] h = refl
none_replaced log project next (f ∷ fs) h =
    let rest = none_replaced log project next fs h.1 in
    let older : (f.id == next) ≡ false = ground (arith, h.0.0) in ground (arith, rest, older)

pub subscribing_promised :
    (project : ℕ) (b : Board)
    → IsBoard b
    → b.next + 1 < 2 ^ 64
    → subscribe project (hub_of b) ≡ (b.next, hub_of (promised (subscribing project) b).1)
unfolding subscribe promised
subscribing_promised project b h small =
    let same = none_replaced b.log project b.next b.feeds h in
    let counts : (b.next + 1) % 2 ^ 64 ≡ b.next + 1 = omega arith in
    let empty = sym (drop-length b.log) in
    (λ i. (
      b.next,
      record {
        channels =
            record {
              project = project;
              id = b.next;
              buffer = select (λ e. e.project_id == project) (empty i);
              is_closed = false;
              is_listed = true;
            }
            ∷ same i;
        next = counts i;
        dropped = b.dropped;
      },
    ))

pub counting_promised :
    (log : List Event) (project : ℕ) (fs : List Feed)
    → (if project == 0
        then length (select (λ c. c.is_listed) (map (channel_of log) fs))
        else length (select (λ c. c.is_listed && c.project == project) (map (channel_of log) fs)))
      ≡ counted_feeds project fs
counting_promised log project [] = ground arith
counting_promised log project (f ∷ fs) = ground (arith, counting_promised log project fs)

pub list_cases : {A : Type 0} (xs : List A) → (xs ≡ []) ⊎ ((y : A) × (ys : List A) × (xs ≡ y ∷ ys))
list_cases [] = inl refl
list_cases (x ∷ xs) = inr (x, xs, refl)

tail_eq : {A : Type 0} (x y : A) (xs ys : List A) → x ∷ xs ≡ y ∷ ys → xs ≡ ys
tail_eq x y xs ys e = cc

pub drop_next :
    {A : Type 0} (n : ℕ) (xs : List A) {y : A} {ys : List A}
    → drop n xs ≡ y ∷ ys
    → (drop (suc n) xs ≡ ys) × (suc n ≤ length xs)
drop_next zero [] e = cc
drop_next zero (x ∷ xs) {y} {ys} e = (tail_eq x y xs ys e, omega arith)
drop_next (suc n) [] e = cc
drop_next (suc n) (x ∷ xs) e = let rest = drop_next n xs e in (rest.0, omega (arith, rest.1))

advance_status :
    (log : List Event) (project id : ℕ) (s : Status)
    → let f : Feed = record { project = project; id = id; status = s } in
      taken_from (channel_of log f) ≡ channel_of log (advance log f)
advance_status log project id (ended []) = refl
advance_status log project id (ended (e ∷ es)) = refl
advance_status log project id (reading start taken) =
    elim (list_cases (drop taken (since project start log))) [
      | inl none_left ↦ ground (arith, none_left)
      | inr (e, es, left) ↦
          let next = drop_next taken (since project start log) left in ground (arith, left, next.0)
    ]

pub advance_promised :
    (log : List Event) (f : Feed) → taken_from (channel_of log f) ≡ channel_of log (advance log f)
advance_promised log f = advance_status log f.project f.id f.status

read_same :
    (log : List Event) (f : Feed) → read_of (some (channel_of log f)) ≡ read_feed log (some f)
read_same log f = elim (list_cases (unread log f.project f.status)) [
  | inl e ↦ ground (arith, e)
  | inr (x, xs, e) ↦ ground (arith, e)
]

pub reading_promised :
    (log : List Event) (id : ℕ) (fs : List Feed)
    → (read_of (first (λ c. c.id == id) (map (channel_of log) fs))
        ≡ read_feed log (first (λ f. f.id == id) fs))
      × (modify (λ c. c.id == id) taken_from (map (channel_of log) fs)
          ≡ map (channel_of log) (modify (λ f. f.id == id) (advance log) fs))
reading_promised log id [] = (refl, refl)
reading_promised log id (f ∷ fs) =
    let (rest, rest') = reading_promised log id fs in
    let moved = advance_promised log f in
    elim (Bool-cases (f.id == id)) [
      | inl hit ↦ (rw hit (read_same log f), ground (arith, hit, rest', moved))
      | inr miss ↦ (ground (arith, miss, rest), ground (arith, miss, rest'))
    ]
