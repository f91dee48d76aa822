-- ===== src/Auth/Limiter/Window.antt =====
-- Sequences of attempts on the limiter of internal/auth/limiter.go.
use text.Mathlib.Text.{◌==◌ as str_eq}
use text.Mathlib.TextEquality.{eq_iff}
use trackstar.Auth.Limiter.{Limiter, LimiterEntry, allow, has_key, put, swept}
use trackstar.Common.{
  All, All-first, All-select, Bool, Bool-cases, List, Option-cases, String, [], arith, false, first,
  first_passes, if◌then◌else◌, inl, inr, leb, length, ltb, max, not, refl, select, some, subst, sym,
  true, ℕ, ◌&&◌, ◌+◌, ◌-◌, ◌∙◌, ◌∷◌, ◌≡◌, ◌≤◌,
}

pub record Attempt : Type 0 where
  pub time : ℕ
  pub key : String

-- How many attempts of `key` are let through in a sequence of attempts.
unfoldable pub granted : String → List Attempt → Limiter → ℕ
granted key [] l = 0
granted key (a ∷ rest) l =
    let (passed, l') = allow a.time a.key l in
    let later = granted key rest l' in if str_eq a.key key && passed then later + 1 else later

-- The window of `key` ends at `r` and has counted `n` attempts.
abbrev pub Counting : String → ℕ → ℕ → Limiter → Type 0
Counting key n r l =
    first (has_key key) l.entries ≡ some (record { key = key; count = n; reset = r })

first-kept :
    (key : String) (p : LimiterEntry → Bool) (es : List LimiterEntry) (e : LimiterEntry)
    → first (has_key key) es ≡ some e
    → p e ≡ true
    → first (has_key key) (select p es) ≡ some e
first-kept key p [] e h k = cc
first-kept key p (x ∷ es) e h k = elim (Bool-cases (has_key key x)) [
  | inl hit ↦
      let same : x ≡ e = ground (arith, hit, h) in
      let kept : p x ≡ true = subst (λ y. p y ≡ true) (sym same) k in ground (arith, hit, h, kept)
  | inr miss ↦ ground (arith, miss, first-kept key p es e (ground (arith, miss, h)) k)
]

swept-Counting :
    (now : ℕ) (key : String) (n r : ℕ) (es : List LimiterEntry)
    → now ≤ r
    → first (has_key key) es ≡ some (record { key = key; count = n; reset = r })
    → first (has_key key) (swept now es) ≡ some (record { key = key; count = n; reset = r })
swept-Counting now key n r es lt h = elim (Bool-cases (ltb 10000 (length es))) [
  | inl many ↦ rw many (
      first-kept key (λ e. not (ltb e.reset now)) es (record { key = key; count = n; reset = r }) h
        (ground (arith, lt)))
  | inr few ↦ rw few h
]

same_key : (key : String) → str_eq key key ≡ true
same_key key = (eq_iff key key).1 refl

apart :
    (key : String) (x e : LimiterEntry)
    → has_key key x ≡ false
    → e.key ≡ key
    → not (has_key x.key e) ≡ true
apart key x e other same = elim (Bool-cases (has_key x.key e)) [
  | inl hit ↦
      let equal : x.key ≡ key = sym ((eq_iff e.key x.key).0 hit) ∙ same in
      absurd (ground (arith, other, (eq_iff x.key key).1 equal))
  | inr miss ↦ ground (arith, miss)
]

put-other :
    (key : String) (x e : LimiterEntry) (es : List LimiterEntry)
    → has_key key x ≡ false
    → e.key ≡ key
    → first (has_key key) es ≡ some e
    → first (has_key key) (put x es) ≡ some e
put-other key x e es other same h =
    ground
      (arith, other, first-kept key (λ y. not (has_key x.key y)) es e h (apart key x e other same))

put-own :
    (key : String) (n r : ℕ) (es : List LimiterEntry)
    → first (has_key key) (put (record { key = key; count = n; reset = r }) es)
      ≡ some (record { key = key; count = n; reset = r })
put-own key n r es = ground (arith, same_key key)

-- What an attempt of `key` does while its window is open.
allow-own :
    (now : ℕ) (key : String) (n r : ℕ) (l : Limiter)
    → now ≤ r
    → Counting key n r l
    → ((allow now key l).0 ≡ leb (n + 1) l.limit)
      × (Counting key (n + 1) r (allow now key l).1)
      × ((allow now key l).1.limit ≡ l.limit)
unfolding allow
allow-own now key n r l lt h =
    let found = swept-Counting now key n r l.entries lt h in
    let in_time : ltb r now ≡ false = ground (arith, lt) in
    (
      ground (arith, found, in_time),
      ground (arith, found, in_time, put-own key (n + 1) r (swept now l.entries)),
      ground (arith, found, in_time),
    )

-- An attempt of another key leaves the window as it is.
allow-other :
    (now : ℕ) (key other : String) (n r : ℕ) (l : Limiter)
    → now ≤ r
    → str_eq other key ≡ false
    → Counting key n r l
    → Counting key n r (allow now other l).1 × ((allow now other l).1.limit ≡ l.limit)
unfolding allow
allow-other now key other n r l lt differs h =
    let es = swept now l.entries in
    let mine : LimiterEntry = record { key = key; count = n; reset = r } in
    let found = swept-Counting now key n r l.entries lt h in
    let kept : (c z : ℕ)
        → first (has_key key) (put (record { key = other; count = c; reset = z }) es) ≡ some mine =
      λ c z.
        put-other key (record { key = other; count = c; reset = z }) mine es differs refl found in
    elim (Option-cases (first (has_key other) es)) [
      | inl new ↦ (ground (arith, new, kept 1 (now + l.window)), ground (arith, new))
      | inr (e, old) ↦ elim (Bool-cases (ltb e.reset now)) [
        | inl over ↦ (ground (arith, old, over, kept 1 (now + l.window)), ground (arith, old, over))
        | inr on ↦ (ground (arith, old, on, kept (e.count + 1) e.reset), ground (arith, old, on))
      ]
    ]

-- In an open window that has counted `n` attempts, the limit less `n` more go through.
granted-Counting :
    (key : String) (attempts : List Attempt) (n r : ℕ) (l : Limiter)
    → All (λ a. a.time ≤ r) attempts
    → Counting key n r l
    → granted key attempts l ≤ l.limit - n
unfolding granted
granted-Counting key [] n r l h c = omega arith
granted-Counting key (a ∷ rest) n r l h c = elim (Bool-cases (str_eq a.key key)) [
  | inl own ↦
      let (passed, kept, same) = allow-own a.time key n r l h.0 c in
      rw ((eq_iff a.key key).0 own) (
        ground (
          arith,
          same_key key,
          passed,
          same,
          granted-Counting key rest (n + 1) r (allow a.time key l).1 h.1 kept,
        ))
  | inr other ↦
      let (kept, same) = allow-other a.time key a.key n r l h.0 other c in
      ground (arith, other, same, granted-Counting key rest n r (allow a.time a.key l).1 h.1 kept)
]

-- No window of `key` is open.
abbrev pub NoWindow : String → ℕ → List LimiterEntry → Type 0
NoWindow key now es = All (λ e. has_key key e ≡ true → ltb e.reset now ≡ true) es

swept-NoWindow :
    (now : ℕ) (key : String) (es : List LimiterEntry)
    → NoWindow key now es
    → NoWindow key now (swept now es)
swept-NoWindow now key es h = elim (Bool-cases (ltb 10000 (length es))) [
  | inl many ↦ rw many (
      All-select (λ e. has_key key e ≡ true → ltb e.reset now ≡ true) (λ e. not (ltb e.reset now))
        es h)
  | inr few ↦ rw few h
]

-- The first attempt of a window.
allow-opens :
    (now : ℕ) (key : String) (l : Limiter)
    → NoWindow key now l.entries
    → Counting key 1 (now + l.window) (allow now key l).1 × ((allow now key l).1.limit ≡ l.limit)
unfolding allow
allow-opens now key l h =
    let es = swept now l.entries in
    let own = put-own key 1 (now + l.window) es in
    elim (Option-cases (first (has_key key) es)) [
      | inl new ↦ (ground (arith, new, own), ground (arith, new))
      | inr (e, old) ↦
          let over : ltb e.reset now ≡ true =
            All-first (λ x. has_key key x ≡ true → ltb x.reset now ≡ true) (has_key key) es
              (swept-NoWindow now key l.entries h) old (first_passes (has_key key) es old) in
          (ground (arith, old, over, own), ground (arith, old, over))
    ]

-- An attempt that opens a window, and all that follow until it is over, whatever other keys do in
-- between: of those of its key at most the limit go through, or one where the limit is 0.
pub granted_bound :
    (key : String) (now : ℕ) (attempts : List Attempt) (l : Limiter)
    → NoWindow key now l.entries
    → All (λ a. a.time ≤ now + l.window) attempts
    → granted key (record { time = now; key = key } ∷ attempts) l ≤ max 1 l.limit
unfolding granted
granted_bound key now attempts l h times =
    let (open_window, same) = allow-opens now key l h in
    ground (
      arith,
      same_key key,
      same,
      granted-Counting key attempts 1 (now + l.window) (allow now key l).1 times open_window,
    )
