-- ===== src/Auth/Limiter.antt =====
-- internal/auth/limiter.go: a counter of attempts per key in fixed windows. The mutex makes each call
-- of `Allow` one step.
pub mod Window
use text.Mathlib.Text.{◌==◌ as str_eq}
use trackstar.Common.{
  Bool, List, String, first, if◌then◌else◌, leb, length, ltb, none, not, select, some, true, ℕ, ◌+◌,
  ◌∷◌,
}

-- An entry of the map, with its key; no two have the same key.
pub record LimiterEntry : Type 0 where
  pub key : String
  pub count : ℕ
  pub reset : ℕ

pub record Limiter : Type 0 where
  pub limit : ℕ
  pub window : ℕ
  pub entries : List LimiterEntry

abbrev pub has_key : String → LimiterEntry → Bool
has_key key e = str_eq e.key key

-- `l.entries[key] = ...`
abbrev pub put : LimiterEntry → List LimiterEntry → List LimiterEntry
put e es = e ∷ select (λ x. not (has_key e.key x)) es

-- Where there are many entries, those whose window is over are dropped.
abbrev pub swept : ℕ → List LimiterEntry → List LimiterEntry
swept now es = if ltb 10000 (length es) then select (λ e. not (ltb e.reset now)) es else es

abbrev pub opened : Limiter → ℕ → String → List LimiterEntry → Bool × Limiter
opened l now key es =
    (true, record l { entries = put (record { key = key; count = 1; reset = now + l.window }) es })

abbrev pub counted : Limiter → LimiterEntry → String → List LimiterEntry → Bool × Limiter
counted l e key es = (
  leb (e.count + 1) l.limit,
  record l { entries = put (record { key = key; count = e.count + 1; reset = e.reset }) es },
)

-- `Allow`
unfoldable pub allow : ℕ → String → Limiter → Bool × Limiter
allow now key l =
    let es = swept now l.entries in
    elim (first (has_key key) es) [
      | none ↦ opened l now key es
      | some e ↦ if ltb e.reset now then opened l now key es else counted l e key es
    ]
