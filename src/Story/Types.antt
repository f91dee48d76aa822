-- ===== src/Story/Types.antt =====
-- The types of internal/story/story.go and opt.go that the operations take and return.
use trackstar.Common.{Bool, List, Option, String, none, some, ℕ}
use trackstar.Db.Rows.{LogValue, StoryRow}
use trackstar.Db.Stories.{Engine}
use trackstar.Iteration.{Calendar}
use trackstar.Workflow.{Section, State, StoryType}

-- What the service is given: the database engine, package time's calendar in the service's zone, and
-- `strings.ToLower`, which follows the tables of Unicode.
pub record Env : Type 0 where
  pub engine : Engine
  pub calendar : Calendar
  pub to_lower : String → String

-- `Story`; `labels`, `comment_count` and what follows are filled in by `load`.
pub record Story : Type 0 where
  pub row : StoryRow
  pub section : Section
  pub labels : List String
  pub comment_count : ℕ
  pub task_count : ℕ
  pub tasks_done : ℕ
  pub blocked_by : List ℕ
  pub blocked : Bool

pub record Actor : Type 0 where
  pub id : ℕ
  pub is_admin : Bool

-- `type` and `section` are absent where the source has the empty string.
pub record CreateInput : Type 0 where
  pub title : String
  pub description : String
  pub type : Option StoryType
  pub estimate : Option ℕ
  pub section : Option Section
  pub owner_id : Option ℕ
  pub labels : List String
  pub blocked_by : List ℕ
  pub after : Option ℕ

-- `Opt`: `none` is a field that is absent, `some none` one that is null.
abbrev pub Opt : Type 0 → Type 0
Opt A = Option (Option A)

pub record UpdateInput : Type 0 where
  pub title : Option String
  pub description : Option String
  pub type : Option StoryType
  pub state : Option State
  pub estimate : Opt ℕ
  pub owner_id : Opt ℕ
  pub requester_id : Option ℕ
  pub labels : Option (List String)
  pub blocked_by : Option (List ℕ)

pub record MoveInput : Type 0 where
  pub section : Section
  pub prev_id : Option ℕ
  pub next_id : Option ℕ

pub record MoveResult : Type 0 where
  pub story : Story
  pub renormalized : Bool

-- `fmtNullInt`
unfoldable pub fmt_null_int : Option ℕ → LogValue
fmt_null_int none = LogValue.text ""
fmt_null_int (some n) = LogValue.decimal n
