-- ===== src/Sample.antt =====
-- A small board to run the operations on.
use text.Mathlib.Text.{◌==◌ as str_eq}
use trackstar.Auth.Accounts.{AuthEnv}
use trackstar.Common.{
  All, Bool, List, Option, [], arith, false, if◌then◌else◌, is_some, max, none, refl, some, suc,
  true, ℕ, ◌*◌, ◌/◌, ◌==◌, ◌∷◌, ◌≡◌, ◌≤◌,
}
use trackstar.Common.Int.{pos}
use trackstar.Db.Ids.{UniqueIds}
use trackstar.Db.Rows.{
  BlockerRow, Db, OauthClientRow, OauthCodeRow, OauthGrantRow, OauthTokenRow, ProjectRow, Role,
  SessionRow, StoryRow, TokenKind, UserRow,
}
use trackstar.Db.Stories.{Engine}
use trackstar.Db.Tx.{ok}
use trackstar.Iteration.{Calendar, IsCalendar}
use trackstar.Story.Place.Rows.{InRange}
use trackstar.Story.Types.{Env}
use trackstar.Story.Update.{bad_estimate, needs_estimate}
use trackstar.Story.Validity.{IsValid, IsValidStory}
use trackstar.User.Admins.{IsManaged}
use trackstar.Workflow.{
  State, StoryType, in_progress, state_eq, state_valid, type_valid, valid_estimate,
}

abbrev pub largest : List ℕ → ℕ
largest [] = 0
largest (n ∷ ns) = max n (largest ns)

below_largest : (ns : List ℕ) (m : ℕ) → largest ns ≤ m → All (λ i. (i == suc m) ≡ false) ns
below_largest [] m h = tt
below_largest (n ∷ ns) m h = (ground (arith, h), below_largest ns m (omega arith))

abbrev pub next_id : List ℕ → ℕ
next_id ns = suc (largest ns)

pub next_id_new : (ns : List ℕ) → All (λ i. (i == next_id ns) ≡ false) ns
next_id_new ns = below_largest ns (largest ns) (omega arith)

abbrev pub sample_engine : Engine
sample_engine = record { fresh_id = next_id; fresh_id_new = next_id_new }

abbrev pub sample_calendar : Calendar
sample_calendar = record { midnight = λ d. d * 86400; day_of = λ t. t / 86400 }

pub sample_calendar-IsCalendar : IsCalendar sample_calendar
sample_calendar-IsCalendar = record {
  midnight_step = λ d. omega arith;
  day_begins = λ t. omega arith;
  day_ends = λ t. omega arith;
}

abbrev pub sample_env : Env
sample_env = record { engine = sample_engine; calendar = sample_calendar; to_lower = λ s. s }

abbrev pub sample_project : ProjectRow
sample_project = record {
  id = 1;
  name = "Board";
  description = "";
  slug = "board";
  iteration_length_days = 7;
  iteration_start_weekday = 0;
  velocity_window = 3;
  created_at = 100000;
  updated_at = 100000;
  archived_at = none;
  estimate_bugs_and_chores = true;
  combine_icebox_backlog = false;
}

abbrev pub sample_story : ℕ → State → Option ℕ → ℕ → Option ℕ → Option ℕ → StoryRow
sample_story id state estimate position accepted_at deleted_at = record {
  id = id;
  project_id = 1;
  title = "A story";
  description = "";
  type = StoryType.feature;
  state = state;
  estimate = estimate;
  position = pos position;
  requester_id = 1;
  owner_id = none;
  created_at = 100000;
  updated_at = 100000;
  accepted_at = accepted_at;
  deleted_at = deleted_at;
}

abbrev pub sample_user : ℕ → Bool → UserRow
sample_user id is_admin = record {
  id = id;
  email = if id == 1 then "owner@example.org" else "user@example.org";
  password_hash = "secret";
  display_name = "User";
  is_admin = is_admin;
  created_at = 100000;
  updated_at = 100000;
  is_active = true;
  default_combine_icebox_backlog = false;
}

abbrev pub sample_client : OauthClientRow
sample_client = record {
  id = 1;
  client_id = "app";
  name = "App";
  redirect_uris = "https://app.example.org/" ∷ [];
  created_at = 100000;
  last_used_at = none;
}

abbrev pub sample_code : OauthCodeRow
sample_code = record {
  id = 1;
  code_hash = "code";
  user_id = 1;
  client_id = 1;
  redirect_uri = "https://app.example.org/";
  code_challenge = "challenge";
  expires_at = 900030;
  used_at = none;
  grant_id = none;
}

abbrev pub sample_grant : OauthGrantRow
sample_grant = record {
  id = 1;
  user_id = 2;
  client_id = 1;
  created_at = 800000;
  last_used_at = none;
}

abbrev pub sample_refresh : OauthTokenRow
sample_refresh = record {
  id = 1;
  grant_id = 1;
  kind = TokenKind.refresh;
  token_hash = "tsr_old";
  expires_at = 5984000;
  used_at = none;
}

abbrev pub sample_session : SessionRow
sample_session = record {
  token_hash = "session";
  user_id = 2;
  created_at = 800000;
  expires_at = 3392000;
}

abbrev pub sample_blockers : List BlockerRow
sample_blockers = record { story_id = 2; blocker_id = 3 } ∷ []

abbrev pub sample_db : Db
sample_db = record {
  users = sample_user 1 true ∷ sample_user 2 false ∷ [];
  projects = sample_project ∷ [];
  members =
      record { project_id = 1; user_id = 1; role = Role.owner }
      ∷ record { project_id = 1; user_id = 2; role = Role.owner }
      ∷ [];
  stories =
      sample_story 1 State.started (some 3) 0 none none
      ∷ sample_story 2 State.icebox none 65536 none none
      ∷ sample_story 3 State.icebox (some 5) 131072 none none
      ∷ sample_story 4 State.accepted (some 2) 0 (some 200000) none
      ∷ sample_story 5 State.backlog none 0 none (some 300000)
      ∷ [];
  comments = [];
  activity = [];
  labels = [];
  story_labels = [];
  tasks = [];
  blockers = sample_blockers;
  sessions = sample_session ∷ [];
  api_tokens = [];
  oauth_clients = sample_client ∷ [];
  oauth_grants = sample_grant ∷ [];
  oauth_codes = sample_code ∷ [];
  oauth_tokens = sample_refresh ∷ [];
}

-- Hashes that are the texts themselves.
abbrev pub sample_auth : AuthEnv
sample_auth = record {
  engine = sample_engine;
  allow_registration = false;
  hash_token = λ token. token;
  generate_hash = λ salt password. ok password;
  matches = λ hash password. str_eq hash password;
  parse_address = λ email. some email;
  to_lower = λ email. email;
}

-- The time of the sample runs, in the second iteration.
abbrev pub sample_now : ℕ
sample_now = 900000

sample_story-IsValid :
    (id : ℕ) (state : State) (estimate : Option ℕ) (position : ℕ)
    (accepted_at deleted_at : Option ℕ)
    → state_valid state ≡ true
    → bad_estimate estimate ≡ false
    → is_some accepted_at ≡ state_eq state State.accepted
    → needs_estimate (sample_story id state estimate position accepted_at deleted_at) ≡ false
    → IsValidStory (sample_story id state estimate position accepted_at deleted_at)
unfolding type_valid
sample_story-IsValid id state estimate position accepted_at deleted_at a b c e = record {
  sound = record { type_ok = refl; state_ok = a; points_ok = b; dated = c };
  estimated = e;
}

pub sample_db-IsValid : IsValid sample_db
unfolding state_valid valid_estimate needs_estimate in_progress
sample_db-IsValid = (
  sample_story-IsValid 1 State.started (some 3) 0 none none refl refl refl refl,
  (
    sample_story-IsValid 2 State.icebox none 65536 none none refl refl refl refl,
    (
      sample_story-IsValid 3 State.icebox (some 5) 131072 none none refl refl refl refl,
      (
        sample_story-IsValid 4 State.accepted (some 2) 0 (some 200000) none refl refl refl refl,
        (sample_story-IsValid 5 State.backlog none 0 none (some 300000) refl refl refl refl, tt),
      ),
    ),
  ),
)

pub sample_db-UniqueIds : UniqueIds sample_db
sample_db-UniqueIds = ground arith

pub sample_db-InRange : InRange sample_db
sample_db-InRange = ground arith

pub sample_db-IsManaged : IsManaged sample_db
sample_db-IsManaged = ground arith
