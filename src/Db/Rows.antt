-- ===== src/Db/Rows.antt =====
-- The rows of internal/database/dbgen/models.go, and the tables of db/migrations as lists of rows.
-- Ids and times (Unix seconds) are natural numbers, and so are estimates; positions are integers.
use trackstar.Common.{Bool, List, Option, String, ℕ}
use trackstar.Common.Int.{ℤ}
use trackstar.Workflow.{State, StoryType}

pub record UserRow : Type 0 where
  pub id : ℕ
  pub email : String
  pub password_hash : String
  pub display_name : String
  pub is_admin : Bool
  pub created_at : ℕ
  pub updated_at : ℕ
  pub is_active : Bool
  pub default_combine_icebox_backlog : Bool

pub record ProjectRow : Type 0 where
  pub id : ℕ
  pub name : String
  pub description : String
  pub slug : String
  pub iteration_length_days : ℕ
  pub iteration_start_weekday : ℕ
  pub velocity_window : ℕ
  pub created_at : ℕ
  pub updated_at : ℕ
  pub archived_at : Option ℕ
  pub estimate_bugs_and_chores : Bool
  pub combine_icebox_backlog : Bool

-- `role` is "owner" or "member" in the source; `unknown` is any other string.
pub data Role : Type 0 where
  owner member unknown : Role

pub record MemberRow : Type 0 where
  pub project_id : ℕ
  pub user_id : ℕ
  pub role : Role

pub record StoryRow : Type 0 where
  pub id : ℕ
  pub project_id : ℕ
  pub title : String
  pub description : String
  pub type : StoryType
  pub state : State
  pub estimate : Option ℕ
  pub position : ℤ
  pub requester_id : ℕ
  pub owner_id : Option ℕ
  pub created_at : ℕ
  pub updated_at : ℕ
  pub accepted_at : Option ℕ
  pub deleted_at : Option ℕ

pub record CommentRow : Type 0 where
  pub id : ℕ
  pub story_id : ℕ
  pub user_id : ℕ
  pub body : String
  pub created_at : ℕ
  pub updated_at : ℕ

-- A value of the activity log is a string: a text, or a number in decimal.
pub data LogValue : Type 0 where
  text : String → LogValue
  decimal : ℕ → LogValue

pub record ActivityRow : Type 0 where
  pub id : ℕ
  pub story_id : ℕ
  pub user_id : ℕ
  pub kind : String
  pub old_value : LogValue
  pub new_value : LogValue
  pub created_at : ℕ

pub record LabelRow : Type 0 where
  pub id : ℕ
  pub project_id : ℕ
  pub name : String
  pub is_epic : Bool
  pub description : String

pub record StoryLabelRow : Type 0 where
  pub story_id : ℕ
  pub label_id : ℕ

pub record TaskRow : Type 0 where
  pub id : ℕ
  pub story_id : ℕ
  pub description : String
  pub done : Bool
  pub position : ℤ
  pub created_at : ℕ
  pub updated_at : ℕ

pub record BlockerRow : Type 0 where
  pub story_id : ℕ
  pub blocker_id : ℕ

-- No statement reads the id of a session.
pub record SessionRow : Type 0 where
  pub token_hash : String
  pub user_id : ℕ
  pub created_at : ℕ
  pub expires_at : ℕ

pub record ApiTokenRow : Type 0 where
  pub id : ℕ
  pub user_id : ℕ
  pub name : String
  pub token_hash : String
  pub created_at : ℕ
  pub last_used_at : Option ℕ
  pub expires_at : Option ℕ

-- `redirect_uris` is a JSON array of strings in the table; here it is the list.
pub record OauthClientRow : Type 0 where
  pub id : ℕ
  pub client_id : String
  pub name : String
  pub redirect_uris : List String
  pub created_at : ℕ
  pub last_used_at : Option ℕ

pub record OauthGrantRow : Type 0 where
  pub id : ℕ
  pub user_id : ℕ
  pub client_id : ℕ
  pub created_at : ℕ
  pub last_used_at : Option ℕ

pub record OauthCodeRow : Type 0 where
  pub id : ℕ
  pub code_hash : String
  pub user_id : ℕ
  pub client_id : ℕ
  pub redirect_uri : String
  pub code_challenge : String
  pub expires_at : ℕ
  pub used_at : Option ℕ
  pub grant_id : Option ℕ

-- `kind` is "access" or "refresh", by a check of the table.
pub data TokenKind : Type 0 where
  access refresh : TokenKind

pub record OauthTokenRow : Type 0 where
  pub id : ℕ
  pub grant_id : ℕ
  pub kind : TokenKind
  pub token_hash : String
  pub expires_at : ℕ
  pub used_at : Option ℕ

pub record Db : Type 0 where
  pub users : List UserRow
  pub projects : List ProjectRow
  pub members : List MemberRow
  pub stories : List StoryRow
  pub comments : List CommentRow
  pub activity : List ActivityRow
  pub labels : List LabelRow
  pub story_labels : List StoryLabelRow
  pub tasks : List TaskRow
  pub blockers : List BlockerRow
  pub sessions : List SessionRow
  pub api_tokens : List ApiTokenRow
  pub oauth_clients : List OauthClientRow
  pub oauth_grants : List OauthGrantRow
  pub oauth_codes : List OauthCodeRow
  pub oauth_tokens : List OauthTokenRow
