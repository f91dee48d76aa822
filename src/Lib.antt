-- ===== src/Lib.antt =====
-- Trackstar: a project tracker with stories on a board, iterations and velocity, written in Go.
--
-- The services of the program run statements on one database, each operation in one transaction
-- that is rolled back when it fails. A story goes through a workflow of states; a state puts it into
-- a section of the board, and inside a section stories are ordered by sparse integer positions.
-- Iterations slice time; velocity averages the points that were accepted per iteration. Members of a
-- project have roles, which decide what they may do. Accounts sign in with a password, and act through
-- sessions, personal API tokens or OAuth access tokens. A hub passes changes on to open boards.
--
-- Files, and the code they are about:
-- - AppErr: internal/apperr/apperr.go, the errors, and `IsNotFound` of internal/database/database.go.
-- - Position: internal/story/position.go, on int64 with its wrap-around.
-- - Workflow: internal/story/states.go; a string that is none of the constants is `unknown`.
-- - Db: the statements of internal/database/dbgen that the services call. `Rows` has the tables as
--   lists of rows; `Tx` has statements as functions from a database to a result and a database, and
--   `InTx`; the others have one function per statement, from its SQL text.
-- - Iteration: internal/iteration/iteration.go.
-- - Story: internal/story/story.go, and `setBlockers` and `reaches` of internal/story/tasks.go:
--   `Place` (place), `View` (load, save, record, requireUser), `Labels` (setLabels), `Blockers`,
--   `Create`, `Update`, `Move` (Move and MoveMany) and `Trash` (Delete, Restore, Purge). A body of one
--   function is split into the stages that it has in the source, in their order. `Comments` has
--   AddComment and DeleteComment, `Tasks` has Tasks, AddTask, UpdateTask and DeleteTask of
--   internal/story/tasks.go.
-- - User: internal/user/user.go.
-- - Auth: `Accounts` for internal/auth/auth.go, `Tokens` for internal/auth/token.go, `Oauth` for
--   internal/auth/oauth.go, `Limiter` for internal/auth/limiter.go. `Sessions`, `SignedOut` and
--   `Managed` are about several of these.
-- - Events: internal/events/hub.go, with what it promises in `Spec`.
-- - Velocity: internal/velocity/velocity.go.
-- - Project: `Members` for internal/project/members.go; `Settings`, `Slug` and `Create` for
--   internal/project/project.go.
-- - Access: `authorize` of internal/api/access.go.
-- - Common: helpers; Sample and Tests: runs at concrete inputs.
--
-- What is a parameter: the ids that the database gives to new rows (`Engine`: an id is new), package
-- time in the project's location (`Calendar`, with `IsCalendar` for days that follow one another), and
-- `strings.ToLower`; for accounts HMAC, bcrypt, SHA-256 and the parsing of addresses, of URLs and of IP
-- addresses (`AuthEnv`, `UrlEnv`); for slugs the Unicode classes of letters and digits (`SlugEnv`).
-- Random texts are arguments of the operations that draw them.
--
-- What is left out: failures of the connection and of the disk; the values that a formatted message
-- is filled with; the counter `Rebalances`; JSON. An operation reads the clock once. Ids and times are
-- natural numbers. The float64 average of `Velocity` is kept as the division it is the result of.
--
-- Bounds and fuel: theorems on positions take positions within 2 ^ 61 of zero, where no int64
-- operation wraps, and at most 2 ^ 44 stories, where a rebalance stays inside; positions of tasks within
-- 2 ^ 62. The loop of `At` runs on
-- fuel of the iteration number it starts from and the day of the instant, more than the steps it can
-- take. `reaches` has 51 rounds, as the source has depths 0 to 50, and
-- answers true when they run out, as the source does. `uniqueSlug` has as many rounds as there are
-- projects and one more, and always ends within them. Ids of subscribers are uint64, and the theorem on
-- the hub takes fewer than 2 ^ 64 calls, so that none comes twice.
--
-- Not modelled: epics and lists of the story service, saved filters and stars, deletion and lists of
-- projects, and the HTTP and MCP layers, configuration and commands.
pub mod Common
pub mod AppErr
pub mod Position
pub mod Workflow
pub mod Db
pub mod Iteration
pub mod Story
pub mod Velocity
pub mod User
pub mod Project
pub mod Access
pub mod Auth
pub mod Events
pub mod Sample
pub mod Tests
