-- ===== src/AppErr.antt =====
-- internal/apperr/apperr.go: the errors that services return, as values.
use trackstar.Common.{Bool, Option, String, false, none, some, true}

-- `Kind`, in the order of its constants.
pub data Kind : Type 0 where
  invalid unauthorized forbidden not_found conflict rate_limited : Kind

-- An application error has its kind and its message; of a formatted message the format is kept,
-- without the values put into it. `oauth` is an `OAuthError` of internal/auth/oauth.go, of which the
-- code is kept. Below stand the errors of the database that the code tells
-- apart or passes on: `sql.ErrNoRows` and a broken constraint.
pub data Failure : Type 0 where
  app : Kind → String → Failure
  oauth : String → Failure
  no_rows : Failure
  constraint : Failure

-- `Invalid`, `Unauthorized`, `Forbidden`, `NotFound`, `Conflict`
abbrev pub invalid_err : String → Failure
invalid_err = app Kind.invalid

abbrev pub unauthorized_err : String → Failure
unauthorized_err = app Kind.unauthorized

abbrev pub forbidden_err : String → Failure
forbidden_err = app Kind.forbidden

-- The source appends " not found" to what was looked for, which is all that is kept here.
abbrev pub not_found_err : String → Failure
not_found_err = app Kind.not_found

abbrev pub conflict_err : String → Failure
conflict_err = app Kind.conflict

-- `KindOf`, with `none` for 0.
pub kind_of : Failure → Option Kind
kind_of (app k m) = some k
kind_of (oauth code) = none
kind_of no_rows = none
kind_of constraint = none

-- `database.IsNotFound`
abbrev pub is_not_found : Failure → Bool
is_not_found no_rows = true
is_not_found (app k m) = false
is_not_found (oauth code) = false
is_not_found constraint = false

-- `notFound` of the story service and `notFoundErr` of the project service.
abbrev pub or_not_found : String → Failure → Failure
or_not_found what no_rows = not_found_err what
or_not_found what (app k m) = app k m
or_not_found what (oauth code) = oauth code
or_not_found what constraint = constraint
