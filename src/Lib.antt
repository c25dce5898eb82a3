-- ===== src/Lib.antt =====
-- The backend of CTFBoard, a platform for capture-the-flag competitions: its use cases as functions of
-- the database's tables, and what they guarantee.
--
-- The program is layered. Controllers (backend/internal/controller) call use cases
-- (backend/internal/usecase), which run statements on the database through repositories
-- (backend/internal/repo/persistent), often several of them in one transaction. The rows are the
-- entities (backend/internal/entity). The model has one module for each part:
--
--   Base              lists, tests, options and integers.
--   Entity            the rows, the sentinel errors, and the competition's status and modes.
--   Store             the tables as one record `Db`, a transaction as a function `Tx` that fails or
--                     returns new tables, `run_transaction`, and a function for each statement that a
--                     use case runs. Store.Statement has the statements outside a transaction, each
--                     of which commits by itself.
--   Guard             usecase/competition/guard.go: what the settings let teams do.
--   Cache             pkg/cache: the scoreboards that Redis keeps, which keys are dropped when, and the
--                     bounded cache of compiled patterns.
--   Scoreboard        usecase/competition/solve.go: `GetScoreboard`, its queries and its cache. `World`
--                     is the tables and the cached boards.
--   Scoring           usecase/competition/scoring.go: the points of a challenge by its solves.
--   ChallengeUseCase  usecase/challenge/challenge.go: how a flag is stored, compared and submitted, and
--                     what a solve changes.
--   HintUseCase       usecase/challenge/hint.go: a team pays points for a hint.
--   SolveUseCase      usecase/competition/solve.go: `Create`.
--   AwardUseCase      usecase/team/award.go: points given by hand.
--   TeamUseCase       usecase/team/team.go: creating, joining, leaving, leading, disbanding and
--                     moderating teams.
--   UserUseCase       usecase/user: registration, login and API tokens.
--   EmailUseCase      usecase/email: verification of addresses and resets of passwords.
--   FieldUseCase      usecase/settings/field.go and validator.go: the fields of forms.
--   DynamicConfigUseCase
--                     usecase/competition/dynamic_config.go: typed settings behind a cache in memory.
--   SubmissionUseCase usecase/competition/submission.go: the log of submissions in pages.
--   CommentUseCase    usecase/challenge/comment.go: comments on challenges.
--   BracketUseCase    usecase/competition/bracket.go: the brackets that teams compete in.
--   Session           pkg/jwt and controller/restapi/middleware: tokens, and which requests are let in.
--   Hub               pkg/websocket: the hub that sends events to the browsers, its goroutines as a
--                     step relation.
--   Golang            `len`, `strings.TrimSpace` and `strconv.Atoi`, and what trimming leaves.
--   Roster            who is in which team and who leads it, as the tables tell it: lemmas on the
--                     tables and the invariant.
--   Samples           data for the tests.
--
-- A function of the source keeps its name, in small letters (`joinTx` is `join_tx`).
--
-- What is not under the repository is an argument. `Env` gives the clock, the ids that `uuid.New`
-- and the tables' defaults draw, whether the pool can begin and commit, and, for operations that
-- use no transaction, whether the database answers their n-th statement, and in which order it
-- gives submissions of the same time. `Packages` has uuid,
-- bcrypt, SHA-256, the random source and golang-jwt; `EmailDeps` says whether the mailer takes a
-- message. `Platform` has the text functions, the hash, the patterns and the encryption that flags
-- pass through, and `Float64` the arithmetic of the scoring formula; the theorems name what they
-- need of them. It is an assumption of the model that transactions run one after another. Most
-- transactions of teams lock the rows of the user and the team they are about (`LockUserTx`,
-- `LockTeamTx`), and one that records a solve locks the challenge, but the locks do not cover all
-- that is written: the reset of a solo team (`handleSoloTeamCleanup`) does not lock the old team, nor
-- does `kickMemberTx` lock the member who is kicked. An `int` of Go is an integer without
-- bounds, except where the code itself narrows it to 32 bits; the sums that the SQL statements
-- cast with `::int` are taken to fit. Wrapping an error keeps its sentinel, so an error is its
-- sentinel here. A time to live is in seconds. The free-form details of an entry of the audit log
-- are left out. Nothing in the model needs fuel.
--
-- The hub's goroutines do interleave, step by step. A map of custom fields is a list in the order
-- in which Go visits it. Unique columns are checked by the inserts,
-- except the drawn keys of awards, hints and the two logs. Foreign keys are checked by the
-- inserts of solves, awards, hints and their unlocks, submissions, comments, API tokens, verification
-- tokens and values of fields; those of a new team and of the two logs are not, and neither are the
-- widths of VARCHAR columns. The lists of submissions, which are ordered by time alone, have rows of the
-- same time in an order that each query chooses (`Env.ties`).
--
-- `get_scoreboard` is `GetScoreboard` where the competition, the query and Redis answer;
-- `try_get_scoreboard` (Scoreboard.Failures) has the errors of these reads and writes too, and is the
-- same where there are none. Rows of a scoreboard that are equal in points and last solve come in one
-- fixed order.
--
-- Not modelled: controllers, generated code, mocks, configuration, the frontend, and the use cases
-- for statistics, ratings, pages, notifications, tags, files, settings and backups.
pub mod Base
pub mod Entity
pub mod Store
pub mod AwardUseCase
pub mod Cache
pub mod Guard
pub mod Samples
pub mod Scoreboard
pub mod Scoring
pub mod ChallengeUseCase
pub mod SolveUseCase
pub mod TeamUseCase
pub mod HintUseCase
pub mod Roster
pub mod Hub
pub mod Golang
pub mod FieldUseCase
pub mod DynamicConfigUseCase
pub mod Session
pub mod BracketUseCase
pub mod CommentUseCase
pub mod SubmissionUseCase
pub mod UserUseCase
pub mod EmailUseCase
