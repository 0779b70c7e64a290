-- ===== src/Lib.antt =====
-- Verification of the networkdisk server: the services that keep the users' trees of files.
--
-- The program. `internal/handler` decodes a request and calls a service of `internal/service`;
-- a service checks the request and reads and writes the tables through `internal/store`, one SQL
-- statement per method, some of them inside a transaction. The bytes of the files are on a disk
-- (`internal/storage`), under keys that rows of `files` name.
--
-- Which file models what:
--   Text          Go's strings as bytes: `strings.TrimSpace`, `strings.TrimSuffix`, `filepath.Ext`,
--                 and the numbered names of `fmt.Sprintf("%s (%d)%s")`.
--   Model         internal/model/model.go: the rows; `Db` is the database, `World` the database,
--                 the disk, the maps in memory, the clock and the sources of failure and
--                 randomness, `Env` what the program is configured with and relies on.
--   Exec          Go's calls: an action takes the world and returns a result or an error, and the
--                 world after it. `transaction` is `BeginTx`, the statements, and COMMIT or rollback.
--   Store         internal/store: `Store/Files` and `Store/Tx` are the methods of `Store` and `Tx`
--                 in file.go, `Store/Tree` its recursive query, `Store/Users` user.go, `Store/Shares`
--                 share.go, and `Store/Tags` tag.go.
--   Steps         the specification: what one call of a user may do to the database.
--   Files         internal/service/file.go: `Files/Guards` the shared checks, `Files/Place` creation,
--                 renaming, moving, copying and stars, `Files/Trash` the recycle bin, `Files/Purge`
--                 permanent deletion, `Files/Quota` the accounting, `Files/Requests` any sequence of
--                 requests.
--   Uploads       internal/service/file.go: `UploadFile`; `Uploads/Chunks` uploads in chunks, with
--                 their sessions; `Uploads/Effect`, `Uploads/Whole` and `Uploads/Refine` what they do to
--                 the tables, `Uploads/Stored` and `Uploads/Kept` what they leave on the disk,
--                 `Uploads/Pieces` and `Uploads/Sent` the joining of chunks, `Uploads/Requests` any
--                 sequence of calls.
--   Sessions      internal/service/user.go: refresh tokens and passwords; `Sessions/Requests` any
--                 sequence of requests.
--   Totp          internal/service/user.go: `Login`, the second factor and its limit.
--   Shares        internal/service/share.go: shares, tokens of verification, links that expire;
--                 `Shares/Bound` and `Shares/Requests` any sequence of calls that write to them,
--                 `Shares/Verified` the round trip of tokens.
--   Tags          internal/service/tag.go: tags and the files that bear them; `Tags/Requests` any
--                 sequence of calls among requests on files.
--   RateLimit     internal/middleware/ratelimit.go: `RateLimiter`, with the clock as an argument.
--   Numbers       `strconv.ParseInt`, and that it reads back what `%d` writes.
--   Config        internal/config/config.go: `Load` and `Reload`; `Config/Tables` the fields of the
--                 structs and the tables that name them, `Config/Sweep` and `Config/Effective` the visit of
--                 a map in any order, `Config/Settings` what README.md says of each setting, with two
--                 corrections, and what is to decide it, `Config/Agreement` the tables against README.md,
--                 `Config/Reading`, `Config/Decided` and `Config/Loaded` that the code decides so.
--   Tests         runs at concrete inputs.
-- An operation has the name of its Go method in snake_case. The lemmas about an operation are in the
-- child modules of its file.
--
-- What the model fixes. Every round trip to the database may fail: `faults n` says whether the n-th
-- does, and the theorems hold for every such function. A failed COMMIT has not committed. A
-- rollback also takes back the AUTO_INCREMENT counters, which InnoDB keeps: numbers that are given
-- up are never seen. That foreign keys stay off on a connection where `HardDeleteFiles` fails in
-- between is not modelled. A wrapped error is the error that it wraps. Numbers, sizes and times are
-- natural numbers: 0 stands for every id that `mustBePositive` refuses, and sums stay below 2 ^ 63.
-- The collation of MySQL, its limit on recursion, Unicode lower case, hashes, bcrypt, TOTP, base64
-- and the signing of tokens are parameters of `Env`. A call of a service runs to its end before the
-- next one starts. The order of rows that a query returns is not modelled, nor are timestamps that
-- no operation reads. INSERTs and changes of a parent test the foreign keys. The disk maps storage
-- keys to contents, and a session of an upload is a directory with its session and its chunks.
-- Every action on the disk may fail, but for the reading of a session, removals, and the clean-up
-- of sessions. Thumbnails are made later, by a goroutine, and are not part of an upload.
--
-- The settings of the services are fields of `Config` in Model; the loader of Config stands by itself,
-- with the decoder of TOML and the environment as parameters.
--
-- Loops. The recursive query runs at most `cte_depth` rounds, MySQL's own limit, and then fails, as
-- MySQL does. The search for a free name runs the 999 rounds of the Go loop. All other loops are
-- over lists.
--
-- Not modelled: the emptying of the recycle bin by age, the lists of the interface, previews,
-- archives, thumbnails, search, the audit log, registration, HTTP handlers, the syntax of
-- durations and the watcher of the configuration.
mod Prelude
pub mod Text
pub mod Model
pub mod Numbers
pub mod Exec
pub mod Store
pub mod Steps
pub mod Files
pub mod Uploads
pub mod Sessions
pub mod Totp
pub mod RateLimit
pub mod Shares
pub mod Tags
pub mod Config
mod Tests
