-- ===== src/Lib.antt =====
-- SwaDrive's server (server/internal): files on a storage volume, a metadata index that shows them, and
-- resumable uploads onto the volume.
--
-- An owner creates an upload for a path, sends its chunks, and completes it: the part file that
-- collected the chunks is renamed to the path below `files/`, and the metadata index, the upload's row
-- and the audit log are brought up to date in one transaction. A crash between the rename and the
-- transaction leaves the upload `finalizing`, and a reconciliation at startup finishes or resets it.
--
-- An owner also makes directories, moves files, and puts them into the trash. Volume and database cannot
-- change together, so a directory or a move is announced in the index, which calls itself unhealthy until
-- the change is booked or taken back, and a trash entry waits in a state of its own, which a
-- reconciliation at startup settles.
--
-- Every request carries a token of a session. A login checks a name and a password, behind a limiter that
-- counts failures by account and by address, and stores the hash of a new random token; a logout and a
-- reset of the owner's credentials revoke sessions. A rebuild walks the volume, fills a new generation of
-- the index with what it finds, makes it the active one, and removes the rows of the old generations.
--
-- Files of the development and the code that they model (paths from the repository's root):
--   Base, Base/*            helpers: Boolean tests, lists, bytes, errors (the `Err…` sentinels of all
--                           packages are `Error`) and results
--   Platform                what is not this repository's code: SHA-256 and `strings.ToLower`
--   Database                the tables that the services share
--   World                   what a request runs in: tables, volume, clock, free space, admissions, and
--                           the faults of coming calls; the monad of the services' methods. Laws, Frame,
--                           Ends and Running say what its steps change, where a method can end and
--                           how it runs without faults
--   Auth/Model, Library     server/internal/auth/models.go; base64, Argon2id and `strings.TrimSpace` are
--                           a parameter, `Library`
--   Auth/Policy, Password,  server/internal/auth/policy.go, password.go and session_token.go: names,
--     Token                 password hashes and their admissions, tokens
--   Auth/Repository         server/internal/auth/sqlite_repository.go and the constraints of
--                           server/internal/database/migrations/0001_auth.sql; Transactions and History
--                           are about sequences of its transactions
--   Auth/Service            server/internal/auth/service.go: `Login`, `Authenticate`, `Logout` and the
--                           owner's credentials
--   Auth/Authentication,    whom a token authenticates, who can log in, what ends a session for good,
--     Login, Revocation,    and that a hash verifies its password
--     Hashing
--   Auth/Limiter            server/internal/auth/limiter.go; the entry that a full map loses is a
--                           parameter, as Go's map iteration has no order. That entry may be a blocked
--                           one, so Lasting is about tables that have room
--   Audit/Event, Listing    server/internal/audit: validation, metadata, appending; `List`
--   Storage/Utf8, Path      server/internal/storage/path.go: `ParsePath`, `rootName`, internal names
--   Storage/Disk            the volume: what `Lstat` answers at each name, renames, writes
--   Storage/Manager, Repair server/internal/storage/storage.go: `Manager`
--   Files/Index, Subtree    server/internal/files/index.go, index_repository.go: entries, health,
--                           mutations, and the statements that move, hide and show a subtree
--   Files/Trash, Repository server/internal/files/sqlite_repository.go and the audited transactions of
--                           index_repository.go
--   Files/Pages             `List` and `Search` of index_repository.go and the cursors of index.go;
--                           base64, JSON and `strings.TrimSpace` are a parameter, `Codec`
--   Files/Service           server/internal/files/service.go: `CreateDirectory` and `Move`; Trashing is
--                           `Trash`, `Restore` and `ReconcileTrash`, Downloads is `Metadata`,
--                           `OpenDownload` and `ListTrash`, Listing is `List` and `Search`
--   Files/Agreement,        when the index agrees with the volume, and the methods that keep it
--     Consistency
--   Files/Reindex           server/internal/files/reindex.go: Tables has the transactions; Generations,
--                           Activation and Cleanup are about them. What a walk finds on a volume is a
--                           parameter, the interface `ReindexStorage`
--   Files/Moved, Progress,  what a `Move` has done, when it succeeds, and what a download serves
--     Served
--   Uploads/Model, Chunks   server/internal/uploads/models.go and the chunk arithmetic of service.go
--   Uploads/Repository      server/internal/uploads/sqlite_repository.go and the constraints of
--                           server/internal/database/migrations/0002_backend_v1.sql: a transaction is a
--                           function of the tables that gives the new tables or an error
--   Uploads/Service         server/internal/uploads/service.go: Transfer is `Create` and `PutChunk`,
--                           Completion is `Complete`, with Overlong and Unmarked on a name that it
--                           cannot book; Recovery is `ReconcileFinalizing`, `Cancel` and
--                           `CleanupExpired`
--   Uploads/Orphans         server/internal/uploads/orphan_reconcile.go, over the entries that the walk
--                           through the uploads' directory visits
--   Tests                   the definitions on concrete inputs
--
-- Go strings and byte slices are lists of bytes. Sizes, counts and times that the code keeps from being
-- negative are natural numbers; request parameters are integers; the product in `chunkBounds` is taken
-- modulo 2 ^ 64, as for `int64`. Times are nanoseconds, stored in columns of whole seconds. A call of the
-- database or the volume can fail with `fault`, which stands for an error of the driver or the system or
-- a cancelled context; it then has no effect. `World.faults` says which calls do. That a directory to
-- remove is not empty is such an error too. An error that the code wraps with `%w` around a sentinel is
-- the sentinel.
--
-- `reconcile_rounds` and `reconcile_trash_rounds` run on 10 rounds: the code takes pages of 100 and stops
-- at 1000. `rebuild` runs on a number of pages of the trash and of rounds of the removal; one round more
-- than there are rows to remove is enough.
--
-- Not modelled: permissions and `fsync`, links above the last component of a path, an error of a call
-- that had its effect all the same, the locks (requests run one after the other, only the admission
-- counts are kept), the probe of the volume's availability, List of uploads, the slot that a download
-- keeps until it is closed, the walks through the volume, HTTP and the commands. A password derivation
-- takes an admission of its own and gives it back, so only those of others are counted. The time
-- `now.Add(-LastSeenWriteInterval)` of `Authenticate` stops at the epoch. The client is a scaffold.
pub mod Base
pub mod Platform
pub mod Storage
pub mod Files
pub mod Audit
pub mod Auth
pub mod Database
pub mod World
pub mod Uploads
pub mod Tests
