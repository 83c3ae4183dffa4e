-- ===== src/Lib.antt =====
-- A verification library for dot-sync-manager, the daemon that commits and pushes a directory of dotfiles.
--
-- The program. The sync service (internal/sync) watches the repository, gives every file event to a
-- debouncer (internal/debouncer), and on the debouncer's signal has the git manager
-- (internal/gitmanager) stage, commit and push. It records what happened in the status manager
-- (internal/status), which answers status requests on a socket, and tells its caller by callbacks. The
-- configuration (internal/config) is read, expanded, validated and converted for all of these.
--
-- The files, with paths from the root of the repository.
-- Base: shared names. Base.Tests, Base.Lists and Base.Strings hold Boolean tests, lists measured by native
--   numbers and texts as lists of bytes; Base.Dict is a Go map with string keys, Base.Int int values,
--   Base.Result a value or an error, Base.Sort sort.Strings, Base.Paths path/filepath.
-- Files: the file system as a map from clean absolute paths to files, directories and links, with the calls
--   of package os, and the copy of a file that internal/symlink/backup.go and cmd/add.go each have.
-- Debouncer: internal/debouncer. Timers is time.AfterFunc and Timer.Stop; Basic is debouncer.go (New, Add,
--   Cancel, CancelAll, Pending, SetDelay, GetDelay); Backoff is the delay of advanced_debouncer.go
--   (NewAdvanced, recordActivity, calculateDelay), Advanced its timers (AddWithContext, AddImmediate,
--   handleManualSync) and Advanced.Queue its queue of manual syncs, Stop and Start. Interface is
--   DebouncerInterface of internal/sync/service.go, filled by both.
-- Status: internal/status/status.go, one function per method of StatusManager.
-- Git: internal/gitmanager. Commit is StageCommitAndPush and what it calls in git_manager.go; Settings is
--   config.go, Stash is applyStash of stash.go, where a snapshot holds for each file what can be read of its
--   copies, and only the read of a local copy fails. Pull is createStash and PullWithStash; what go-git makes of the
--   files by the reset and the pull is an argument.
-- Sync: internal/sync/service.go. Start is one step; Stop is `begin_stop` up to its wait and `finish_stop`
--   after it, since everything else can happen in between; `loop_round` is a turn of eventLoop. Watch is
--   the recursive watch, Settings is Config and New, Wiring is the advanced debouncer as the service
--   calls it, Reachable the step relation.
-- Config: internal/config/sync_config.go and ExpandPath of internal/util/path.go. Validation is Validate,
--   one function per section; Codec the JSON of the git section; Expanding, Loading and Convert the rest.
-- Conflict: service.go, actions.go and events.go of internal/conflict. The conflict directory is a list of
--   directories with the times that their names parse to; UseLocal and UseRemote are one function of the
--   suffix of the version.
-- Ignore: internal/ignore/parser.go. A match is `none` where a slice out of range panics; filepath.Match,
--   strings.TrimSpace and filepath.Abs are arguments.
-- Symlink: internal/symlink. Symlink itself is manager.go (CreateLink, RemoveLink, VerifyMappings), Mappings
--   mappings.go, Backup and Backup.Listing backup.go (BackupExisting, RestoreFromBackup, CleanupOldBackups,
--   the names of backups). Mappings is the memory and the file that the last save wrote.
-- Cmd: `dsm add` (Cmd.Add, cmd/add.go) and `dsm remove` (Cmd.Remove, cmd/remove.go), which move a file into the
--   repository and back; a record of Booleans and faults says which calls of the system work. Cmd.Keys is the
--   lookup and the change of a value by `dsm config` (cmd/config.go).
-- Process: internal/process/daemon.go. Process is the PID file (readPIDFromPath, cleanupStalePIDFile), Decimal the
--   numbers in it, Locks WritePIDExclusive in three steps with Unlock and RemovePID as relations between the
--   states of the shared files, Queries IsDaemonRunningPIDOnly, IsDaemonRunning and GetDaemonPID.
-- Locks: internal/util/filelock.go, on what the system knows of the locks of one file.
-- Tests: runs on small inputs, and each theorem at an input where its conditions hold.
--
-- Modelling. A method that holds a mutex throughout is one step, and so is the part of a timer's closure
-- that holds it. What the system, go-git, the clock or encoding/json answers is an argument. Callbacks are
-- values, and running one is recorded. Durations are numbers of nanoseconds; where int64 wraps around, in
-- Config.Convert and in the counters of Status, that is written out modulo 2^64. float64 is a record of the
-- operations used, and net/mail's ParseAddress is a Boolean function. A loop is recursion on the list,
-- map or tree that it runs over, or on its own bound: the 100 attempts at the name of a backup, the 40 links that the
-- system follows, and for a decimal the number itself, which has no more digits than that. A call
-- of the system either works, is refused, or stops halfway; the umask is zero.
--
-- Not modelled: the detector and GetConflictDetails of internal/conflict, signals and process names in
-- internal/process, the commands under cmd other than add, remove and config, with the questions that they
-- ask, and the interface under gui; and of the modelled packages the socket protocol, cloning, GetStats and
-- what only logs.
pub mod Base
pub mod Files
pub mod Debouncer
pub mod Status
pub mod Git
pub mod Sync
pub mod Config
pub mod Ignore
pub mod Conflict
pub mod Symlink
pub mod Cmd
pub mod Locks
pub mod Process
pub mod Tests
