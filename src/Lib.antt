-- ===== src/Lib.antt =====
-- Ghost Downloader 3: a model of its core in Go, and what is proved of it.
--
-- The program is a desktop downloader. Its parts, and how they meet:
--   * internal/core keeps the tasks. The Scheduler holds a map of tasks, their order, and a map of the
--     runs of workers; each worker is a goroutine that reports its progress to it. The scheduler saves
--     the tasks to a store and publishes snapshots of them on a channel.
--   * internal/download has the workers. The one for HTTP cuts a file into parts, downloads each with
--     requests for ranges, and keeps a record of the parts beside the file. The one for FTP lists a
--     directory, gives each entry a name that Windows takes, and resumes a file from the bytes that
--     its partial file has.
--   * internal/btruntime stands for the worker for BitTorrent: it starts the process
--     cmd/gd3-bt-runtime, which runs the engine of internal/download/bt and writes its messages.
--   * internal/config has the settings, and mends what a settings file holds.
--   * internal/ui shows the snapshots in a table, tells the user of tasks that ended, and runs slow
--     actions one after the other.
--   * internal/ratelimit limits the speed of the downloads.
--   * internal/browserbridge lets a browser extension on the same machine create, pause and open
--     tasks. It calls the scheduler, and it sends the extension the scheduler's snapshots.
--   * internal/pluginhost asks programs beside the downloader which of them knows an address.
--   * internal/app makes the tasks of the browser's requests, and changes the settings.
--   * internal/update says whether a release is newer than the program.
--
-- Which file models which part:
--   * Core/Task: internal/core/model.go, the types Task, Stage, TaskSnapshot and ProgressUpdate.
--     A status is a data type with one more constructor for the strings that the source does not name.
--   * Core/Output, Core/Cleanup: internal/core/model.go, OutputFile, PrepareFTPDirectoryOutput,
--     taskOwnedPath, verifyFTPDirectoryOwner and CleanupFiles. The path functions of the platform and
--     the file system are the record Host; a cleanup is the list of the removals that it makes.
--   * Core/State, Core/Scheduler: internal/core/scheduler.go, the struct and the functions that are
--     called with the lock held (scheduleLocked is `schedule`, enforceMaxRunningLocked is
--     `enforce_max_running`, saveLocked is `save`, emitLocked is `emit`). Core/Scheduler/Control has
--     Load, Add, TogglePause, StartAll, PauseAll, Remove, SetMaxRunning and StopAll, Runs has runTask
--     with its closure `report`, and Edits has Redownload and EditTask.
--   * Http/Segments, Http/Record, Http/Transfer, Http/Download: internal/download/http/worker.go,
--     generate, then restore and writeRecord, then copyPart, then downloadPart with the goroutines of
--     Run that call it.
--   * Ftp: internal/download/ftp/ftp.go. Ftp/Source has parse, newDirectoryTask, parseSource and
--     sourceFromTask; Ftp/Names safeFileName; Ftp/Listing safeRelativePath and listDirectory;
--     Ftp/Transfer the functions transfer, waitLimited and update; Ftp/Run the part of Run for a file,
--     downloadDirectoryFile and completedFileMatches; Ftp/Root prepareDirectoryRoot; Ftp/Directory
--     runDirectory with its checks of paths; Ftp/Worker the whole of Run. A path on the server, and a
--     relative one, is the list of its code points, and what a transfer does to the partial file is
--     the list of its writes and cuts.
--   * Bt/Trackers: internal/download/bt/trackers.go; Bt/Trackers/Client: ParseTrackers of
--     internal/btruntime/client.go.
--   * Bt/Files: the choice of files, in internal/btruntime/client.go and internal/download/bt/model.go.
--   * Bt/Runtime: the worker of internal/btruntime/client.go, and runWorker and encodeResult of
--     cmd/gd3-bt-runtime/main.go, which are the two ends of a stream of messages.
--   * Bt/Checkpoint: what a task keeps of a transfer, in internal/download/bt/model.go, and ResetTask
--     of internal/download/bt/worker.go; Bt/Seeding: Run of the latter.
--   * Bt/Storage: internal/download/bt/resume_storage.go, readAt, writeAt, entryAt and checkExtent, and
--     Bt/Storage/Pieces, Completion and MarkComplete. What the system does with a file is an argument.
--   * Ratelimit: internal/ratelimit/limiter.go, the bucket that limits the speed of all downloads.
--   * Config/Settings: internal/config/settings.go.
--   * Bridge: internal/browserbridge/bridge.go. Bridge/Message has a message as it is decoded and the
--     functions that read it, Bridge/Reply what is sent, Bridge/Session the handlers of a connection
--     (handleMessage is `handle_message`), and Bridge/Server the functions Apply, Start and Stop. What
--     the handlers do to the bridge between the sections of an Apply is an argument, a `Meeting`.
--   * Plugins: internal/pluginhost, protocol.go in Plugins/Manifest and manager.go in Plugins/Command,
--     Plugins/Call and Plugins/Manager. What a process does in answer to a request is an argument.
--   * Http/Headers, Http/Titles: internal/download/http/headers.go and dedupe.go.
--   * App: internal/app/app.go, SaveSettings in App/Settings and createTaskFromBrowser in App/Tasks.
--   * Ui/Notifications, Ui/Executor, Ui/Table: internal/ui/notifications.go, the serialExecutor of
--     internal/ui/dispatcher.go, and internal/ui/task_table_model.go.
--   * Update/Version: parseVersion and IsNewer of internal/update/checker.go.
--   * Base: lists, maps and integers over the native numbers. Tests: concrete inputs.
--
-- Concurrency. A critical section under the scheduler's lock is one function. Core/Scheduler/Steps
-- has the sections as a step relation in which every goroutine may take the next step; an operation
-- that gives the lock up between (StopAll, Redownload, EditTask) is several steps, and its locks
-- that only keep two such operations apart are left out, so that the relation has more runs than the
-- program. Wherever a section calls Lstat or reads a file, the step has the file system that it
-- finds as an argument. The caller of Add gives a task whose id has no run; ids are random. Calls
-- of Start, Stop and Apply of the bridge are made one after the other, as the program makes them,
-- with any steps of its handlers between them and between the sections of an Apply. The
-- executor's steps are those of its callers and of its goroutine, in any order. In the model of the
-- HTTP worker the limiter is an answer of the environment.
--
-- Bounds and fuel. An int64 is an integer with no bound, apart from the record of the parts, where
-- its 64 bits are written out, and the pause epoch, which wraps. A float64 percentage is the exact
-- fraction, and the float64 allowance of the limiter is counted in billionths of a byte. The loops
-- over a network are lists of what the server and the disk do in each round: a download whose list
-- has ended is `open_ended`, which is no success. A map is an association list; where Go's order of
-- a map matters to a result it is any order of the list. A loop over the n bytes of a transfer has
-- n + 1 rounds, since each takes a byte at least. The search for a free title is cut off after a
-- number of rounds that is an argument. The loop of waitLimited has as many rounds as bytes, since each
-- of them takes one at least.
--
-- Not modelled: what the Run of the HTTP worker does beside its goroutines, and its probes; the
-- transfer of the BitTorrent worker, which is mostly its engine, a library, the sources of such a
-- task, and how the engine's process is found and started; the connections of an FTP task,
-- which are those of a library, and how the digests of its complete files are computed and written;
-- the workers for M3U8 and FFmpeg;
-- the start of the application; the stores, which are SQL and files; the download of an update; the
-- windows, the drawing and the calls of the platform, which are input and output.
mod Base
pub mod Core
pub mod Http
pub mod Bt
pub mod Ftp
pub mod Bridge
pub mod Plugins
pub mod App
pub mod Config
pub mod Ratelimit
pub mod Ui
pub mod Update
mod Tests
