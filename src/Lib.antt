-- ===== src/Lib.antt =====
-- Verification of AIOFiles, a self-hosted server that downloads, converts, compresses and edits media.
--
-- The program. A request passes the guards of internal/api/middleware.go, which ask
-- internal/proxy/proxy.go whom to believe, and internal/auth/manager.go whether a session is open. A
-- handler has the parameters of a new job checked by internal/presets/presets.go and submits the job to
-- the queue of internal/jobs/queue.go, whose workers run it through the programs that
-- internal/runner starts, write to the store of internal/jobs/store.go and publish on the bus of
-- internal/jobs/bus.go. internal/api/uploads.go keeps the files that jobs start from, and
-- internal/config/config.go reads the settings. internal/retention/retention.go
-- deletes what is past its retention.
--
-- The files.
--   Prelude: Boolean tests, lists, results, texts, bytes and how they are trimmed, cut and split, paths,
--     integers, maps with text keys, the stable sort and the base64 encoding of Go's library.
--   Jobs/Types, Jobs/Store, Jobs/Bus, Jobs/Queue: the package internal/jobs. The table of jobs is the
--     list of its rows in the order of insertion; `create`, `get`, `list`, `set_status` and the
--     others are the methods of Store. `submit`, `cancel`, `resume` are the methods of Queue,
--     `take` and `finish` the two halves of `execute`, `emit` its closure. Jobs/Queue/Places has the
--     step relation of the pool, Invariant, Startup, Final and Drain its theorems.
--   Presets: internal/presets/presets.go. Tables holds the option lists and tables, Checks the shared
--     checks; Convert, Compress, Image, Download and Edit the parameters of each type of job, and Source the
--     address of a download.
--   Auth/Sessions and Auth/Manager: internal/auth/sessions.go and internal/auth/manager.go.
--   Auth/Passwords: internal/auth/password.go, over an argument that stands for argon2.
--   Proxy: internal/proxy/proxy.go, over a record `Net` of what the standard library computes of
--     addresses and URLs.
--   Api/Guards, Api/ProbeLimit: hostMW and originMW, with HostAllowed of internal/config/config.go;
--     and internal/api/probelimit.go, whose `Step` interleaves any number of requests.
--   Api/Create: handleCreateJob of internal/api/handlers_jobs.go, from the request to the submission.
--   Api/Replies, Api/Downloads, Api/Files, Api/Handlers: internal/api/respond.go, the download and the
--     short handlers of internal/api/handlers_jobs.go, internal/api/handlers_files.go and
--     internal/api/handlers_meta.go. `accel_path` makes the location for nginx over the elements of paths.
--   Api/Routes: internal/api/api.go. `mux` is the way of net/http through the patterns, `serve` puts it
--     behind the guards and the check of the session.
--   Retention: internal/retention/retention.go, with handleDeleteJob of internal/api/handlers_jobs.go.
--   Uploads: internal/api/uploads.go. `sanitise_filename` and `stored_name` make the name of an upload,
--     Uploads/Ids leads from a client's id back to a file.
--   Settings: internal/config/config.go; `load` is Load, and Settings/Hosts reads the two lists.
--   Runner/Names, Runner/Ring, Runner/Lines: internal/runner/exec.go, namely sanitizeName and
--     uniqueOutputPath, the ring of the error stream, and splitLinesCR under the scanner.
--   Runner/Texts, Runner/Capped, Runner/Moves, Runner/Process: of the same file, firstNonEmpty, capWriter,
--     moveFile over a store of files with what the system answers, and runProc over what a child does.
--   Runner/Numerals, Runner/Arguments, Runner/Ffmpeg: internal/runner/ffmpeg.go. `spec_for` and `target_video_kbps` make the
--     spec of an encode, Command the arguments and the commands of a run, Edit those of an edit, and
--     Meter reads the lines of progress; in Runner/Ffmpeg/Run `run` is the order of an encode's steps.
--   Runner/YtDlp: internal/runner/ytdlp.go. Formats and Media order and show what an extractor offers,
--     Progress reads the lines of yt-dlp, Collect chooses its file, and `run` and `probe` put the steps
--     together.
--   Runner/Image: internal/runner/image.go, the arguments of the programs; in Runner/Image/Run `run` is
--     the order of their steps and the temporary files between them.
--   Examples: each property at a concrete input.
--
-- The conventions. Statements to the database take a Boolean that says whether they are carried out; a
-- statement that fails changes nothing. Times are natural numbers, in milliseconds where the database
-- keeps them and in nanoseconds in the session manager and the probe limiter; the clock does not run
-- backwards in the limiter. Percentages are in thousandths. Texts that are taken apart are lists of bytes,
-- or of code points where the source walks over runes. The running time of a file is in microseconds,
-- and the arithmetic on it exact, where the source has float64. The JSON decoder, the seconds of an
-- edit, the answer of the password verification in a login, the random token, the parsing of addresses and URLs, the resolver
-- and the file system are parameters. The checks of an edit visit the two sides of a crop in either
-- order, as the iteration of a Go map does.
--
-- Fuel. Three loops run on fuel. `squeeze`, the loop of sanitizeName, has the length of the text, which
-- each round makes smaller, so it stops because its condition fails. `pull`, the calls of the scanner
-- between two reads, has one more than the length of the buffer, which each line makes smaller.
-- `digits` has one more than the number, which each digit makes smaller. All else is structural
-- recursion.
--
-- Taken as one step. A worker's take from the channel goes up to the call of the runner, so a cancellation
-- between the entry in the map of runs and the status running is not a case of its own. The removal of
-- a work directory and of temporary files is taken to succeed.
--
-- Not modelled. Goroutines, tickers and sockets; that the whole group of a process is killed; the stream
-- of events and the multipart bodies, which are input and output; the files around an
-- edit, which are left for an extension; the wiring of
-- cmd/server; argon2id; internal/db, the frontend and the container: they are input and output,
-- third-party code or another language.
mod Prelude
pub mod Jobs
pub mod Presets
pub mod Auth
pub mod Proxy
pub mod Api
pub mod Retention
pub mod Runner
pub mod Uploads
pub mod Settings
mod Examples
