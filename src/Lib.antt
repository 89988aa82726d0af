-- ===== src/Lib.antt =====
-- The guest side of a session's file store: a FUSE mount over a REST broker.
--
-- The program mounts the file store of a session into a guest. The mounter reads a mount config,
-- builds one spec for each mount, brings the mounts up in order, signals readiness once all are up,
-- and unmounts on a signal or when a point exits. Behind each mount stands the rclone backend
-- `ocufs`, which maps the methods of rclone's `fs.Fs` and `fs.Object` to calls of the broker client
-- `brokerrpc`; the client stamps an intent on each request and posts it over one pinned HTTPS edge.
--
-- Parts and files:
--   Base       shared names, and what the program takes of Go: texts as lists of bytes, error
--              values with their sentinels and wrappers, int64, path.Clean and path.Join
--   Brokerrpc  internal/brokerrpc. Intent: intent.go; Messages: messages.go; Client and Ops:
--              client.go (NewWithOptions, call, the unary operations); Cursor: cursor.go;
--              Status: errors.go; Download: download.go; Upload: upload.go; Transport:
--              transport.go; Reader: io.Reader
--   Ocufs      backend/ocufs. Interface and Wired: client.go, the seam and the broker client behind
--              it; Paths, Meta and Fs: ocufs.go and errors.go; Object: object.go; Transfer:
--              copymove.go; Shared: the methods that rclone drives concurrently on one Object;
--              Opened: Open with a window, over the broker client; NewFs: NewFs of ocufs.go with
--              options.go; Registration: the option table, the registration
--              and the features; Session: any sequence of calls, with the requests recorded
--   Mountcfg   internal/mountcfg. Patterns: the regular expressions; Validate: validate and the
--              typed errors; Load: Load; Schema and Texts: the rules of mount-config.schema.json of
--              internal/contract beside those of the loader
--   Mounter    internal/mounter. Specs: buildSpecs and buildOcufsConfigmap; Options: buildVFSOptions;
--              Scaffold: scaffoldguard.go; Orchestrator: run, signalReady and blockUntilTeardown,
--              with unmountAll as goroutines in Fanout; Direct: directmount.go, xattr_enotsup.go and
--              buildMountOptions; Point: doUnmount and unmount of realpoint.go, teardown.go, and
--              concurrent callers of doUnmount in Callers; Ready: waitReady and mountServes; Bringup:
--              mountAndWaitReady and the seam's constructors; Mount: mounter.go; Cachedir:
--              cachedir.go
--   Posture    internal/posture
--   Cmd        cmd. Run: ocu-rclone-filestore; Probe: posture-probe
--   Examples   runs at concrete inputs
--
-- State is passed on: a call that reaches the broker maps a state of the world to a reply and a new
-- state, so a call that leaves the world as it was has made no request. An error is a value, `none`
-- is nil, and a formatted error keeps its format and its arguments apart. The mounter and the
-- binaries are the sequences of their actions, given environments that answer each of them.
--
-- Concurrency: where goroutines share state (unmountAll, the Once of a point, the mutex of an object),
-- each has a place in the code, a step relation takes one of them from one place to the next, and the
-- states that are reached are those of any interleaving. A section under a mutex is one step; a call
-- that blocks is one step at its begin and one at its return.
--
-- Fuel: the paging loop runs one round for each page below the client's ceiling and one more, past
-- which the page guard refuses; the upload writer and a consumer of a download run one round for
-- each event and byte of the reader and one more, past which the reader is at its end; the poll for
-- readiness runs one round for each interval that fits before its deadline and two more.
--
-- Parameters: the HTTP transport, the certificate pool, files, JSON decoding, SHA-256, url.Parse,
-- strconv.ParseFloat, time.Parse, and rclone's path encoder and option parsers. Natural numbers
-- stand for the lengths and counts that the code keeps non-negative; int64 arithmetic that can wrap
-- has its wrap-around written out.
--
-- Not modelled: rclone's VFS and mountlib, go-fuse and the kernel, whose answers are parameters;
-- the features that rclone fills in by reflection; what is written to logs and to stderr; and the test
-- harness under test. Outside of Shared the methods of an object run one at a time. The goroutines
-- that wait for the points are the environment's answer to the blocking select; a body is not closed;
-- contexts are not cancelled, but for the one that the poll for readiness watches.
pub mod Base
pub mod Mounter
pub mod Posture
pub mod Cmd
pub mod Examples
pub mod Mountcfg
pub mod Ocufs
pub mod Brokerrpc
