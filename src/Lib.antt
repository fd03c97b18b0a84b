-- ===== src/Lib.antt =====
-- wslcsession: sessions of the WSL container service over COM, and connections into their guests.
--
-- The program starts one dedicated VM for each `Session` and pins all COM calls of it to one
-- goroutine. Its parts, and the modules that model them:
--
--   com.go                  Com.HResult, Com.Runtime (calls of ole32 and of Winsock), Guid (parseGUID)
--   types.go                Com.Abi
--   comapi.go               Com.Api: CreateSession is create_session, and so on in lower case
--   options.go              Options
--   unsupported.go          Unsupported
--   bridge.go               Bridge
--   bridgesrc/bridge.c      Helper (write_all, connect_unix, connect_tcp), Helper.Loop (the loop of main;
--                           main is run_helper), Helper.Views (what a relay has done)
--   session.go              Session (comThread is start and tear_down, do is do_request) and
--                           Session.Threads (do, Close and the loop of comThread as goroutines)
--                           with Invariant, Progress, Termination and Refinement, and with Requests,
--                           which has those goroutines run the closures of Session, and with
--                           Finalizer, which adds the finalizer that NewSession sets
--   conn.go                 Conn (guestConn; Read is read, Write is write), Conn.Threads (Close and
--                           CloseWrite by several goroutines) with Invariant, Progress, Termination and
--                           Sequential (the same calls as one Close alone)
--   cmd/wslcdemo/main.go    Demo (volumeFlag.Set is set), Demo.Server (main)
--   cmd/wslcdemo/demo.go    Demo.Checks (runDemo is run_demo), Demo.Streams (io.ReadAll, io.ReadFull),
--                           Demo.Reports (the texts of the errors)
--   cmd/wslcdemo/proxy.go   Demo.Proxy (handleProxyConn), Demo.Server (runProxy)
--
-- Base holds what the others share: tests on numbers, lists over native numbers, errors, and the
-- actions `Io S A` from a state to a value, an error or a run-time panic, with Hoare triples for them.
-- Base.Families is about one value for each caller, Base.Running about programs whose steps end.
-- Strings writes out what the program uses of package strings, strconv, hex and syscall.
--
-- A call that leaves the program (COM, Winsock, the file system) appends an event to a history
-- (Com.Trace). The answer to a call is `Env.reply`, any function of the history before it, so a
-- theorem for every `Env` holds for every behaviour of the service. What the code relies on is a
-- named hypothesis: SendObeys and RecvObeys say that Winsock does not take or give more than it was
-- asked to, and RecvEnds that a socket does not give something forever. `Env.others_close` says before
-- which requests another goroutine has closed the session; IsQuiet says that none does. A COM reference is counted in the history, and `Held` says too that a
-- method of an object is called only while a reference to it is held (Com.Refs).
--
-- The helper in the guest is a program of its own: its calls of the kernel are a history of the same
-- kind (`Kernel`), and it is given the target that `dial` passes to the process.
--
-- Other packages are parameters of the demo. `Http` is a client of net/http that is given the function
-- that dials, and HttpKeeps says that it closes what it opens; `Texts` is what %q prints and the texts of
-- errors that are not the program's; `Net` is a listener, and `Flags` reads the command line.
--
-- Machine integers: an HRESULT is the low 32 bits of a word, and its sign is a test against 2^31; a
-- conversion to uint32 is a remainder by 2^32, and uint64 arithmetic by 2^64.
--
-- Fuel: the loop of Write runs on one more than the length of the text. Each round but the last takes
-- a byte, and a loop without fuel panics in the model, so a result that is no panic needs enough of it.
-- io.ReadFull runs in the same way on the size of the buffer, and io.ReadAll on one more than the number
-- of calls of recv after which RecvEnds has it end. The loop of runProxy runs on more
-- fuel than AcceptEnds lets in clients before the listener is closed.
-- In the helper, write_all runs on one more than the length, and the relay on more than the reads and
-- the idle waits that its hypotheses ReadEnds and PollWakes allow, and two.
-- The decimal print of a number runs on the number itself, which bounds its digits.
--
-- In Session each request is one action. In Session.Threads each statement of `do`, of `Close` and of
-- the loop is a step, and a request is a single step that returns; the lock of Go prefers a waiting
-- writer, and the relation allows both orders. In Session.Threads.Finalizer the collector may start the
-- finalizer once neither the program, a caller nor comThread refers to the session.
--
-- In Conn.Threads each statement of Close and CloseWrite is a step; the release of the process is one
-- that returns.
--
-- In Demo.Proxy a step is a round of io.Copy or a statement of handleProxyConn or of its goroutines; the
-- dial is one step, and the Close of a connection one that returns.
--
-- Not modelled: pointers and runtime.KeepAlive, the byte layout of structs, what cmd/wslcdemo and
-- the helper print, the pauses of cmd/wslcdemo, signals that end the helper, and
-- bridgesrc/entrypoint.sh, which builds the helper in a container and runs it with its own arguments.
-- Tests holds runs against a concrete service.
pub mod Base
pub mod Strings
pub mod Options
pub mod Unsupported
pub mod Guid
pub mod Com
pub mod Bridge
pub mod Helper
pub mod Session
pub mod Conn
pub mod Demo
mod Tests
