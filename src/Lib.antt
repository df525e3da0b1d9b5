-- ===== src/Lib.antt =====
-- WinSSH-Pageant: a bridge that lets Pageant clients (PuTTY and its kin) use the keys of the
-- Windows OpenSSH agent. A client sends a request of the agent protocol in a window message with
-- shared memory, or over a named pipe; the bridge checks the frame, forwards it to the agent over
-- the agent's pipe, checks the reply, hands it back, and notifies the user of signatures.
--
-- Parts and files:
-- - Common: numbers, lists, bytes, options and results that all parts share. A byte slice and a Go
--   string are lists of native numbers; big-endian integers are read and written by `be_u32` and
--   `put_u32`.
-- - Library: what is asked of package unicode and SHA-256, as a record that definitions take as an
--   argument, with the documented facts that some theorems assume.
-- - Wire: frames and strings of the protocol: `validateFrame`, `ValidateRequest`,
--   `ValidateResponse` and `isSessionBind` of openssh/agent.go, `takeString` of openssh/keys.go.
-- - Text: UTF-8, base64, lower case, `displayText` of openssh/keys.go and `cleanUIText` of
--   pageant/desktop_windows.go.
-- - Keys and Sign: `parseKeys`, `publicKeyType`, `ParseSignRequest` and `userauthUsername` of
--   openssh/keys.go, each beside an independent layout of the bytes.
-- - Conn: a connection as scripts of what the system answers to each deadline, Write and Read, and
--   `io.ReadFull`. Theorems over all connections therefore hold for every peer.
-- - Agent: `exchange`, `Session`, `QueryAgent` and `localPipeName` of openssh/agent.go, and
--   `ListKeys` of openssh/keys.go (Listing). A session
--   counts the connections it opened and released; other goroutines show as Close calls during a
--   dial or an exchange.
-- - Bridge: pageant/run_windows.go. Query is `queryUsing`, CopyData is `copyDataName` and
--   `handleCopyData`, Pipe is the loop of `pipeListen`, with Pipe.Session the whole of it, with
--   the built-in handler or another, and Clients is the registry of clients and
--   sessions, whose critical sections are steps that interleave freely.
-- - Host: the calls of Windows that other parts make, in a trace of calls and answers. What
--   Windows answers is a function of the trace, so a theorem over all such functions holds however
--   Windows behaves. Security is internal/security/security.go, and Handles reads a trace as the
--   handles that are open; Console is internal/win/consoleoutput.go.
-- - Client: pageant/client_windows.go. Process is `clientFromPipe`, `clientFromMapping`,
--   `clientFromProcess`, `ownProcess` and `processStarted`, CommandLine is `processCommandLine`,
--   Session is `resolvePuttySession`, Tables is `processTCPTargets`, Table is `parseTCPTable`,
--   Unique is `uniqueTCPTarget` over the entries of its two
--   families, which Unique.Families reads from Windows, Target is `parseDestination` with `safeTargetField` and
--   `safeHost`, Arguments is `parseClientTarget`, and Notice is `notifySigning` with
--   `signingNotice`.
-- - Desktop: pageant/desktop_windows.go. State is `desktop` with a history of the calls that it
--   makes and a function that answers them; Tray is `addTrayIcon`, `notify` and the notices, Keys
--   is the content of the window that lists keys, Window is `showKeys`, Menu is `showTrayMenu`,
--   Layout is `scale` and the arithmetic of `layoutKeys`, Messages is `onMessage`, `keysWndProc`,
--   `newDesktop` and `close`, with the events that may happen to a desktop as a data type; Sound
--   is the invariant, and Rows reads a history as the table that the list of keys shows.
-- - Control: `matchingProcess`, `ExitRunning` and `ShowRunningKeys` of pageant/control_windows.go.
-- - Runtime: the start in pageant/run_windows.go. `Run` with its deferred calls, whose trace Nested
--   reads as the stack of what is held; Procs is `wndProc`, `ipcWndProc`, `lifecycleWndProc` and
--   `runIPCWindow`, Names is `newPageantListener`, `capiObfuscateString` and `listenUserPipe`.
-- - Program: main.go.
-- - Options: pageant/pageant.go.
-- - Tests: the theorems at concrete inputs.
--
-- The handler of `queryUsing` is an argument with a state; for a pipe client that state is the
-- session. Fuel stands in `serve` of Bridge.Pipe, the endless loop of a pipe client, where one unit
-- more than there are bytes to read is enough, and in the message loops of Runtime, where one unit
-- more than there are messages is enough; a loop without fuel is said to be running. `decimal`
-- writes at most twenty digits, enough for every 64-bit number. Deadlines are recorded and not run
-- down: that one has passed is an answer of the script.
--
-- A window message that Windows sends inside a call is an event of its own, but for WM_NCDESTROY,
-- which follows a DestroyWindow that succeeds. Handles, keys and windows are numbers, and 0 is a
-- failure. Signed coordinates are their 32 bits.
--
-- Not modelled: the declarations of system calls in internal/win, log output, the stubs of pageant/run_others.go, the installer;
-- `url.Parse`, `url.PathUnescape`, `net.ParseIP`, `strings.EqualFold`, `filepath.Base`,
-- `windows.DecomposeCommandLine`, `EqualSid` and the text of an IP address, which are parameters.
pub mod Common
pub mod Library
pub mod Wire
pub mod Text
pub mod Keys
pub mod Sign
pub mod Conn
pub mod Agent
pub mod Bridge
pub mod Client
pub mod Desktop
pub mod Host
pub mod Control
pub mod Runtime
pub mod Program
pub mod Options
pub mod Tests
