-- ===== src/Lib.antt =====
-- The endpoint agent's core: what a remote operator may make it do, what leaves the machine, and
-- which versions it installs.
--
-- A broker signs an operation permit and sends it with a command line, or for a screen view with
-- none. The agent checks the permit (internal/remotebridge/operation), resolves the command
-- against a fixed allowlist with a grammar for its arguments, runs it with no shell and streams
-- its output in frames (internal/remotebridge/ptyexec and internal/remotebridge/cmdline). A
-- screen view passes its frames through a gated queue, and they come from a capture helper over a
-- small wire protocol (internal/remotebridge/dataplane). A forwarded connection reaches only
-- signed targets (internal/remotebridge/portforward). A self-update is downloaded only when its
-- tier, its version and its address pass (internal/selfupdate).
--
-- The files, by the part of the program they model:
-- - Prelude and its children: numbers, lists, results and int64 arithmetic, shared by all. A Go
--   int64 is an integer ℤ whose sums and differences wrap round at 64 bits.
-- - Bytes and its children: Go strings as byte lists, and the functions of strings, encoding/hex
--   and encoding/binary that the code calls.
-- - Operation.Permit: permit.go, OperationPermit, canonicalPayload and IsFresh. Permit.Payload is
--   on the signed bytes, Permit.Window on the times.
-- - Operation.Command: command.go, ParseCommand and the hashed bytes of a command.
-- - Operation.Verify: permit.go, NewVerifier and VerifyWithReason, over a record `Crypto` of the
--   digest, the base64 decoder, the key parser and the signature check, which are parameters.
-- - Operation.Gate: gate.go. Authorize and AuthorizeViewOnly take an authorizer and return the
--   decision and the next authorizer; its mutex makes each call one step, so a run of the gate is
--   a list of requests. A session with no entry in its map reads as 0.
-- - PtyExec.ArgPolicy and PtyExec.Pilot: argpolicy.go. One round of evaluate's loop is `round`.
--   ArgPolicy.Grammar is an independent description: a list of items, printed.
-- - PtyExec.CommandLine: cmdline.go, against CommandLine.Splitter, which describes how a Windows
--   program splits its command line.
-- - PtyExec.Plan: plan.go. PtyExec.Executor: executor.go, with the runner as a parameter whose
--   plans are logged. PtyExec.PtyOp: ptyop.go. PtyExec.OutStream: outstream.go, with the send
--   function as a parameter that may fail at any frame. Write's loop runs on fuel, the length of
--   what is written: each turn takes at least one byte, and a fresh streamer's chunk is positive.
-- - DataPlane.ViewSession: session.go. Each method holds the mutex, so a run is a list of calls;
--   a counter is the 64-bit word of its int64. DataPlane.FrameIpc: frameipc.go, writeMsg to
--   ReadFrame, with a writer that may fail and a reader that ends. DataPlane.FrameCodec:
--   framecodec.go. A frame's sides are ℤ, its pixels a byte list, and the new frame of a halving is
--   built in the order that its bytes are written in. Encode's loop runs on 64 turns of fuel: a side
--   of an int64 length is 1 after at most 63 halvings. Go's panic on a read behind the pixels
--   is an error of its own. DataPlane.Exfil: exfil.go, with the pixels
--   that it writes over as a list that is written to at an index.
-- - Harness: internal/remotebridge/harness, the connection to the broker. Harness.Messages: the
--   messages of internal/remotebridge/pb that it reads or sends. Harness.Config: withDefaults, New
--   and dial. Harness.Timing: the backoff, the watchdog and the loop of Run, over what the
--   environment answers in each turn. Harness.SeqGuard: inboundSeqGuard. Harness.Inbound:
--   handleInbound. Harness.Stream: the loop of connectOnce over the arrivals on one stream.
--   Harness.Sender: sender.go. Harness.Decode, Harness.Codes, Harness.ViewCodes and
--   Harness.Dispatch: dispatch.go with the two responders of harness.go.
-- - Harness.Kill: the tables of killed sessions and of screen views. Kill.Concurrent is a step
--   relation: the receive loop, the goroutines of the screen views and those that acknowledge a
--   KILL, with a step for each critical section and for each act between them. A map is a function
--   to an option, and an entry's pointer is a number.
-- - ScreenView: internal/remotebridge/screenview. ScreenView.Dispatcher: dispatcher.go. Handle's loop
--   meets a list of moments, which are the frames that the pump offers and the cases that the select
--   takes, each with the state of the context then, which is not read again before the next case, not
--   within a drain either; a feed is the view session, the next number and
--   the frames sent. ScreenView.MaskPolicy: mask_policy.go, ParseMaskPolicy, String,
--   scaleBasisPoints and apply. Bytes.Decimal is strconv's decimal notation.
-- - SelfUpdate.Version: version.go, ParseVersion, Compare and EvaluateVersionPolicy. A comparison
--   is one of three values. Version.Comparison is on comparisons in general, Version.Order on
--   this one.
-- - SelfUpdate.Download: download.go, over the redirects that the client is about to follow and the
--   reply. SelfUpdate.Url: urlpolicy.go. SelfUpdate.Signer: signerpolicy.go. SelfUpdate.Preflight:
--   policy.go with the payload of contract.go; of a refusal, its gate and cause are kept, which
--   fix the error code.
-- - PortForward.Address and PortForward.Target: target.go. An address is the 32-bit or 128-bit
--   number of a netip.Addr, and the classes are those of net/netip; the map by target id is a
--   list.
-- - The Examples modules, PtyExec.Runs and Harness.Interleavings hold tests and concrete runs.
--
-- Parameters: SHA-256, the signature check, base64 decoding, the key parser, the lower case of
-- letters outside ASCII, the parser of URLs and the tests for address literals, the splitter of
-- host and port, the texts of errors where they are told apart by their text, the process runner,
-- the send function, the PNG encoder of the standard library, the frame processors and the
-- helper's pipe. No hypothesis is made on them, beyond that the processors keep a frame's
-- measures and a random draw is below 1, and the lengths of a run's output and of a frame's
-- pixels, which are Go lengths and so below 2^63. For the same reason a stream has fewer than
-- 2^63 sends.
--
-- Not modelled: the pseudo-console, pipes, capture and other system calls, and network
-- connections, the rounding of a float64 in the jitter of a delay; deadlines and contexts, which
-- reach the runner only; the text of errors, of which the kind is kept; the pump and the launcher
-- of the data plane; the dialer; staging and activating an update; the collectors, the package
-- manager bridge and enrolment.
pub mod Prelude
pub mod Bytes
pub mod Operation
pub mod PtyExec
pub mod DataPlane
pub mod Harness
pub mod ScreenView
pub mod SelfUpdate
pub mod PortForward
