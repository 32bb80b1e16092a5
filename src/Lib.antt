-- ===== src/Lib.antt =====
-- foxbridge lets clients of the Chrome DevTools Protocol (CDP) drive Firefox over Juggler or BiDi.
-- This library models the parts of the Go program that decide who owns what and who is told what.
--
--   Common       texts, numbers, lists, equality tests
--   Dict, Heap   Go's map and Go's pointers, behind their laws
--   Cdp          pkg/cdp/types.go (Message) and pkg/cdp/session.go (Session): `Add`, `Remove`, `Get`
--                and the others are add, remove, get_session, ...; records that Go shares between
--                indices are cells of a heap
--   Bridge       pkg/bridge. Ownership is ownership.go: one module for each group of methods of
--                `ownershipRegistry` (Connections, Claims, Register, Queries, Requests, Cleanup),
--                Steps puts them together into histories, and Closed, Closing, Handshake and Evolution
--                are about histories. Dispatch is `HandleMessage` and `authorize` of bridge.go. Fetch is
--                fetch.go: the filters, what is asked of the backend (Calls) and `handleFetch`. Routing is
--                the part of bridge.go on frame ids, sub-frames and the receiver of an event.
--                Streams is io.go. State is the state of `Bridge` and what its handlers share, Release is
--                `ConnectionClosed` and `closeRecord`, Deterministic is deterministic.go. Attach, Contexts,
--                Pages and Requests are the handlers of events.go, one function for each event, and
--                Targets is target.go. Domains is network.go, emulation.go, input.go, stub.go, console.go,
--                storage.go and runtime.go
--   Juggler      pkg/backend/juggler/client.go and messages.go: calls, responses and events as steps
--   Recording    pkg/recording: Capture is capture.go and Replay is one session of replay.go
--   Tests        the theorems at concrete inputs
--
-- A method is a function from a state to a state and a result. A mutex makes each method of the
-- registry and of the session manager atomic, so a list of operations is any interleaving of the
-- goroutines; so it is with the steps of the Juggler client, whose read loop runs the handlers of
-- an event before it receives again. A handler of the bridge is one function on the whole state,
-- which stands for a run of it that no other handler interrupts, but for the waits in createTarget
-- and in Runtime.evaluate: what others do then is a parameter. A connection, a pair of targets and
-- a generation are numbers; a nil pointer is none. The loops are structural recursions, over the
-- bindings of a map or over the entries of a recording from a position on, so there is no fuel. A
-- loop that waits for a deadline has the number of rounds that the clock leaves to it. A generation
-- is a uint64 and a recording's number an int: both wrap at 2 ^ 64.
--
-- Parameters: in Dispatch the handlers of all domains, where a handler that panics is none;
-- encoding/json and the outcome of a write in Recording; regular expressions, the decoders and the
-- backend in Fetch; the decoders in Routing and Streams; in State and what stands on it the
-- backend, encoding/json, google/uuid and fmt, and in Domains also float64 and what is used of
-- strings. An execution context's counter is an int: it wraps at 2 ^ 64, and theorems keep it below
-- 2 ^ 63.
-- Not modelled: sockets, processes, logs, the Page, DOM, CSS, Performance and Accessibility domains
-- and the BiDi backend, whose code mostly translates JSON between the protocols.
pub mod Common
pub mod Dict
pub mod Heap
pub mod Cdp
pub mod Bridge
pub mod Juggler
pub mod Recording
pub mod Tests
