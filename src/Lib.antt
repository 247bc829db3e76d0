-- ===== src/Lib.antt =====
-- Models of niri-bridge, which shares the keyboard, the pointer and the touchpads of one Wayland
-- computer with a second one.
--
-- A device that sends captures physical input, turns it into input events and writes them, framed,
-- to an authenticated connection. The device at the other end reads the frames and hands their
-- events to a receiver, which checks them and gives them to a backend. Both keep a control state
-- with the locks of the two desktops; it says when a session can run, and what to release at its
-- end. What is pressed for a session is released when it ends, however it ends.
--
-- The files, and the sources that they model:
--   Prelude         shared names, lists, sets of numbers, texts, integers, and the results of
--                   fallible functions; Action and Triple: stateful fallible blocks, and what
--                   they leave when they succeed and when they fail; Float: what the sources use
--                   of `f64`, an interface
--   Protocol        src/protocol.rs. Event: `InputEvent` with its validation; Message: `Message`;
--                   Frame: `write_frame` and `read_frame`; Roundtrip: what they do together
--   Input           src/input.rs. Keys: `PhysicalKeys`, with Maps, Report, Run and Queue on it;
--                   Control: `HeldInputs` and `ControlState`, with Invariant and Release on it
--   Receiver        src/receiver.rs: `Receiver`, one function per method, over `InputSink` (Sink).
--                   Safe states what is relied on of a backend and the invariant; Release, Cleanup,
--                   Calls, Begin, Held, Input and Position preserve it call by call, and Run over
--                   a connection; Session, Sequence and Injected say what its sessions do, and
--                   Leaves which calls end them
--   Touchpad        src/touchpad.rs. Event and Descriptor: events, descriptors and the check of
--                   frames; Clock: `RemoteClock`; State: `TouchState`, with Releases, Showing and
--                   Total on it; Handoff: the frames that leave a physical touchpad neutral, with Quiet,
--                   Ends and Restored on it; Virtual: `VirtualTouchpad`, with Fitting, Capable,
--                   Releasing and Emitting on it; Physical: how a touchpad is opened, read and
--                   released, with Reading on it; Capture: one touchpad's round of
--                   `Router::sample`, with Fetching and Keeps on it; Router: `Router`, with Loop,
--                   Opening, Safe, Exclusive and Routing on it; Restore: `restore_local_inputs`,
--                   with Waiting on it
--   Geometry        src/geometry.rs: screens, edges, spans, and the position along an edge;
--                   Point: the place where a pointer enters; Layout: a layout file and its
--                   validation, with Accepted on it
--   Bridge          src/bridge.rs. Edges: `EdgeConfig` and `validate_edges`, with Layout on it;
--                   Active: `active_edges`, with Agreed on it; Role: `Role` and
--                   `forward_keyboard`, over the `send` of a connection, with Forward and Kind on
--                   it; Coordinator: `coordinate_with_control`, its state and common steps, and
--                   below it one file for each part of its loop: Round (up to the `select!`),
--                   Commands, Tick, Captured, Layouts and Frames, and Run, the loop itself with
--                   what comes before and after it. View states the coordinator's invariant, Steps
--                   and Sending say what the common steps do to it, Keeps has a file for each part
--                   of the loop, which keeps it; Ending is about what follows the loop, and Safety
--                   concludes. Emergency, Entry, Fresh and Pings are about single parts of it.
--                   Service: the loop of `run_async` that connects again after a session, with
--                   Lasting on it
--   Manager         src/manager.rs: `Prepared`, an edit of the configuration file, with its
--                   `commit` and its `Drop`; Rollback: what they leave in the file; Document and
--                   Edit: `Prepared::edit`
--   Pointer         src/pointer.rs: `inverse_normalized`
--   Activity        src/activity.rs. Watch: the watched devices; Monitor: `ActivityMonitor`, with the
--                   router of the touchpads; Followed and Safe: what they keep
--   Pairing         src/pairing.rs, and `Config::load`: the saved peers, with Distinct and Trusted on
--                   it; Adding: `add`, with Backed on it; Store: `stored_certificate`, with Holds
--                   and Keeps on it
--   Control         src/control.rs. Layout: desktops, layout requests and layout messages
--   Tests           runs on concrete values
--
-- How the code corresponds: a struct is a record and an enum a data type. A method that takes
-- `&mut self` gives its result with the new state; one that fails keeps what it wrote before. An
-- `anyhow` error is its message; contexts that only add to a message are left out. Where a method
-- is long, its steps after a check are a function of their own. Paths are texts, so that none is
-- outside UTF-8. Integers are natural numbers or integers, with the checks of `checked_add` and
-- the casts of the source written out. `BTreeSet` and `BTreeMap` are ascending lists. A panic is
-- `none`, where one is possible; those of the coordinator on an index out of range or in `clamp`,
-- and of the router and its mirrors on a slot out of range, are errors. Recursion is on lists: the
-- coordinator's loop runs over the list of what its `select!` yields, round by round, so that
-- every interleaving is such a list. Two loops of `Router::sample` and those of `run_async` are on
-- fuel. That over the fetched batches has 4098 rounds, which is enough since a batch adds an event
-- or ends the loop, and more than 4096 events are an error. That which discards what came before a
-- grab ends only where the device runs dry, so that its fuel is an argument, and the result tells
-- when it ran out; so does that of `run_async` (`waiting`), which need not end. A wait of
-- `restore_local_inputs` is on fuel too: 1501 rounds are enough, by the laws of `IsClocked` on the
-- time that its sleeps last.
--
-- Parameters: the backend, with the laws of `IsHonest`; `f64`, with no laws but those of Pointer;
-- the `send` of a message, with no laws; `serde_json`, with the laws of `IsJson`; all else that
-- the coordinator calls, as the functions of `World`, with no laws: the clock, the activity
-- source, the capture worker, the desktop and the editor of the configuration; the file system,
-- with the laws of `Rollback.IsStore`, the calls of the lock of an edit, as `Locking`, and TOML
-- documents, as `Toml`; evdev, uinput and the clock under the touchpads, as `Evdev` and `Uinput`,
-- and the watched devices, as `Inputs`, with no laws; the files, paths and certificates of the
-- pairing, as `Pairing.Files`, with the laws of `Store.Holds.IsStore` and `CreatesKeep` for what
-- is stored and that of `StaysRelative` for paths; and what the loop of connections calls, as
-- `Host`, with no laws; Lasting is about a quiet one, whose connections are counted. `Drop` of a
-- receiver is its `stop`. What the coordinator shows at its control socket (`Control::update`) and
-- the log lines are left out.
--
-- Not modelled: what comes before the loop of connections, what the user interface fills in a TOML
-- document, TLS, the backends, the capture worker and the session monitor, which are system calls,
-- the command line and the desktop interface.
pub mod Prelude
pub mod Float
pub mod Touchpad
pub mod Protocol
pub mod Input
pub mod Receiver
pub mod Geometry
pub mod Bridge
pub mod Control
pub mod Manager
pub mod Pointer
pub mod Activity
pub mod Pairing
mod Tests
