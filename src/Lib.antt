-- ===== src/Lib.antt =====
-- Verification of wg-ondemand, a daemon that brings a WireGuard tunnel up when a computer on a
-- monitored wireless network sends packets to configured subnets, and down when the tunnel is idle
-- or the network is left.
--
-- The parts, and how they interact:
--
-- - Types: wg-ondemand/src/types.rs, the shared data, and in Types/Wire the sixteen bytes by
--   which an event goes from the kernel to the daemon.
-- - Config: wg-ondemand/src/config.rs. `parse_cidr` and `ip_in_subnets` are used by the loader
--   and by the main loop; `load_config` and `validate_config` stand before everything else.
-- - Ebpf: wg-ondemand-ebpf/src/main.rs, the classifier that runs in the kernel on each packet
--   that leaves the monitored interface. Ebpf/Slots is the interface between it and the loader:
--   the array map SUBNETS, as a record of operations with its laws.
-- - Loader: wg-ondemand/src/ebpf_loader.rs, `EbpfManager`: it fills SUBNETS, and attaches,
--   detaches and polls the classifier.
-- - Controller: wg-ondemand/src/wg_controller.rs, `WgController`: the tunnel's commands and
--   counters.
-- - Ssid: wg-ondemand/src/ssid_monitor.rs, `SsidMonitor`: the current SSID and the events of the
--   network. Ssid/Channel is its `monitor` as a task that waits for signals and for room in the
--   channel of events that it shares with the main loop.
-- - Routes: wg-ondemand/src/route_manager.rs, `RouteManager`: the routes past the monitored
--   interface. Routes/Table, Routes/Removal and Routes/Deletion set the manager against the
--   kernel's table; Routes/Drop is its `Drop`.
-- - State: wg-ondemand/src/state.rs, `StateManager`: commands in, actions out. State/Diagram is
--   its specification, an indexed data type of transitions.
-- - StateFile: wg-ondemand/src/state_file.rs, the text that other programs read.
-- - Net and Retry: the helpers of wg-ondemand/src/main.rs that look for an interface and its
--   address, and the task that retries an attachment.
-- - Daemon: `async_main` of wg-ondemand/src/main.rs. A `Daemon` is the record of the loop's
--   variables with the system's state; Daemon/Start builds it, Daemon.antt has a function for
--   each branch of the `select!`, Daemon/Retries the retry tasks beside it, and Daemon/Loop runs a
--   sequence of events, in any order. Daemon/Shutdown is the way out after a signal.
--   Daemon/Exit has the two ends of the loop, with what is dropped on them, and `async_main` as a
--   whole. Daemon/Trace sets the loop against the state machine, by Daemon/Frame, which says once
--   what every branch does; Daemon/Report sets it against the state file, Daemon/Table against the
--   kernel's table of routes, Daemon/Tunnel and State/Told against the tunnel itself, and
--   Daemon/Demand against the traffic events (Daemon/Traffic). Daemon/Packet,
--   Daemon/Monitor, Daemon/Join, Daemon/Late, Daemon/Leave and Daemon/Idle follow a packet, a signal
--   of NetworkManager, a network found at once, without an address, and lost, and an idle tunnel
--   through the components, and Daemon/Deadline the ticks of the idle timer; Daemon/Filter and
--   Daemon/First begin at the configuration. Daemon/Blocked (with Daemon/Full) says where the loop can
--   hang and Daemon/Hang how its own `send` of `TunnelUp` does, Daemon/Trap and Daemon/Stuck in which
--   states the machine can, and Daemon/Tasks counts the retry tasks.
-- - Xtask: xtask/src/main.rs, the build of the classifier by cargo.
-- - Suite: the unit tests of wg-ondemand/src, each as the conjunction of its assertions. Tests:
--   the theorems at concrete inputs.
-- - Base: lists and tests on the native numbers, errors as values, and the parts of Rust's
--   standard library that the program uses: `split`, `lines`, `split_whitespace`, `find`, the
--   parsers and printers of numbers and IPv4 addresses, `from_utf8`. Os: programs run over a
--   state of the system.
--
-- How the code is modelled. A text is the list of its characters. A machine integer is a natural
-- number, with its wrap-around written out where the code can leave its range; sums of u64 wrap,
-- as in a release build. An error is the name of its place, without its message. What is not the
-- program's own is a parameter: the commands of the system and their outcomes (Os), aya (Aya), the
-- packet helpers of the kernel (Kernel), the array map (SubnetMap), NetworkManager as D-Bus shows
-- it at one moment (Bus), the file system and clock behind the state file (Files), what a reader
-- sees of it (Report), the interfaces' addresses and the counters of a WireGuard device (World),
-- the kernel's table of routes (RouteTable, Privileged), what leaves it alone (Neutral), and that
-- a deletion of a route that is there succeeds (Deletes: an assumption, since the code ignores
-- what comes of it, made only by the theorem on the table from the start on), whether the tunnel
-- is up (Tunnel), tokio's handle inside and outside of its runtime (Runtime, Inside). The system's
-- state moves when a program is run (Os/Ran says what that cannot change), when the state file is
-- written, and, between two branches of the loop, as the event `system_changes` says. Logging is
-- left out. `set_subnets` and `clear_slots` recurse on the subnets and on the rounds left, sixteen
-- at most, and `show` on twenty digits, which are enough for a u64; no other function has a bound
-- of its own.
--
-- The channel of commands is a queue of at most 32. The loop is its only receiver, so that a
-- `send` of the loop itself on a full queue is the outcome `blocked`, after which no event is
-- taken. A retry task is a record that wakes; one that waits in `send` is counted apart. The slot
-- that a `recv` of the loop frees goes to a task that waits, before the branch's own `send`: this
-- is the event `contended_command`, beside the `command` without such a task. The order in which
-- waiting tasks are served among each other is not modelled.
--
-- Each branch of the loop is one step, up to its end or to a `send` that never returns. While it
-- waits for a program, the state of the machine has changed already and the state file has not;
-- theorems on the file, the table and the tunnel speak of the moments between two branches.
--
-- The channel of network events is a queue of at most 32 as well, between the monitor task and the
-- loop. A signal that comes while the task is in `send` is left to D-Bus.
--
-- Not modelled: the command line, logging and the set-up of the runtime in `main`; the error
-- returns of `send` and of the signal handlers' set-up, which happen only without a receiver or a
-- runtime; and the scripts and packaging around the daemon. Of the unit tests, those that only ask
-- for Copy, Debug, the size of an integer or an alignment, and the two of ssid_monitor.rs, which
-- call nothing of the program.
pub mod Base
pub mod Types
pub mod Config
pub mod Ebpf
pub mod Os
pub mod Loader
pub mod Controller
pub mod Ssid
pub mod Routes
pub mod State
pub mod StateFile
pub mod Net
pub mod Retry
pub mod Daemon
pub mod Xtask
pub mod Suite
pub mod Tests
