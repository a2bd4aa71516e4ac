-- ===== src/Lib.antt =====
-- super-herdr, a federation of terminal-multiplexer servers seen through one daemon. The daemon's
-- `Broker` (src/daemon/broker.rs) is the state machine between its clients, the panes that they
-- watch and the servers behind them: it takes a client's message, a frame of a pane or a new state of
-- the federation, changes its tables and answers with a list of effects that the asynchronous shell
-- (src/daemon/server.rs) carries out. It renders frames to screens with src/screen.rs, speaks the
-- messages of src/protocol.rs, and names everything by the identities of src/model.rs.
--
-- The files:
--   Common (and its children): conditionals, machine widths, bits, text, lists, orders, results and maps.
--       `BTreeMap` and `BTreeSet` are lists kept in the order of their keys.
--   Model: src/model.rs. Federation: the data of src/state.rs and the comparison of two target
--       states; Federation/Reducers: the records of its supervisor. Payloads: the data that messages carry, from src/agent_card.rs, src/agent_marks.rs,
--       src/operation.rs, src/plugin.rs, src/aliases.rs, src/remote_files.rs, src/attention.rs,
--       src/config.rs, src/terminal.rs and src/resource_action.rs. Protocol: src/protocol.rs.
--   Screen: src/screen.rs, `Snapshot`, `Diff`, `apply`, `between`. Screen/Render: `Snapshot::of` and
--       `render_row`. Screen/Diffs, Screen/Canonical: theorems about them.
--   Broker/State, Leases, Control, Screens, Requests, Handle, Events, Federated: src/daemon/broker.rs,
--       its data, then its operations by the names that they have there. A method that changes the
--       broker is a function to the broker afterwards and the effects in their order; a part of a
--       method that branches or loops is a function of its own, named for what it does.
--   Broker/Invariant: what should hold between two messages. Links, Routes, Release, Departure,
--       Takers, Arrival, Retirement, Preservation: lemmas about it, operation by operation. Reach: the
--       step relation of the broker and its runs.
--   Broker/Authority, Grants, Permission, Tenure, Takeover: about leases and what needs them.
--   Broker/Handshake: connections before their handshake. Broker/Flow, Pacing, Updates, Paced: screen
--       updates and their limit. Broker/Delivery, Broker/Vanished: frames, and routes that retire.
--   Marks (and its children): src/agent_marks.rs, the marks that a person puts on agents.
--   Attention (and its children): src/attention.rs, the index of what agents did, which the daemon builds
--       from one state of the federation to the next and a client copies.
--   Moves (and its children): src/workspace_move.rs, the plan that moves a tab (Moves),
--       `move_workspace` over a Herdr session that is a parameter (Moves/Carry), and recreations.
--   Notifications (and Notifications/Queue, Timing): src/notifications.rs, when an event is notified.
--   Aliases (and its children): src/aliases.rs, local names, favourites and slots.
--   Pairing: src/pairing.rs and `normalize_pairing_code` of crates/bridge/src/lib.rs. Pairing/Desk: the
--       pairing of devices in src/daemon/server.rs (`DevicePolicy`, `issue_pairing_code`, `decide_pairing`,
--       `sweep_pairing_approvals`) and the recording of devices of src/config.rs. Pairing/Codes, Counted,
--       Admission, Admitted, Names: theorems about them.
--   Examples (and its children): concrete runs on which the theorems are tried.
--
-- Numbers are natural; the places where the code's integers could wrap are written out: the counter
-- of clients and the sequence of a screen (`u64`), the index of a row (`u16`). Fuel
-- bounds two loops: the decimal digits of a `u32`, of which ten are enough, and `enforce_cap`, each
-- round of which drops a mark, so that it is given the number of the marks. The search for a free
-- device name has a step more than there are devices. The depth to which src/workspace_move.rs reads a
-- tree is counted down from its own limit.
--
-- The `vt100` emulator is not part of the repository. It is a parameter, the record `Vt100`, whose one
-- law is that the size of a screen fits `u16`. Random bytes, the time and SHA-256 are arguments of the
-- operations that use them, without any law, and so is what is read of JSON values, the record `Json`. A Herdr session is a
-- parameter; the record `Faithful` is what is assumed of the requests that it does not refuse.
--
-- Not modelled: the asynchronous shell, sockets, SSH and processes (src/daemon/server.rs but for the
-- pairing of devices, src/daemon/web.rs, src/client.rs, src/transport.rs, src/clipboard.rs), the terminal interface
-- (src/tui.rs), the command line, the bridge but for the reading of a code, JSON encoding, and the
-- reading and writing of files; what a store lists is modelled, and what it refuses of that; the limit on a
-- file's bytes only for the aliases. Text is the list of its code points.
-- A `BTreeMap` lookup that the source unwraps does not occur here; the indexing of a missing row in
-- `Diff::between`, which would panic, is an empty row and is not reached.
pub mod Common
pub mod Model
pub mod Screen
pub mod Federation
pub mod Payloads
pub mod Protocol
pub mod Attention
pub mod Aliases
pub mod Pairing
pub mod Notifications
pub mod Moves
pub mod Marks
pub mod Broker
pub mod Examples
