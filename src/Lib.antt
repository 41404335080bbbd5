-- ===== src/Lib.antt =====
-- Verification of the protocol `lightning` and of what runs it: the simulator, the firmware of the nodes
-- and the cloud service of the test bed.
--
-- A node of the protocol is a state machine (components/protocol/lightning): its host calls
-- `Protocol::progress` with the time and perhaps a message, and executes the action that the call
-- returns. A node that finds a parent listens for beacons, connects, and then serves windows: it sends
-- beacons, hears its children, and sends what it has to its parent. The windows stand in a queue and
-- keep a clearance. The simulator (components/simulator) is one host of many nodes: it keeps an event
-- for each node in a sorted linked list (libraries/sorted_linked_list), handles the earliest one, and
-- forwards what a node transmits to the nodes that listen on the channel. The firmware
-- (components/firmware) is the host of one node: its loop reads the clock, calls `progress`, and waits,
-- listens or transmits with the radio. Nodes in the test bed connect to the cloud service
-- (components/cloud): it keeps its clients in a slab, gives each a colour, takes their log messages,
-- and sends them commands and firmware updates, whose image it extracts from an ELF file.
--
-- Files:
--   Base and below: lists measured by native numbers, insertion, counting; calls that may panic
--     (`Outcome`, `Returns`); words that wrap; the random generator as a stream of u32 values.
--   Heapless: the vector and the sorted list of the crate heapless, as interfaces with laws;
--     Heapless/Lists shows that lists meet them.
--   Api: `Action` and the trait `Protocol` of components/protocol/api/src/lib.rs.
--   Lightning/Params, Channels, Message, States, Context: lib.rs, channel.rs, message.rs, states.rs,
--     context.rs of components/protocol/lightning/src. Channels/Choice is about the children channel.
--   Lightning/Window and Windows: window.rs. Window/Spacing and Delay are about distances and
--     `Window::delay`; Windows/Views, Accepted, Rounds and Push about `Windows::push`; Windows/Removal
--     about what takes windows out.
--   Lightning/StateMachine: `Lightning::next` of state_machine.rs, with a function for the code of each
--     arm: Steps (shared), Joining (Reset to ListenForConnectAck), Serving (Idle to SendDataAck).
--   Lightning/Node: `Protocol` for `Lightning`, in lightning.rs.
--   Lightning/Beacons, Reservation, Upcoming, Uplink, Listening, Faults: single behaviours of the state
--     machine.
--   Lightning/Unchanged: the identifier and the role of a node. Lightning/Heard: what a host relies on when
--     it hands on a message.
--   Lightning/Invariant: what holds in each state, and what a call may rely on (`Expected`); below it
--     the proofs, by group of transitions, and Runs for whole runs.
--   SortedLinkedList and Slab: the two containers, with Order and Slots below them.
--   Firmware: main.rs and iv.rs of components/firmware/src; timers, radio and encoding are the interface
--     `Board`. Frequencies, Radio and Host model main.rs, Switches and Bus iv.rs. Listening, Running, Late,
--     Switches/Exclusion and Bus/Transactions hold the proofs.
--   Cloud: the clients of components/cloud/src/client.rs, and the interfaces for sockets, encodings and
--     the log decoder. Sending (client.rs), Receiving, Commands and Server (main.rs) and Elf (elf.rs) have
--     their proofs below them.
--   Colors: the colours of the clients, of components/cloud/src/client.rs.
--   Crc: the checksum of an image, of components/cloud/src/crc.rs; the crate crc is an interface.
--   Simulator, Simulator/Medium and Simulator/Loop: sim.rs and `run` of main.rs, with the protocol, the
--     location and the test for visibility as parameters; Owners, Queue, Forwarding, Deliveries,
--     Transmissions, Rounds, Start and Collisions hold the proofs. Simulator/Network puts Lightning in the
--     place of the protocol: Addressed, Nodes, Events, Steps, Calls, Rounds and Start hold the proofs.
--   Scenarios: runs on concrete data and the theorems applied to them.
--
-- Numbers: arithmetic on u64 and usize wraps, as in a release build; theorems say how much room on the
-- clock they need. A u8 or u16 in a message is a number; the casts to u8 are written out. The loop of
-- `Windows::push` gets a round for each window in the queue and one more, which is shown to be enough.
-- The main loop of the simulator gets a number of rounds, since nothing in the code bounds it; its
-- theorems are about a round and about any number of rounds. The loop in which the firmware listens gets a round for each
-- millisecond that is left, and one more, which is enough since a packet is longer on the air. The loops
-- of the cloud service that receive get a round for each byte of the buffer and for each log frame that
-- may be pending, which is shown to be enough. Nothing in the code bounds the loop of `send_message`: it
-- is followed for a round for each byte and for each put-off write that the patience of the connection
-- allows, and diverges if it is not over then. That it ends is shown if the peers go on reading
-- (`IsPatient`), which mio does not promise. The
-- random generator, the crates heapless, crc, mio, cobs, ciborium, defmt_decoder, object, lora-phy,
-- embassy and postcard, and the test for visibility are parameters.
--
-- Not modelled: log output, JSON formatting and files; the floating-point distance of nodes and the
-- random placement and command line of the simulator; what the cloud service does before its loop; the
-- set-up of the hardware and the interrupts of the firmware; the Python scripts.
pub mod Base
pub mod Heapless
pub mod Api
pub mod SortedLinkedList
pub mod Slab
pub mod Colors
pub mod Crc
pub mod Lightning
pub mod Simulator
pub mod Firmware
pub mod Cloud
pub mod Scenarios
