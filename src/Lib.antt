-- ===== src/Lib.antt =====
-- A verification library for bicOS: the Stratum V2 protocol, the backend of the Antminer S9, the
-- generation of work, the scheduling of clients and the Bitcoin data types.
--
-- Parts. Paths are from the root of the repository.
--   Base                   shared helpers: names of the libraries passed on, Boolean tests, results
--                          with errors, lists, little-endian bytes, two's complement, masks, circles
--   Stratum                open/protocols/stratum/src
--     Serialization        v2/serialization.rs. Value is what a type's Serialize gives to the
--                          Serializer, Shape what its Deserialize asks of the Deserializer.
--                          Serializer.serialize, emit_sized (SizedSeqEmitter) and to_vec;
--                          Deserializer.deserialize, deserialize_sized (SizedSeqDeserializer) and
--                          from_slice. Fits says which values a shape has, Size how long they can get.
--     Types                v2/types.rs: sized texts, byte strings and sequences with their checks
--     Framing              v2/framing.rs and payload.rs: Header, Payload and Frame as bytes
--     Messages             v2/messages.rs, v2/macros.rs and build_message_from_frame of v2.rs.
--                          Encode, Layout and Decode are the derived serde implementations,
--                          Dispatch the conversions between messages and frames.
--   Antminer               open/bosminer/bosminer-am1-s9/src
--     Registry             registry.rs: store_work, find_work and insert_solution
--     Address              bm1387.rs and io/ext_work_id.rs: MidstateCount, ExtWorkId, CoreAddress
--     Registers            bm1387.rs: MiscCtrlReg and TicketMaskReg as words
--     Pll                  bm1387.rs: PllReg and PllFrequency, the table of dividers and its lookup
--     Counters             counters.rs: HashChain, Chip and Core, with add_valid and add_error
--     Receive              lib.rs: solution_rx_task, over the registry, the addresses and the counters,
--                          with the hash of a Solution of open/bosminer/bosminer/src/work.rs
--     Monitor              monitor.rs: Chain is ChainState, Decision is ControlDecision and
--                          TemperatureAccumulator, Tick is MonitorInner and do_tick
--   Work                   open/bosminer/bosminer/src/work
--     Engine               engine.rs: AtomicRange, with calls of next that interleave
--     Rolling              engine.rs: VersionRolling, whose works have the versions and times for
--                          the ranges of an AtomicRange; LoopState and Assignment of work.rs
--   Proxy                  open/stratum-proxy/src
--     Sending              util.rs, translation.rs: ids of requests and jobs, what is sent to either side
--     Channel              translation.rs: opening, closing and using the channel to the client
--     Upstream, Downstream translation.rs: what the messages of the pool and of the client do
--     Run                  messages of both sides, one after another. Logic has the rules for what a call
--                          ensures, Invariant what holds between two messages; Opening, Shares and
--                          Faults are about the life of a channel, of a job, and its panics.
--   Sync                   open/bosminer/bosminer/src/sync.rs: the status of a node, its compare-and-swap
--                          loops and their interleavings (Loops), starts and ends (Single)
--   Client                 open/bosminer/bosminer/src/client
--     Scheduler            scheduler.rs: groups of clients, the choice of the client that gets to send
--                          work, and the handover of the channel (swap_sender of work.rs)
--   Bitcoin                open/coins/bitcoin/src/lib.rs
--     Header               BlockHeader as bytes, its hash and its midstate
--     Target               Target with its compact form and its difficulties, meets, Shares
--
-- Messages are values that Serialization writes, Framing puts a header in front of them, and Dispatch
-- finds the shape to read them by from the header. The registry gives out the ids that Address packs
-- into 16 bits, and the address in a nonce picks the counters it goes to; Receive is where they meet.
-- A tick of the monitor lets every chain tick, aggregates their temperatures and decides. Rolling makes
-- the works of one job from the ranges of an AtomicRange, with midstates of Bitcoin headers. The proxy
-- answers the client with messages of Stratum and keeps, for each job that it gives out, what the pool
-- calls it.
--
-- Bounds. An integer of w bytes is below 256 ^ w; casts are written as remainders. The serializer and
-- the deserializer recur on the value and on the shape. Fuel is a number of digits where one is written
-- or searched: 256 for digit_count, as many as a U256 has, 32 for reverse_digits and is_power_of_two, 10
-- for the decimals of a u32; and a number of rounds in the loops of Sync, with a theorem on how many are
-- enough. Masks of up to 16 bits are checked by tables, longer ones by their digits. A usize of the proxy
-- has 64 bits, and its sums wrap as in a release build.
--
-- What panics in the source (assert!, expect, an index or a buffer that is too short, a clock that goes
-- backwards) is an error of its module.
--
-- Parameters: the validity of UTF-8, the arithmetic of f32 (IsFloats says what is used of it), SHA256,
-- the binary search of the standard library (IsBinarySearch), the readings of the clock, the fan
-- controller of fan/pid.rs (IsTempControl), what the clients report in a round, and the arithmetic of
-- f64 in the scheduler (IsOrder), whether the frontend still takes solutions, and Env of Proxy: the room in
-- the channels, the memory for the buffers of the extranonce, what serde_json reads from a result, the
-- debug output of responses, the cast of an f32 to a u32, and SHA256d. The type of the work that the
-- registry keeps is a parameter too; Receive takes it to be an Assignment.
--
-- Not modelled: memory that runs out but for the buffers of the extranonce, device access, tasks and
-- channels, logging, the codec and the encryption of the connection, the JSON of Stratum V1, the server
-- of the proxy, the connections of the clients and the statistics of bosminer, firmware and hardware.
pub mod Antminer
pub mod Base
pub mod Bitcoin
pub mod Client
pub mod Proxy
pub mod Stratum
pub mod Sync
pub mod Work
