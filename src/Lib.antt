-- ===== src/Lib.antt =====
-- A model of the BPP9000 miner: the reference scorer under src/bpp9000, which decides what every
-- other part has to compute, the window kernel under src/xdna, and the client of a direct node under
-- src/qubic, which gets work and submits solutions.
--
-- Prelude holds what the modules share: native numbers with their tests, lists measured by them,
-- 32-bit and 64-bit words with their wrap-around written out, counted loops, and `Outcome`, which
-- tells a value from a thrown error and from undefined behaviour (an access out of range).
--
-- Bpp9000 models src/bpp9000, from the bottom up:
--   Types      types.hpp: trits, tasks, configurations, scores, and the predicates on scores,
--              nonces and seeds that reference.cpp defines
--   Roles      the loops of reference.cpp that claim neurons for roles and look at lists
--   Contract   `require_scorable_task` and the size helpers of reference.cpp
--   Lut        class `Lut`: rows for the neurons that are no inputs, 27 entries in 32 bytes each
--   State      class `RecurrentState` and `recurrent_tick`
--   Score      `score_window` and `score_lut`
--   Mutation   `mutate_lut`, `rollback_mutation` and the loops over them
--   Candidate  `make_candidate_material` and `score_candidate`
--   Fields     task.cpp: the checked sizes and the little-endian fields of a task file
--   Packing    task.cpp: `pack_trits` and `unpack_trits`
--   Task       task.cpp: the validation of a task, and `serialize_task`
--   Parse      task.cpp: `parse_task`, over the digests of a provider, a function
--   Random     random.cpp: the fixture and the scripted random source
--   Network    no code: the network as a function from trits to trits, which State, State/Feed,
--              State/Inputs and Score refine
-- Xdna models src/xdna/m4_kernel.cc, of 64 neurons, 18 inputs and a table of 46 rows:
--   Kernel     `tick_once` and `copy_state`
--   Window     the window mode of `bpp9000_m4_dispatch`, over a record of the parts of its input,
--              which stand at fixed offsets in the device's buffer
-- Qubic models src/qubic/direct_node.cpp and direct_node.hpp:
--   Types      sizes, message types, errors and the records of messages
--   Wire       little-endian fields; Wire/Layout states a message as its list of fields
--   Frame      frames, requests and `FrameDecoder`, whose state is the bytes that it holds
--   Messages   system information, computors and entities
--   Work       `make_work_context` and `WorkContextTracker`, whose state is an optional context
--   Submission `authorize_submission`
--   Solution   `build_solution` over a `CryptoProvider`, a record of functions
--   Action     no code: actions on a state that may throw, and what they keep
--   Connection `FramedConnection` over a `Network`, a record of the clock, the streams, the counter
--              and the pause
--   Client     the requests of `DirectNodeClient`
--   Sending    its `submit_frame`, and `DirectNodeAdapter`
-- Messages and Sending share Frame; Submission takes the context that Work makes, and Solution and
-- Sending take what Submission authorizes.
-- The modules below a part prove its theorems. A class is a record of its members, a member
-- function takes it and gives it back, and a function that throws gives an `Outcome`.
--
-- The candidate search draws from a `CandidateRandomSource` (src/bpp9000/random.hpp), a record of
-- two functions. Theorems about it ask that it gives back as many values as the span has that it
-- is given, for spans of fewer than 2 ^ 40 places, which no task's draw reaches. Loops over a range
-- are recursion on what is left of the range; the loop over the ticks of a window ends with the
-- configured number of ticks at the latest, so it needs no other fuel. The loops over a stream have
-- as many rounds as bytes to read or write, since each round moves one at least, and the loop over
-- the frames that a request ignores one more than the bytes that it may ignore. Theorems about a
-- network ask that its calls are defined and move no more bytes than they are asked to, or that a
-- log holds what the stream took; those about cryptography ask that a span keeps its size.
--
-- Not modelled: the messages of errors, the reservation of memory, the digest of
-- the fixture in src/bpp9000/task.cpp, the diagnostics of a request, the sockets and the
-- configuration of src/qubic/direct_node.cpp, the keys and the tools of src/qubic, the other modes
-- and the buffers of the window kernel, the other kernels, and the accelerator's runtime (src/xdna),
-- which only passes buffers to its library.
pub mod Prelude
pub mod Bpp9000
pub mod Qubic
pub mod Xdna
