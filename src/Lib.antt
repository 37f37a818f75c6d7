-- ===== src/Lib.antt =====
-- Vanadium runs V-Apps: RISC-V programs in a virtual machine on a secure element, whose memory is
-- kept page by page by a client that is not trusted. The parts modelled here are those on which
-- everything else stands.
--
-- * Riscv models common/src/riscv. Riscv/Op is the enum `Op` of op.rs. Riscv/Field, Riscv/Compressed
--   and Riscv/Decode are the functions of decode.rs: the fields of a word, `rv32c`, and
--   `decode_uncompressed` and `decode`; a large `match` has a function for each of its inner ones.
--   Riscv/Decode/Encode is not code: it is the encoding of the manual, to compare with.
-- * Vm models common/src/vm.rs. Vm/Memory is `PagedMemory` and `VecMemory`, Vm/Segment and
--   Vm/Segment/Buffer are `MemorySegment`, Vm/Cpu is `Cpu` with its access to the segments and
--   `fetch_instruction`, and Vm/Alu, Vm/Arm and Vm/Execute are `Cpu::execute`: its arithmetic, its
--   arms, and the match on the instruction.
-- * Accumulator models common/src/accumulator.rs: the Merkle tree by which the client commits to the
--   pages, its proofs and updates, the verifiers that are fed one hash at a time, and
--   Accumulator/RootComputer.
-- * Message models common/src/client_commands.rs: the codes, the messages by which the VM asks for a
--   page (Message/Page) and commits one (Message/Commit), and the answers of the client. A message is
--   the list of its bytes, and a slice that is cast to a hash or a page is a list of that length.
-- * Paging models the memory of the VM app, of which the client keeps the pages. Paging/Outsourced is
--   `load_page` and the part of `commit_page_at` that talks to the client, and
--   Paging/Outsourced/Access the rest of `OutsourcedMemory`, both of
--   vm/src/handlers/lib/outsourced_mem.rs. Paging/Strategy and Paging/Evict are evict.rs beside it:
--   the trait, `LruEvictionStrategy` and `TwoQEvictionStrategy`. Paging/Aes is `AesCtr` of
--   vm/src/aes.rs, Paging/Device the keys of vm/src/auth.rs, Paging/Session `interrupt` of
--   vm/src/io.rs, and Paging/Talk the error handling around that and the loop for a proof that does
--   not fit into one message.
-- * Client models the part of the SDK of the client that keeps the pages. Client/Memory is
--   `MemorySegment` of client-sdk/src/memory.rs. Client/Engine and Client/Serve are `VAppEngine` of
--   client-sdk/src/vanadium_client.rs as far as it serves pages: its state and its exchanges, and
--   `process_get_page` and `process_commit_page`. Client/Conversation puts the client and the VM
--   together: what each sends is what the other receives.
--
-- How they interact: `execute` decodes a word and reads and writes through the segments of the CPU;
-- a segment asks its memory for a page at a time. The outsourced memory keeps some pages in slots. It
-- asks the client for the others in the messages, and accepts one only with a proof of the
-- accumulator against its root; a page that was modified is encrypted, and committed before its slot
-- is given to another, with a proof of the update that gives the new root.
--
-- Conventions. A register, an address or a 32-bit immediate is its unsigned pattern, a number below
-- 2^32, with `% 2 ^ 32` where the code wraps. The workspace turns no overflow checks on, so that
-- arithmetic is that of a release build. A fallible call is an `Outcome`: a value, an error, or a
-- panic; a strategy, which only panics, is an `Option`. A step of the CPU, of a segment or of a memory
-- takes its state and returns it changed, also with an error. After a panic nothing goes on, and the
-- state beside it stands for nothing: a store of several bytes that would panic between two of them
-- keeps none. `get_page` hands out a reference to a
-- page; here a page is read with `get_page` and left with `put_page`. What a client relies on in a
-- memory is the record `IsPagedMemory`: `view` gives the pages that the memory stands for, which
-- `get_page` does not change. It asks nothing of when `get_page` fails: a memory may always refuse a
-- page; `IsAvailable` says that it does not.
--
-- A `Session` is the list of what the client will answer, whatever it is asked, and of what was sent
-- to it: since the list is arbitrary, it stands for every client. After the last answer a call does
-- not return, which counts as a panic. The memories of the VM share their session and the nonce of
-- their encryption; here a memory has both, and hands them on.
--
-- The transport of the client is modelled in the same way: a `Link` is the list of the replies that the
-- exchanges will get, and of the data of the `Continue` commands that were sent.
--
-- Parameters: the hasher of the accumulator, as the function from the bytes it is fed to its output;
-- the handler of ECALL, as a function on the CPU and a state of its own; the record `Device`: SHA-256,
-- the AES block cipher, HMAC-SHA256 and the stored secret. A `usize` in the verifiers and in the memory
-- has 32 bits, as on the devices; the accumulators of the theorems about them are smaller than 2^31.
--
-- Fuel: the loops of `prove` and `update` halve a position, and have as many turns as the position
-- counts, which is more than the turns it takes to come to 0. The loops of the buffers and of AES-CTR
-- take at least a byte in a turn, and have as many turns as bytes; the loop over the pages of a
-- segment has one more, to end. The loop that sends the rest of a proof takes at least a hash in a
-- turn, and has as many turns as hashes. The loop that asks for the rest of a proof takes an answer
-- of the client in a turn, and has one turn more than there are answers. The search for a power of
-- two doubles 1 less than 32 times, on the host less than 64 times, as often as a `usize` has bits.
--
-- Not modelled: `get_segment`, debug output and error texts, serde, the metrics, and the parts of the
-- repository around these: the messages about buffers and code pages, the handlers of the VM app, its
-- keys but for those of Paging/Device, the SDK of the V-Apps, that of the client but for the pages, the
-- applications and the tools.
pub mod Prelude
pub mod Word
pub mod Riscv
pub mod Vm
pub mod Paging
pub mod Accumulator
pub mod Message
pub mod Client
