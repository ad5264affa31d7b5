-- ===== src/Lib.antt =====
-- unix-ancillary: passing file descriptors and credentials over Unix sockets.
--
-- The crate builds control messages for `sendmsg`, parses the control bytes that `recvmsg` leaves,
-- makes owned descriptors of them at once, and puts policies on top: how many descriptors a
-- receive may return, what truncation means, and how a stream send is completed. The point of it
-- is that no descriptor leaks or is closed twice, on any path.
--
-- How the parts interact. The convenience methods of src/ext.rs and src/seqpacket.rs size a
-- control buffer by src/platform.rs and src/ancillary.rs, call src/cmsg.rs, and apply a policy to
-- the descriptors. The async methods of src/asyncio.rs run the same operations under tokio's
-- `async_io`, which tries an operation again when it failed with `WouldBlock`. The low-level calls
-- of src/lib.rs work on storage of the caller's, a `SocketAncillary`, which keeps received
-- messages until they are drained.
--
-- Files.
--     Base, Base/*: lists, Boolean tests, options and results over native numbers.
--     Bytes, Bytes/*: byte strings, integers in the target's byte order, reads and writes at an
--     offset.
--     Target: the layout of `struct cmsghdr`, the `CMSG_*` macros, the constants and the error
--     kinds of `libc` and `std`, as a parameter. `IsTarget` names what the proofs use of them: the
--     fields of the header do not overlap, `CMSG_LEN` covers the header, `CMSG_SPACE` covers
--     `CMSG_LEN`, grows with its argument and is a `c_uint`, `usize`, `cmsg_len` and
--     `msg_controllen` can hold a `c_uint`, and the constants are `c_int`s of which the three
--     message kinds differ. Target/Linux has the values of x86-64 Linux and shows that they obey
--     `IsTarget`.
--     System: the system calls as functions on a kernel state, which are a parameter; the world,
--     with the list of descriptors that dropped owners closed and the list of accepted sends; and
--     a monad of values, errors, panics and exhausted bounds.
--     Ancillary/Layout, Raw, Buffer, Take, Drain: src/ancillary.rs, with the credentials of
--     src/credentials.rs. The iterator `RawMessages` is its remaining bytes (`raw_next`);
--     `SocketAncillary` is a record whose field `length` is called `filled`.
--     Platform, Platform/Fallback: src/platform.rs. The `cfg` choices are tests on the target
--     family.
--     Cmsg: src/cmsg.rs. Buffers that the kernel writes are returned beside the result.
--     Ext, Ext/Stream, Ext/Datagram: src/ext.rs. Seqpacket, Seqpacket/Async: src/seqpacket.rs, the
--     blocking functions and the tokio module.
--     Tokio: what the crate takes from tokio, as a parameter: `async_io` of its sockets and of
--     `AsyncFd`, with its documented behaviour (`Attempts`), and the monad of async methods, in
--     which a future that is dropped at an `await` is a result of its own.
--     Asyncio/Stream, Asyncio/Datagram: src/asyncio.rs.
--     Api: src/lib.rs. Credentials: the socket option and the constructors of src/credentials.rs,
--     whose getters are the fields of `ScmCredentials`. Fuzz: fuzz/fuzz_targets/parse_cmsg.rs.
--     Std: what the programs of examples/ take from std and tempfile, as a parameter, and the end
--     of a scope that owns a descriptor; what std writes to a socket is not among the accepted
--     sends. Multiprocess: the child of examples/multiprocess.rs; Multiprocess/Parent: its parent
--     and `main`.
--     Ancillary/Raw/Parse, Ancillary/Buffer/*, Ancillary/Take/Owned, Ancillary/Take/Typed,
--     Ancillary/Drain/Account, Ancillary/Drain/Ledger, Ancillary/Drain/Typed, Platform/Laws,
--     Platform/Obliging, Cmsg/Retry, Cmsg/Recv, Cmsg/Fits, Cmsg/Calm, Cmsg/Returns, Ext/Ledger,
--     Ext/Attempt, Ext/Receive, Ext/Send, Ext/Owned, Ext/Into, Ext/Control, Ext/Returns,
--     Ext/Stream/Complete, Ext/Stream/Delivers, Ext/Arrival, Ext/Exchange, Ext/Handover,
--     Credentials/Laws, Tokio/Retry, Asyncio/Blocked, Asyncio/Trials, Asyncio/Gives,
--     Asyncio/Receive, Asyncio/Complete, Asyncio/Bounds, Asyncio/Returns, Api/Ownership,
--     Api/Modes, Api/Arrived, Api/Tally, Std/Laws, Multiprocess/Session, Multiprocess/Child,
--     Multiprocess/Returns, Multiprocess/Parent/*: theorems about the part that the path names.
--     Api/Lifecycle, Api/Lifecycle/Sound, Api/Lifecycle/Bags, Api/Lifecycle/Typed: one
--     `SocketAncillary` from its construction to its drop, as a relation of its public calls, with
--     the messages added, the descriptors installed and the descriptors taken beside it.
--     Examples: small machines, and the theorems at concrete inputs.
--
-- A descriptor is its number, and a `RawFd` read from bytes is its 32-bit pattern, so that a
-- negative one is 2^31 or more. Owning a descriptor is holding its number; dropping it is
-- `close_fd`, which records it.
--
-- Bounds. The loops over a control buffer run on one round more than it has bytes, and a message
-- takes its header at least. The loops of `send_fds_all`, blocking and async, run on one round
-- more than the payload has bytes. An interrupted system call is retried without bound in the
-- source; here it is retried up to `retries` of the host, and `Settles` says that the kernel
-- interrupts less often than that. `ControlFits` says that `recvmsg` reports no more control bytes
-- than the buffer holds, `ControlFixed` that it keeps the length of the buffer, `ControlBytes`
-- that it leaves bytes in it, `Fcntl` what `fcntl` does to close-on-exec, `FcntlNeverBlocks` that
-- it never fails with `WouldBlock`, `Obliging` that it succeeds and that reading the limit on
-- descriptors changes nothing, `Willing` that every send is accepted in the end with a byte at
-- least, `Arrival` that `recvmsg` delivers given control messages whole, and `Carried` that these
-- are what a send of another process carried, its descriptors installed under new numbers. `Clock`
-- says what the clock and `sleep` do, which ends the accept loop of examples/multiprocess.rs
-- within its 1001 rounds of 10 milliseconds, and `OpensFds` that `File::open` answers non-negative
-- descriptors. `PasscredFlag` says that `getsockopt` reads what `setsockopt` set. Payload lengths
-- are not bounded: std bounds them. The length of control data that is sent is cut to the width of
-- `msg_controllen` as the source cuts it (`passed_control`); the buffers that it computes itself
-- are shorter than 2^32 bytes, so that only `cmsg_sendmsg` on a larger buffer of the caller's can
-- meet the cut. On the receiving side the kernel is handed the buffers in full and may use any
-- part of them, which covers the same cut there. The array on the stack of `with_control` has
-- exactly `STACK_CONTROL` bytes (`stack_array`), and a write past its end is lost.
--
-- Receives and leaks. A theorem on the descriptors of a receive compares the run with its own
-- `recvmsg`, which is the run up to the answer of the kernel (`attempted` of Ext/Attempt,
-- `session_attempt` and `child_attempt` of Multiprocess, `installed` of Api/Tally, and `bounced`
-- and `decisive` of Asyncio/Trials for the attempts under `async_io`), and `batch` of Cmsg/Recv is
-- what that delivered.
--
-- Not modelled: lists of 2^31 buffers and more, whose number `msg_iovlen` may cut; what a failed
-- `recvmsg` leaves in the caller's buffers; `mem::forget` of an iterator; the texts of errors;
-- allocation; the lifetimes that tie borrowed descriptors to a buffer; the lines that
-- examples/multiprocess.rs prints; the other examples, which run in one process and only call the
-- crate and print; tests of the crate.
pub mod Ancillary
pub mod Api
pub mod Asyncio
pub mod Base
pub mod Bytes
pub mod Cmsg
pub mod Credentials
pub mod Examples
pub mod Ext
pub mod Fuzz
pub mod Multiprocess
pub mod Platform
pub mod Seqpacket
pub mod Std
pub mod System
pub mod Target
pub mod Tokio
