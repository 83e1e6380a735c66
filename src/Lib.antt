-- ===== src/Lib.antt =====
-- The programs of the course CSCI 3753: a character device driver (lab2), a threaded host name
-- look-up over a bounded queue (lab3), file benchmarks and their launcher (lab4), and a file cipher
-- with an encrypting file system and an attribute tool (lab5).
--
-- The parts and their files:
--   Prelude: the Boolean tests, C arrays as lists with native indices, signed integers, and C
--     strings (Text), with `strcmp`.
--   Queue: lab3/queue.c and lab3/queue.h. The array, `front`, `rear` and `maxSize` are a record;
--     NULL is `none`; `queue_init`, `queue_is_empty`, `queue_is_full`, `queue_push`, `queue_pop`,
--     `printQueue` and `queue_cleanup` are functions on it. `malloc` is a parameter. Fifo is the
--     abstract bounded queue, Shape, Steps and Refine relate the two, Life is about the beginning
--     and the end of a queue, and Bounds about its indices.
--   Driver: lab2/module/simple_char_driver.c (its copy in lab2/submission is the same text) and
--     lab2/module/modded_simple_char_driver.c. The file operations are functions on the device's
--     state; copy_to_user and copy_from_user are a parameter, since they may stop early; the
--     kernel's file calls of the modified driver are a parameter too. Log and Run are the device as
--     a log of what was written, Read and Overrun are reads and the modified driver.
--   Console: lab2/lab2_test.c (its copy in lab2/submission is the same text), with `fgets`, and
--     with stdio reading the device in whole blocks. Typed is what is typed, and Shows a session on
--     the device of Driver.
--   FakeDevice: lab2/fake_device.c, as a function of what its `read`s give, with `none` for a store
--     behind an array. Store and Messages are about requests and texts that bring their NUL.
--   Lookup: lab3/multi-lookup.c. Setup is `main` up to its waits, as a function of the calls that
--     it makes, and Team the threads that it starts. Requester is `doRequest` with its helper
--     `checkFunction`, Resolver is `doLookup`, System is the waits of `main` and the interleaving
--     of all threads: each thread has a place in its code, and a step is a call, a test or an
--     assignment. The queue is that of Queue. `myDnsLookup` is a parameter. Owners is about
--     `qlock`, Counts about `hostnameLeft`, Progress and Joined about who is finished, Complete
--     about the output. Output is the locks of the output file, with the helpers as readers and the
--     resolvers as writers, a relation beside the first; Exclusion is about it.
--   Dns: lab3/util.c, `myDnsLookup` and `dnslookup`, with `getaddrinfo` and `inet_ntop` as a
--     parameter. A write past `finalstr` is a result of its own. Addresses is its reference
--     description.
--   Sequential: lab3/lookup.c, with the look-up and the input files as parameters. Agreement sets
--     its output beside that of Lookup on the same files.
--   Crypt: lab5/aes-crypt.c, `do_crypt`. The streams and the engine of libcrypto are parameters
--     (Streams, Evp); Stream, Round and Engine are its loop, Cipher what it makes of a file. Files
--     has files by their paths and the calls of `do_crypt` on them, Runs what these do, Tool is
--     lab5/aes-crypt-util.c, and Trip is two runs of it.
--   Transfer: lab4/rw.c. Its arguments (Arguments), a round of its loop (Cycle), the whole loop
--     (Whole) and the end of the program (Success); `atol`, `malloc`, the process id and the system
--     calls are parameters.
--   Pi: lab4/pi.c and lab4/pi-sched.c, with the arithmetic on `double` (Double) and the generator
--     behind `random` (Generator) as parameters. Counts is what their loop counts.
--   Mixed: lab4/mixed.c, over the definitions of Transfer and Pi. Forget relates it to lab4/rw.c.
--   Parent: lab4/parent.c. What `main` makes of its arguments is a function; the loops of `fork`
--     and `waitpid` and the children are a step relation, in which the program of a child comes to
--     its end or not, and Ends is about its runs.
--   Endfs: lab5/pa5-endfs.c. The handlers that make one request of the system below stand in Endfs,
--     with the system calls as a parameter: Confined is about the paths that they use, Descriptors
--     about open files. Those that encrypt, and `xmp_readdir`, are in Handlers, over Sealed, which
--     puts files and keys through `do_crypt` of Crypt. Runs and Keys are about Sealed, Created is
--     about `xmp_create`, and Unset about `xmp_release`. What uninitialised arrays hold is an
--     argument of these handlers, since `xmp_open` and `xmp_release` take their key from one.
--   Xattr: lab5/xattr-util.c, with the attribute calls and `malloc` as a parameter. Names is about
--     the list that it prints, Store about values set, asked for and removed.
--
-- Bounds. Sizes and indices are natural numbers, signed values are integers, and the theorems that
-- concern a machine width say so. Some loops run on fuel: that of `queue_cleanup` on maxSize + 1
-- rounds, since each round takes an item off; that of `do_crypt` on more rounds than the file has
-- bytes, since each round but the last reads one at least; those of lab4/rw.c and lab4/mixed.c on
-- two rounds for each block, since after a short read a whole block follows; that of the names in
-- lab5/xattr-util.c on one more round than the list has bytes, since each name ends with a NUL.
-- The loops of pi.c run on their number of iterations; those of lab2/lab2_test.c on more rounds
-- than there are commands, and on two reads of the device, the second of which is at its end. The
-- look-up and the launcher are relations on states, without fuel.
--
-- Not modelled. Of lab5/pa5-endfs.c: `main`, which fills the context and calls FUSE, and the
-- limits of its path buffers. Its `serve` has the members of `xmp_oper` but `readdir`, `open`,
-- `create`, `release` and `setxattr`, which stand in Handlers with a state of their own. `fopen`
-- for reading tells only whether the file can be read, and what a FILE holds is in the file once
-- it is closed. Of the look-up: in the relation on all threads an append to the output file is one
-- step, and so is each find of a helper, between any two steps of its requester; that file locks
-- keep them apart is shown on their own relation, for mutexes that any thread may unlock. Names
-- are tokens as `fscanf` gives them, and a line of the output is read back as one token, which
-- holds for lines of at most 1024 bytes. A helper follows a `realloc` of its requester's buffers;
-- the read and the write of `numHostsInDat += 1` and of `*sharedLeft -= 1` are steps of their own,
-- since no lock keeps them apart, but what else a data race may do is left out. A resolver that
-- reads a buffer that is freed, and the helper of a requester that exits before it reads, are
-- undefined and make no further step. Where a call before `fopen` fails in `doRequest` its file is
-- `none`, as where `fopen` fails. The relation on states begins with all threads there: one that
-- `main` creates later takes its first step later. Of the benchmarks: the messages that are
-- printed on the way. lab5/fusexmp.c and lab5/fusehello.c are examples of the FUSE library; the
-- system call of lab1, lab3/queueTest.c and lab3/pthread-hello.c have no model here.
pub mod Console
pub mod Crypt
pub mod Dns
pub mod Driver
pub mod Endfs
pub mod FakeDevice
pub mod Lookup
pub mod Mixed
pub mod Parent
pub mod Pi
pub mod Prelude
pub mod Queue
pub mod Sequential
pub mod Transfer
pub mod Xattr
