-- ===== src/Lib.antt =====
-- Models and proofs of the C programs of the storage labs.
--
-- The flash translation layer, Ftl, of 06-storage-lab-inside-an-ssd-nand-ftl-in-10-minutes: the
-- programs 07_ftl_model.c to 12_wear_leveling.c share one drive (6 blocks of 4 pages, 16 LBAs) and
-- its operations, and each adds a main function. `Ftl` has the struct's fields; an `int` that may
-- be -1 is an Option; `g_naive` of 12_wear_leveling.c is an argument, and the programs without it
-- are the case `false`. The result `none` stands for an access to `nand[-1]`, which
-- the C code would make where `erased_block` finds nothing. Ftl.antt has the types, `make_ftl`,
-- `erased_blocks`, `victim`, `erased_block`, `program`, `trim` and `write_no_gc`, and Ftl/Loops.antt
-- `garbage_collect`, `write` and `consistent`; Ftl/Report.antt, Ftl/Random.antt and Ftl/Programs.antt
-- have the printed tables, `rng_next` and the main functions, whose text around the printed values
-- is left out. The loop of `write` runs on fuel, one round more than the drive has pages; a round
-- that goes on removes a stale page, so the fuel is enough. `waf` is the fraction that the
-- C code divides as a double. Ftl/Inv.antt has the invariant; Blocks, Program, Trim, Step, Choice,
-- Victim, Space, Alike, Ghost, Move, Collect and Write carry it through the operations, and Host
-- has the drive as its host sees it. The counters, `int` and `long` in C, are unbounded.
--
-- The NVMe queue pair, Nvme, of 07-storage-lab-inside-nvme-queues-in-10-minutes: Nvme.antt has the
-- entries and rings of 07_queue_pair.c, `submit` and the doorbell of 08_submit.c, `controller_run` of
-- 09_controller.c and `reap` of 10_reap.c; Nvme/Programs.antt has `decode` of
-- 06_completion_entry.c and the main functions. The loops run on fuel of one round for each slot,
-- which is enough since an index meets the other within a turn of the ring. Host memory is
-- a function from addresses to bytes, and `none` is a transfer outside its four pages. Nvme/View.antt
-- reads the rings as queues; Controller, Reap, Batch and Fill are about the operations on these.
--
-- The io_uring rings, Uring, of 10_uring_model.c and the polled queue pair, Poll, of 11_poll_model.c, both
-- in 08-storage-lab-buffered-vs-direct-io-in-10-minutes. The two rings of the C code have the same
-- code for 8 and 16 slots and are one ring here with the number of slots as an argument; their
-- uint32_t counters wrap around. The loops run on fuel; a ring of eight is empty after eight
-- rounds, and a command is polled for 4000 times.
--
-- Blocks, of 02-storage-lab-blocks-sectors-pages-in-10-minutes: `locate` of 08_offset_to_lba.c, the block
-- device of 09_misaligned_write.c, `is_aligned` and `report` of 10_partition_alignment.c, and the
-- rounding macros of 11_align_io.c, on uint64_t. Blocks/Align.antt and Blocks/Device.antt have
-- the theorems, and Blocks/Run.antt the main function of 09_misaligned_write.c.
-- The reading of /sys/block and of files is left out.
--
-- The file system, Fs, of 03-storage-lab-how-filesystems-work-in-10-minutes: Fs.antt has the tables and
-- the operations of 08_create_file.c with the allocator of 06_alloc_blocks.c, Fs/Paths.antt `dir_find` by
-- length, `fs_make_dir`, `fs_rename` and `fs_resolve` of 09_resolve_path.c, and Fs/Programs.antt the main
-- functions, with that of 04_inode.c. A name is the list of its bytes; the extents are the used
-- entries of the inode's array; `none` is an access outside a table. Paths are followed on
-- fuel, one turn for each byte, and a turn takes a byte or more. Fs/Inv.antt has the invariant;
-- Bitmap, Names, Rows and Table are about the bitmap and the directory table as a finite map, and
-- Create, Unlink, Paths/Rename and Paths/Resolve about the operations, with Reach for any
-- sequence of them. Programs/Bits and
-- Programs/Gather are about the printed bitmap and the loop of 06_alloc_blocks.c.
--
-- The application's cache, Cache, of 08-storage-lab-buffered-vs-direct-io-in-10-minutes/09_app_cache.c, with
-- the device and the memory as arguments, and the write loop, Writes, of
-- 04-storage-lab-read-write-system-calls-in-10-minutes/06_write_all.c, with the system calls as
-- arguments and what they promise as a hypothesis; its fuel is one turn for each byte and each signal.
--
-- Writes/Sent.antt is the loop over any state that keeps a predicate.
--
-- Posix, an interface to the operating system's calls on files: the operations, a view of the bytes of
-- each file and of what may be left after a crash, and the laws that the programs rely on.
-- Posix/Durable.antt has `durable_replace` of 05-storage-lab-linux-page-cache-in-10-minutes/10_durable_replace.c,
-- which keeps the states that it passes through, and Posix/Copies.antt `byte_at_a_time` of
-- 04-storage-lab-read-write-system-calls-in-10-minutes/07_byte_at_a_time.c, `one_call` of 08_one_call.c beside
-- it and `make_cold_file` of 05_cold_file.c; Posix/Mapped.antt has the main function of 08_mmap_cache.c in
-- lab 05. Posix/Tests.antt has a machine that fills the interface.
--
-- Rules, of 10-storage-lab-series-summary-in-3-minutes/03_three_rules.c, with the stream, the clock and
-- `qsort` as interfaces: Rules.antt has the harness, the benchmarks that write, and the reads; Bench,
-- Batch and Tail are about these. The loop of `read_all` runs on fuel, one turn for each byte and one
-- more.
--
-- Latency, of 09-storage-lab-iops-throughput-latency-queue-depth-in-10-minutes/12_percentiles.c: the generator, the
-- modelled samples and the figures of the main function, on whole nanoseconds, with the percentiles 50, 99 and 99.9;
-- Latency/Rank.antt is about the percentile and Latency/Model.antt about the samples and the figures.
--
-- Links, of 03-storage-lab-how-filesystems-work-in-10-minutes/10_hard_links.c: the main function and its helpers over
-- an interface to the operating system's calls, whose laws are in Links/Survive.antt with the
-- theorem; Links/Tests.antt has a directory that fills it.
--
-- Direct, of 06_aligned_blocks.c and 07_buffered_vs_direct.c of
-- 08-storage-lab-buffered-vs-direct-io-in-10-minutes: the temporary files and both main functions, with the system calls
-- as an interface. Direct/Held.antt counts the open descriptors and the buffers; Released and Compared follow
-- the two main functions, and Direct/Flag.antt has that of 05_open_direct.c beside them;
-- Direct/Reads.antt has the random reads of 11_random_read.c in lab 09, over the same calls.
--
-- Topics, the queue of 01-storage-lab-hdd-ssd-nvme-in-5-minutes/07_while_alive.c; Topics/Fifo.antt has its
-- theorems. Topics/Linear.antt has the queues that never turn round, of
-- 06-storage-lab-inside-an-ssd-nand-ftl-in-10-minutes/14_while_alive.c and
-- 08-storage-lab-buffered-vs-direct-io-in-10-minutes/13_while_alive.c.
-- Topics/Rings.antt, Topics/Disk.antt, Topics/Directory.antt and Topics/Doorbell.antt have the other closing
-- slides, 13_while_alive.c, 14_while_alive.c and 05_while_alive.c of labs 02 to 05, 07, 09 and 10.
--
-- Base has the shared names and the lemmas on lists, sums and ring windows. The runs of all main
-- functions and the examples of the theorems are in the Tests module of each part.
--
-- Not modelled: the C++ twins of the programs; the other programs that time or show the operating system's
-- calls (labs 04 and 05); the other figures of
-- labs 01 and 09, which are in floating point; and the layout of 04_submission_entry.c in lab 07.
pub mod Base
pub mod Ftl
pub mod Nvme
pub mod Uring
pub mod Poll
pub mod Blocks
pub mod Topics
pub mod Fs
pub mod Cache
pub mod Writes
pub mod Posix
pub mod Rules
pub mod Latency
pub mod Links
pub mod Direct
