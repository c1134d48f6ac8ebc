-- ===== src/Lib.antt =====
-- A model of the kernel in src/kern, a small RISC-V operating system: its parts as functions on
-- explicit states, and the theorems about them.
--
-- Parts. Prelude and Errno are shared. A C function that returns a count or a negative error number
-- returns a `Reply`; machine words are natural numbers with their wrap-around written out; a null
-- pointer is `none`. Where a function can panic, go to sleep or run on without end, its result is
-- an option, and the comment above it says what `none` stands for.
-- * String models src/kern/string.c: comparison and copies of strings and memory, the digits of
--   format_int, and the output of vsnprintf through vsnprintf_putc.
-- * Io models the interface of src/kern/io.h, `struct io_ops`, as a record of functions on the
--   state of an object, and iowrite, ioread_full, ioputc and ioputs of src/kern/io.c over it.
--   Io/Laws says what an object over a block of bytes promises; Io/Lit is `struct io_lit`, and
--   Io/Lit/Contract compares the two; Io/Term is `struct io_term`, with its two directions in
--   Io/Term/Input and Io/Term/Output.
-- * Kfs models src/kern/kfs.c over any I/O object: its tables and the calls that mount, open, close
--   and control in Kfs, fs_read and fs_write in Kfs/Transfer. Kfs/Image describes where the bytes
--   of a file stand; Kfs/Read relates fs_read to it; Kfs/Bounds and Kfs/Reached follow any sequence
--   of calls; Kfs/Descriptors is about the table of descriptors.
-- * Uart models src/kern/uart.c: ring buffers (Uart/Ring), and the calls and the interrupt service
--   routine over them (Uart/Transfer). The device registers are arguments and results.
-- * Timer models src/kern/timer.c: the list of alarms (Timer/Insert), and the interrupt that wakes
--   them and arms the comparator (Timer/Wake). The clock is an argument.
-- * Thread models the linked thread lists of src/kern/thread.c; Thread/Chains says what it means
--   that links hold a list, and Thread/Lists that the operations do what their names say.
-- * Sched models the table of threads of src/kern/thread.c with the ready list, the list of each
--   condition and the running thread, and the sleep lock of src/kern/lock.h. Sched/Queues is the
--   invariant; Sched/Switch is suspend_self, Sched/Wakeup condition_wait, Sched/Broadcast and
--   Sched/Marks condition_broadcast, Sched/Spawn new threads, Sched/Exits the end of a thread and Sched/Joins thread_join;
--   Sched/Room bounds the lists by the table. Sched/Steps follows any sequence of calls,
--   Sched/Turns is about the order in which threads run, and Sched/Locks about the lock.
-- * Device models src/kern/device.c; Device/Registry relates registering and opening.
-- * Memory models the page allocator and the three-level page tables of src/kern/memory.c:
--   Memory/Pages is about allocation and the walk, Memory/Validate about the check of a range.
--   Memory/Map has the calls that map and unmap. Memory/Map/Lookup reads the tables as a map from
--   pages to entries, with addresses in Memory/Map/Address; Memory/Map/Space says what the pages of
--   a space are for, which keeps its tables apart; Memory/Map/Entries and Memory/Map/Levels change
--   an entry. Memory/Map/Create, Memory/Map/Place and Memory/Map/Insert are the levels of a walk
--   that may map a page, Memory/Map/Rounds and Memory/Map/Ranges ranges of pages, Memory/Map/Cut
--   and Memory/Map/Remove unmapping, Memory/Map/Faults page faults, and Memory/Map/Release and
--   Memory/Map/Reclaim the end of a space.
-- * Elf models elf_load of src/kern/elf.c over an I/O object and the page tables: Elf/Headers is
--   about the files and segments that it takes, Elf/Segments about what a segment maps and stores. The
--   stores at the program's addresses are a list; one to a page that is not mapped is a panic.
-- * Plic models the interrupt controller of src/kern/plic.c, its registers as words at addresses;
--   Plic/Bits is about the bits of a word, Plic/Sources about the sources, and Plic/Start about
--   plic_init. Intr models src/kern/intr.c over it, the table of handlers and the dispatch, and
--   Intr/Dispatch what comes of registering a handler.
-- * Process models the tables of open objects of src/kern/process.c and src/kern/syscall.c, with
--   the reference counts of src/kern/io.h. process_exit closes the objects of a table and leaves its
--   entries in place; the table is then that of no process. Process/Counts counts the entries, Process/Sound follows
--   any sequence of calls, and Process/Calls reads, writes and controls an open object.
-- * Vioblk models the block device driver of src/kern/vioblk.c over the device as a parameter.
--   Vioblk/Coherent says what a device that works does and what the block buffer holds;
--   Vioblk/Reads is vioblk_read and the driver as an object of Io, Vioblk/Rounds, Vioblk/Writes and
--   Vioblk/Stale are vioblk_write, Vioblk/Splices is about writes into lists, Vioblk/Roundtrip
--   about a read behind a write, Vioblk/Files puts the file system on the driver, and
--   Vioblk/Interrupt is its interrupt.
-- * Heap models kmalloc and kcalloc of src/kern/ezheap.c; Heap/Blocks is about the blocks that it returns.
-- * Tests runs the functions and the theorems on concrete inputs.
--
-- The file system reads and writes through the interface in Io, which the block device driver
-- fills, the device manager compares names with String, and memory blocks copy with it.
--
-- Fuel. The loops of iowrite, ioread_full, fs_read, fs_write and ioterm_write run on one round more
-- than there are bytes, each round moving at least one byte; those of vioblk_read and vioblk_write
-- on as many rounds as there are bytes; the check of a range of memory runs on one round more than
-- there are pages, and so does the mapping of a range; ioterm_read on two rounds where its object
-- is live; the digits of format_int on as many as its buffer has bytes, more
-- than a 64-bit value has digits. A broadcast walks at most 17 links, one more than the table has threads.
--
-- Concurrency. The kernel takes no processor from a thread that runs in it, so that a call runs up
-- to its first sleep, and other threads run there. In Sched, `current` is the thread that runs
-- behind a switch, and the rest of the call that slept is a function of its own. A call of a driver
-- is modelled from the return of its lock_acquire on; a sleep ends the modelled part of uart_read
-- and uart_write, whose rounds are functions of their own. Broadcasts by interrupts are steps like
-- others.
--
-- Not modelled. Assembly, the registers of other devices than the interrupt controller, start-up code
-- and the earlier kernels in src/cp1_kern and src/cp2_kern; the context switch, the virtio queue,
-- memory_space_clone, the other system calls, the exceptions, the console and src/util/mkfs.c.
pub mod Plic
pub mod Prelude
pub mod Kfs
pub mod Uart
pub mod Vioblk
pub mod Device
pub mod Elf
pub mod Errno
pub mod Intr
pub mod Io
pub mod Timer
pub mod String
pub mod Thread
pub mod Memory
pub mod Tests
pub mod Heap
pub mod Process
pub mod Sched
