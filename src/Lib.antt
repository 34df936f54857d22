-- ===== src/Lib.antt =====
-- A small teaching kernel for 32-bit x86: its memory allocator, queues, process table, scheduler, clock
-- interrupt, console, serial driver and system calls, as commands on explicit state.
--
-- Base is shared: lists and tests on native numbers, the `Cmd` monad (a run returns, or stops by a
-- panic, by a fault, or because the model's fuel ended), and linked lists in memory (Base.Chain).
-- `Returns` is total correctness: the run returns, and its result and state satisfy a predicate.
--
-- Kmem is kernel/kmem.c. `Km` holds its globals, and the two fields of the `blkinfo_t` at each address.
-- Pages: add_block, km_page_alloc, km_page_free, km_page_free_multi. Slices: carve_slices,
-- km_slice_alloc, km_slice_free. Init: km_init. The traversals of the free list go by `seek`, whose
-- fuel is `n_pages + 1`, because each free block has a page or more. Pool is the invariant of the free
-- list: its blocks are ascending and apart, and `n_pages` counts their pages.
--
-- Queues is kernel/queues.c. `Que` holds the array of queues, the fields of each qnode, and the page
-- allocator, from which Qnodes takes a page when no qnode is free. Ops: que_insert, que_peek, que_remove,
-- que_remove_by; each traversal has the queue's count and one round more as its fuel. Table: que_init,
-- que_alloc, que_free, que_length. Model relates a state to its view: the sequence of entries of each
-- queue, its ordering function, and the number of free qnodes; every address has one owner, so that a
-- change of one queue cannot reach another.
--
-- Stacks is kernel/stacks.c with dynamic allocation: stk_init, stk_alloc, stk_free. LinkList is
-- kernel/list.c.
--
-- Procs is kernel/procs.c. `Os` holds its globals with the state of the modules that it calls. A
-- `pcb_t *` is 0 for NULL and `ix + 1` for `&ptable[ix]`; a `queue_t` is numbered the same way. Table:
-- the scans of the table, pcb_init, pcb_zombify, pcb_cleanup. Sched: schedule, dispatch. `Kernel` relates
-- a state to the view of its queues, with the handles that pcb_init stores.
--
-- Clock is kernel/clock.c: clk_isr and clk_init. The wake-up loop has the length of the sleep queue and
-- one round more as its fuel, because each round but the last takes an entry out of it. Switch is what
-- dispatch does when a process is waiting, for every caller of it.
--
-- Sio is kernel/sio.c. Each of its two buffers is a function of the position, with the positions of its
-- pointers; `written` lists the bytes that the driver wrote to the UART, with their ports. Line is the
-- view of the output: what was transmitted, and then what waits. Interrupt is sio_isr, which takes the
-- UART's events as an argument.
--
-- Console is kernel/cio.c: the video memory as a function of its cells, the cursor, the scroll region, and the
-- copy of the output that goes to Sio. Keyboard is the keyboard's part of the file, and takes the scan
-- codes as an argument. Printf is cio_printf and cio_printf_at. The options are those of the Makefile:
-- VIDEO_BW and CIO_DUP2_SIO are defined.
--
-- Machine is the state that the system calls and the interrupts share: the clock's state, the console
-- and the serial line, a memory of bytes that holds the saved contexts, and the keys not yet read. A
-- system call reads its arguments from the user's stack in that memory, at the offsets of context_t.
--
-- Syscalls is kernel/syscalls.c: a handler for each call, the table of them, sys_isr. Fork has sys_fork,
-- sys_exec and kernel/stacks.c's stk_setup. The fuel of reparenting is the number of processes and one
-- more, since each round but the last gives a child away; strlen has the stack's size, and the walk
-- along frame pointers has a round for each word of the stack. Dispatched is the interrupt with its handlers.
--
-- Text is part of lib/. Memory: memset, memclr, memcpy, memmove over a memory of bytes. Decimal: cvtdec,
-- cvtuns and str2int, with strings as lists of characters; ten calls of cvtdec0 are enough for 32 bits.
-- Words: 32-bit words in that memory, blkmov and strlen. Radix: cvthex and cvtoct. Strings: strcpy,
-- strcat and strcmp, with the number of characters that are looked at. Format: sprint, pad and padstr;
-- the format string is read a character at a time into its items, for sprint and for do_printf, and a
-- string argument is looked at for 65536 characters, since no process has a stack as long as that.
--
-- Modules see memory through the fields of their own structures only: what one module's structures
-- hold is not read by another while they own the memory. Integers have their 32-bit wrap-around written
-- out. Left out are tracing, the dump functions and the messages that the modules print, the device
-- registers but for the bytes that they carry, the assembly files, the start of the kernel, and the user
-- programs. sio_flush leaves out that the receiver's FIFO is discarded, and a negative length acts as 0.
pub mod Base
pub mod Kmem
pub mod Queues
pub mod Stacks
pub mod LinkList
pub mod Procs
pub mod Clock
pub mod Text
pub mod Sio
pub mod Console
pub mod Machine
pub mod Syscalls
pub mod Tests
