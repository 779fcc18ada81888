-- ===== src/Lib.antt =====
-- almorinaOS, a small 64-bit kernel: a verification library of its C code (src/c-code,
-- src/include) and of the task switch in src/assembly/task.asm.
--
-- The program's parts and the files that model them:
--   Heap      src/c-code/heap.c: initialize_heap, split, malloc, merge, free. The headers of the
--             segments stand in a store by address (Heap.cell); Heap.Blocks is the abstract heap,
--             a list of blocks, and Heap.Invariant joins the two.
--   Cstring   src/c-code/string.c over a memory of bytes.
--   Vga       src/c-code/vga.c: cells, cursor and the bytes sent to the ports.
--   Stdio     src/c-code/stdio.c: putc, scroll, cls, puts, puth, putd, putf, printf on that
--             screen.
--   Keyboard  src/c-code/keyboard.c: the handler of a scancode, which prints by Stdio; Keyboard.Line
--             is fgets of src/c-code/stdio.c, which takes the keys.
--   Bitset    src/include/bitset.h, the macros over that memory.
--   Fs        src/c-code/fs.c: the RAM file system's layout, inodes and blocks; it asks Heap for
--             memory, marks what is taken in bit sets and clears blocks by memset. Fs.Contents is
--             what files hold, Fs.Directory the entries of directories, Fs.Walk the paths.
--   Scheduler src/c-code/scheduler.c and switch_to_task: the task array, the ready list, the nested
--             locks, creation, termination and the timer's pass over the tasks. Scheduler.RoundRobin
--             is the queue of tasks that the ready list stands for, and RoundRobin.Runs the states
--             that switches, new tasks, and tasks that block or end lead to.
--   Shell     src/c-code/shell.c: what works on text (strip_spaces, is_exp, shell_parse),
--             Shell.Combine and Shell.Execute for shell_combine_strings and shell_execute,
--             Shell.Variables for the list of variables, Shell.Files for the commands on files,
--             which use Fs, Shell.Edit for edit and cat, Shell.Evaluate for
--             shell_eval_math_exp, and Shell.Output for the commands that print.
--             Shell.Main is a round of shell_main: from the keys, by Keyboard, to the command.
--   Mmap      src/c-code/mmap.c: the memory map in the boot information, and
--             initialize_memory of heap.c, which starts Heap on it.
--   Locks     src/c-code/locks.c: the creation of semaphores, from Heap.
--   Kernel    src/c-code/kernel.c: prepare_interrupts, which uses Interrupts.
--   Interrupts src/c-code/idt.c, interrupts.c and pit.c: gates, the set-up of the interrupt
--             controllers and the timer's divisor, as accesses to ports; Interrupts.Timer is the
--             timer's counter, with the arithmetic of double as a parameter, and
--             Interrupts.Handlers joins the parts: a tick of the timer reaches Scheduler, a key
--             Keyboard.
--
-- An operation has the name that it has in the source. State is passed and returned: a function
-- that writes memory or a global returns the new one. A pointer is an address, or an index of
-- pcbArray; null is 0 there and none here. Machine integers are natural numbers with the wrap-around
-- written out (Prelude.Words). Prelude holds the shared helpers.
--
-- Loops over a list or a string take fuel, and the result none means that it ran out; a theorem that
-- a loop ends says how much is enough: more than the number of blocks, of characters or of tasks on
-- the list. Loops with a counter recur on the rounds that are left. A null dereference in Scheduler,
-- a table read out of range in Keyboard, a store behind the ten entries of mmap, and the return of
-- switch_to_task to a word that it has pushed, where tasks are postponed, are also none. What a
-- caller does behind a switch of tasks stands right behind it; on the machine it is done when the task
-- is resumed. The headers of the heap stand apart from the bytes of memory; where the code writes a byte
-- behind what malloc gave it, Shell.Variables clears the low byte of the size in a header there.
--
-- A float or double is its pattern, and what the processor computes of such patterns is a parameter
-- (Shell.Evaluate.Floats, Stdio.Putf.Singles, Cstring.Atof.Decimals, Interrupts.Timer.Doubles).
--
-- Not modelled: the boot code, the test process of scheduler.c, print_segs of heap.c, pwd and the title of
-- the shell, and that the loop of shell_main is endless.
pub mod Prelude
pub mod Heap
pub mod Cstring
pub mod Vga
pub mod Stdio
pub mod Locks
pub mod Mmap
pub mod Kernel
pub mod Keyboard
pub mod Bitset
pub mod Fs
pub mod Scheduler
pub mod Shell
pub mod Interrupts
