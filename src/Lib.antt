-- ===== src/Lib.antt =====
-- The kernel of limeOS, an operating system in C for one 32-bit PC, modelled from student-distrib/: what
-- its parts do to the kernel's state, and theorems that they do it right.
--
-- The parts and their files:
-- - Prelude: Boolean tests on numbers, 32-bit words, C arrays as updated functions, counted loops.
-- - Filesystem: student-distrib/filesystem.c. The image is a function from addresses to bytes; `Fs` adds
--   its start. read_dentry_by_name, read_data and the others are functions under their own names, and the
--   results on them stand in Names (lookup), Contents (bytes) and Listing (the directory).
-- - Console: the screen of student-distrib/lib.c and student-distrib/terminal.c: putc, scroll_screen,
--   backspace_pressed, terminal_write, memcpy, terminal_switch. `Console` holds memory and the three cursors.
-- - Keyboard: student-distrib/keyboard.c. A scancode goes through keyboard_output_dealer to a line buffer and
--   to terminal_write; Enter hands the line over to terminal_read.
-- - Strings: the string functions, itoa and printf of student-distrib/lib.c. A string is the list of its
--   bytes before the final 0.
-- - Pic, Rtc: student-distrib/i8259.c and student-distrib/rtc.c, as the bytes that they send to ports.
-- - Process: the control blocks (pcb_t), the jump tables and setup_PCB; `Kernel` is the state that the system
--   calls and the scheduler share.
-- - Syscall: open, read, write, close, getargs, vidmap of student-distrib/system_call.c. A call through
--   `operations_pointer` is a match on the function that it points to, and a jump to none of its kind is
--   the reply `fault`. Trace has the calls of a process as a relation.
-- - Execute: execute, halt and halt_256: Parse is the parsing loop, whose writes past the end of a buffer are
--   `none`; Load, Return, Closing and Halting have the results. A program that does not fit its page ends in
--   `overflows`, and the page fault that follows is not modelled.
-- - Sched: task_switch of student-distrib/sched.c and student-distrib/pit.c. Rotation has the switches among three
--   shells; Boot follows the calls of execute that start them, and Rounds has the first four interrupts.
-- - Paging: init_paging of student-distrib/paging.c; Walk has the processor's walk through the tables.
-- - Memory: memset, memset_word, memset_dword and memmove of student-distrib/lib.c.
-- - Idt: init_idt of student-distrib/idt.c with the gates of student-distrib/x86_desc.h, and the handlers of
--   student-distrib/idt.h. Gates has the table as the processor reads it, Faults a program that raises an
--   exception. The addresses of the handlers are a parameter.
-- - Startup: entry of student-distrib/kernel.c, from the boot loader's call to its last loop. What the loader
--   leaves is read from memory; the linker's addresses and the keyboard's answers are a parameter, `Boot`.
-- - User: the system calls of syscalls/ece391syscall.S and the functions of syscalls/ece391support.c, as actions
--   on the kernel's state, with a logic for what a program ensures. Syserr has syscalls/ece391syserr.c, Cat has
--   syscalls/ece391cat.c and syscalls/ece391ls.c, Shell has syscalls/ece391shell.c, and Counter has
--   syscalls/ece391counter.c. What the rest of the system does while a program waits, and what a program does that
--   a program executes, is a parameter, `World`.
-- - Samples: small states for the tests, which stand in a module Tests of each part.
--
-- Numbers: a 32-bit word is a natural number below 2 ^ 32, wrapped with `u32`; an int is its bit pattern,
-- compared with `lt_signed`. Loops are recursion on the number of rounds left. The loop that loads a
-- program has length / 4 + 2 rounds, four bytes each and one more that reads nothing, which is
-- enough since a round reads four bytes; the loop of read_data over blocks has one more than the offset,
-- of which it takes 4096 a round.
--
-- A call that sleeps is split where it sleeps: terminal_read into begin_terminal_read and
-- finish_terminal_read, read_RTC into begin_read_rtc and read_rtc_ready.
--
-- The loops of cat, ls and the shell have a round for each 1024 bytes, each entry and each command; those of cat and ls
-- have one more, which reads nothing.
--
-- The loop of entry over the memory map has mmap_length / 4 + 2 rounds: an entry takes four bytes at least.
--
-- Not modelled: boot.S and launch_tests, which runs no test; how the assembly wrappers keep the registers, the
-- flush of the TLB and the instruction iret; the kernel's own tests, fish, and the emulation of the system calls
-- for Linux; the user programs but those named above.
pub mod Prelude
pub mod Filesystem
pub mod Console
pub mod Pic
pub mod Keyboard
pub mod Memory
pub mod Rtc
pub mod Strings
pub mod Process
pub mod Syscall
pub mod Sched
pub mod Execute
pub mod Paging
pub mod Idt
pub mod Startup
pub mod User
pub mod Samples
