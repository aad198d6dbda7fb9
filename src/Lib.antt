-- ===== src/Lib.antt =====
-- os_project: a program that reads a table of processes and runs them under one of four CPU
-- scheduling policies, in user space: the scheduler forks a child for each process when its time
-- comes, and steers the children by `sched_setscheduler`, on its own count of units of time.
--
-- The parts of the program and their modules:
--   Process   `struct process` (PSJF.h), the table, and the loop that selects the first of the
--             least entries, which FIFO.c and SJF.c both write out. Process/Jobs, Work, Waiting and
--             Workload view a table as jobs that arrive and have units of time left; Process/Sorting
--             says what is relied on of `qsort`. Process/Makespan is the time at which a scheduler is
--             through that does not idle while a job waits, and Process/Awake the part of a table that
--             decides who is awake.
--   Os        the system calls and the lines that are printed, as a trace of calls with the newest
--             first. A function reads the trace and answers with an `Outcome`: it returns, the
--             process exits, an `int` overflows, or a loop never ends. The kernel's answers are a
--             parameter, `Kernel`, and may depend on all the calls made before. Os/Triple has the
--             rules of total correctness, Os/Keeps those of partial correctness, which hold whatever
--             the kernel answers, Os/Loop the loops `while (1)`, Os/Waits those that wait for a
--             time and then exit, and Os/Awake reads a policy of `sched_setscheduler` off a trace.
--   Cpu       `proc_assign_cpu` of PSJF.c, which SJF.c and RR.c call as well.
--   Fifo      FIFO.c; Fifo/Control has its functions that steer a process.
--   Sjf       SJF.c.
--   Rr        RR.c and the macros of RR.h; Rr/Control has its functions that steer a process.
--   Psjf      PSJF.c; Psjf/Priorities looks at a single step of it.
--   Main      main.c: Main/Input is what it uses of `fscanf`, Main/Input/Layout the layout of an
--             input file, Main/Policies puts the reader and the schedulers together, and Main/Agree
--             compares the schedulers with each other.
--   Syscalls  kernel_files/getTime.c and kernel_files/my_syscall.c, on the bytes of a memory; Linux's
--             getnstimeofday and printk, which they call, are parameters.
-- Each scheduler has a record `State` of its globals and table, one function for each step of its
-- loop (arrivals, the choice of the next process, the switch, the passing of a unit of time, the
-- end of a process), a specification of its policy on jobs that does not mention the code
-- (Fifo/Schedule, Sjf/Plan, Rr/Turns, Psjf/Timeline), and a theorem of refinement in its Order. Its
-- other modules look at a scheduler from one side: Makespan at the time of its end, Awake at who holds
-- the policy by which it lets a process run, Unique at what the kernel does not decide, Refused at a
-- processor that the kernel refuses, Lost at FIFO and RR where fork fails or the table has no entry,
-- with what both cases share in Idle, Empty at SJF on a table without entries, First at the first
-- arrival, at which SJF and PSJF end in a child and where fork fails, and Reaped at SJF's waits.
--
-- A loop runs on fuel, one for each round, and the theorems of refinement prove that it ends by
-- itself: one unit of fuel more than the last arrival and all the work together is enough (for FIFO,
-- more than the last time of its schedule).
--
-- An `int` is an integer, and arithmetic on it is checked: where C leaves an overflow undefined the
-- outcome is `overflowed`, and the theorems have as hypotheses that the times fit. Only the
-- differences in the two comparators of `qsort` that subtract wrap around. An index that is -1 is
-- `none`. `proc[-1]`, which FIFO.c and RR.c read, is the parameter `stray`. A name is the bytes in
-- front of its terminating zero.
--
-- `qsort` is a parameter: any function that permutes the table and sorts it by the comparator.
--
-- A text that `fscanf` does not read leaves variables that were never written, or writes past the end
-- of an array; what the program does with it is the parameter `undefined_run`, and the bytes that
-- `malloc` hands out are the parameter `memory`.
--
-- Not modelled: the time that the busy loops really take, and so what the children do while the
-- scheduler counts; the code under DEBUG; the two tables of kernel_files, which are Linux's with the
-- new system calls added. The schedulers do not make the new system calls: each use is commented out.
pub mod Prelude
pub mod Os
pub mod Process
mod Samples
pub mod Cpu
pub mod Fifo
pub mod Sjf
pub mod Rr
pub mod Psjf
pub mod Main
pub mod Syscalls
