-- ===== src/Syscalls/Tests.antt =====
-- The system calls at an empty memory.
use os_project.Prelude.{[], inl, arith}
use os_project.Syscalls.{Timespec, Machine, my_syscall_0}
use os_project.Syscalls.Laws.{TimeAt, my_syscall_0-TimeAt}

abbrev empty : Machine
empty = record { memory = λ a. 0; log = [] }

abbrev noon : Timespec
noon = record { tv_sec = 1553781770; tv_nsec = 184455567 }

my_syscall_0-TimeAt_example : TimeAt noon 64 128 empty (my_syscall_0 noon 64 128 empty).1
my_syscall_0-TimeAt_example =
    my_syscall_0-TimeAt noon 64 128 empty (omega arith) (omega arith) (inl (omega arith))
