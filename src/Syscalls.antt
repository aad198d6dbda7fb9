-- ===== src/Syscalls.antt =====
-- kernel_files: the system calls that the project adds to the kernel, `sys_getTime` and `sys_printk`
-- of getTime.c, and `my_syscall_0` and `my_syscall_1` of my_syscall.c. They work on the memory of the
-- calling process, whose pointers they follow without a test.
pub mod Bytes
mod Tests
pub mod Laws
use os_project.Prelude.{ℕ, List, ℤ, pos}
use os_project.Syscalls.Bytes.{Memory, store_long}

-- `struct timespec`, as `getnstimeofday` fills it in.
pub record Timespec : Type 0 where
  pub tv_sec : ℕ
  pub tv_nsec : ℕ

-- The memory of the caller, and the lines of the kernel's log, the newest first.
pub record Machine : Type 0 where
  pub memory : Memory
  pub log : List (List ℕ)

-- `int sys_getTime(struct timespec *t)`, where `getnstimeofday` is the kernel's function, of the
-- pointer. Each call answers with its result.
pub sys_get_time : (ℕ → Machine → Machine) → ℕ → Machine → ℤ × Machine
sys_get_time getnstimeofday t k = (pos 0, getnstimeofday t k)

-- `now` is the time that `getnstimeofday` finds.
pub my_syscall_0 : Timespec → ℕ → ℕ → Machine → ℤ × Machine
my_syscall_0 now a b k =
    (pos 0, record k { memory = store_long (store_long k.memory a now.tv_sec) b now.tv_nsec })

-- `printk` is what the kernel's function of that name does with the format `"%s\n"` and the pointer.
pub sys_printk : (ℕ → Machine → Machine) → ℕ → Machine → ℤ × Machine
sys_printk printk input k = (pos 0, printk input k)

pub my_syscall_1 : (ℕ → Machine → Machine) → ℕ → Machine → ℤ × Machine
my_syscall_1 printk a k = (pos 0, printk a k)
