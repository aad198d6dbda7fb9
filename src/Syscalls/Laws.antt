-- ===== src/Syscalls/Laws.antt =====
-- What my_syscall_0 does to the memory of the caller.
use os_project.Prelude.{ℕ, ◌+◌, ◌≤◌, ◌<◌, ◌^◌, ◌≡◌, ◌⊎◌, refl, ◌∙◌}
use os_project.Syscalls.Bytes.{
  Memory, store_long, load_long, store_bytes-apart, load_long-store_long, load_long-apart,
}
use os_project.Syscalls.{Timespec, Machine, my_syscall_0}

-- The two words at `a` and `b` do not overlap.
abbrev pub Apart : ℕ → ℕ → Type 0
Apart a b = (a + 8 ≤ b) ⊎ (b + 8 ≤ a)

-- The word at `a` does not hold the address `x`.
abbrev pub Outside : ℕ → ℕ → Type 0
Outside x a = (x < a) ⊎ (a + 8 ≤ x)

store_long-Outside : (m : Memory) (a v x : ℕ) → Outside x a → store_long m a v x ≡ m x
unfolding store_long
store_long-Outside m a v x h = store_bytes-apart 8 m a v x h

-- What the caller of `k` finds in `k'` when the time is in the words at `a` and `b`.
pub record TimeAt (now : Timespec) (a b : ℕ) (k k' : Machine) : Type 0 where
  pub sec : load_long k'.memory a ≡ now.tv_sec
  pub nsec : load_long k'.memory b ≡ now.tv_nsec
  pub others : (x : ℕ) → Outside x a → Outside x b → k'.memory x ≡ k.memory x
  pub log_kept : k'.log ≡ k.log

module _ (now : Timespec) (a b : ℕ) (k : Machine) (seconds : now.tv_sec < 2 ^ 64)
    (nanoseconds : now.tv_nsec < 2 ^ 64) where
  -- Where the seconds and the nanoseconds fit in 64 bits, and the two longs do not overlap,
  -- my_syscall_0 stores the seconds at the first pointer and the nanoseconds at the second, and
  -- leaves the rest of the memory and the log.
  pub my_syscall_0-TimeAt : Apart a b → TimeAt now a b k (my_syscall_0 now a b k).1
  unfolding my_syscall_0
  my_syscall_0-TimeAt apart = record {
    sec =
        load_long-apart (store_long k.memory a now.tv_sec) a b now.tv_nsec apart
        ∙ load_long-store_long k.memory a now.tv_sec seconds;
    nsec = load_long-store_long (store_long k.memory a now.tv_sec) b now.tv_nsec nanoseconds;
    others = λ x out_a out_b.
        store_long-Outside (store_long k.memory a now.tv_sec) b now.tv_nsec x out_b
        ∙ store_long-Outside k.memory a now.tv_sec x out_a;
    log_kept = refl;
  }
