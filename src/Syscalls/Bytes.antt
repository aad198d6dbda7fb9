-- ===== src/Syscalls/Bytes.antt =====
-- The memory of a process: a byte at each address, and words of 64 bits in the order of x86, the
-- least byte first.
use native.Mathlib.Nat.{pow-suc}
use os_project.Prelude.{
  ℕ, zero, suc, ◌+◌, ◌*◌, ◌%◌, ◌^◌, ◌≤◌, ◌<◌, ◌≡◌, ◌⊎◌, inl, inr, refl, ◌∙◌, ◌==◌, if◌then◌else◌,
  arith,
}
use Prim.Native.Nat.{◌/◌}

abbrev pub Memory : Type 0
Memory = ℕ → ℕ

abbrev pub poke : Memory → ℕ → ℕ → Memory
poke m a v x = if x == a then v else m x

-- The `n` lowest bytes of `v`, from the address `a` on.
pub store_bytes : ℕ → Memory → ℕ → ℕ → Memory
store_bytes zero m a v = m
store_bytes (suc n) m a v = store_bytes n (poke m a (v % 256)) (a + 1) (v / 256)

pub load_bytes : ℕ → Memory → ℕ → ℕ
load_bytes zero m a = 0
load_bytes (suc n) m a = m a + 256 * load_bytes n m (a + 1)

-- An `unsigned long`.
unfoldable pub store_long : Memory → ℕ → ℕ → Memory
unfolding store_bytes
store_long m a v = store_bytes 8 m a v

unfoldable pub load_long : Memory → ℕ → ℕ
unfolding load_bytes
load_long m a = load_bytes 8 m a

-- An address in front of the bytes or behind them keeps its byte.
pub store_bytes-apart :
    (n : ℕ) (m : Memory) (a v x : ℕ) → (x < a) ⊎ (a + n ≤ x) → store_bytes n m a v x ≡ m x
unfolding store_bytes
store_bytes-apart zero m a v x h = refl
store_bytes-apart (suc n) m a v x h =
    store_bytes-apart n (poke m a (v % 256)) (a + 1) (v / 256) x (beyond h) ∙ ground (arith, h)
  where
    beyond : (x < a) ⊎ (a + suc n ≤ x) → (x < a + 1) ⊎ (a + 1 + n ≤ x)
    beyond (inl before) = inl (omega arith)
    beyond (inr behind) = inr (omega arith)

-- Memories that agree from `a` on for `n` bytes hold the same there.
pub load_bytes-same :
    (n : ℕ) (m m' : Memory) (a : ℕ)
    → ((x : ℕ) → a ≤ x → x < a + n → m x ≡ m' x)
    → load_bytes n m a ≡ load_bytes n m' a
unfolding load_bytes
load_bytes-same zero m m' a h = refl
load_bytes-same (suc n) m m' a h = omega (
  arith,
  h a (omega arith) (omega arith),
  load_bytes-same n m m' (a + 1) (λ x lo hi. h x (omega arith) (omega arith)),
)

pub load_bytes-store_bytes :
    (n : ℕ) (m : Memory) (a v : ℕ) → v < 256 ^ n → load_bytes n (store_bytes n m a v) a ≡ v
unfolding load_bytes store_bytes
load_bytes-store_bytes zero m a v h = omega arith
load_bytes-store_bytes (suc n) m a v h =
    let lower : store_bytes n (poke m a (v % 256)) (a + 1) (v / 256) a ≡ v % 256 =
      store_bytes-apart n (poke m a (v % 256)) (a + 1) (v / 256) a (inl (omega arith))
      ∙ ground arith in
    let upper : load_bytes n (store_bytes n (poke m a (v % 256)) (a + 1) (v / 256)) (a + 1)
        ≡ v / 256 =
      load_bytes-store_bytes n (poke m a (v % 256)) (a + 1) (v / 256)
        (omega (arith, pow-suc 256 n)) in
    omega (arith, lower, upper)

-- What was stored can be loaded again.
pub load_long-store_long : (m : Memory) (a v : ℕ) → v < 2 ^ 64 → load_long (store_long m a v) a ≡ v
unfolding load_long store_long
load_long-store_long m a v h = load_bytes-store_bytes 8 m a v h

-- A store elsewhere changes nothing.
pub load_long-apart :
    (m : Memory) (a b v : ℕ)
    → (a + 8 ≤ b) ⊎ (b + 8 ≤ a)
    → load_long (store_long m b v) a ≡ load_long m a
unfolding load_long store_long
load_long-apart m a b v h =
    load_bytes-same 8 (store_bytes 8 m b v) m a
      (λ x lo hi. store_bytes-apart 8 m b v x (ground (arith, h)))
