-- ===== src/Vm/Memory.antt =====
-- What a store leaves for the loads after it.
use lms2012_compat.Prelude.{ℕ, zero, suc, ◌+◌, ◌*◌, ◌/◌, ◌%◌, ◌≤◌, ◌<◌, ◌≡◌, refl, arith}
use lms2012_compat.Words.{Width, data8, data16, data32, size, modulus}
use lms2012_compat.Vm.{load_bytes, store_bytes, write_byte}

pub store_bytes_below : (n : ℕ) (m : ℕ → ℕ) (a v x : ℕ) → x < a → store_bytes n m a v x ≡ m x
unfolding store_bytes
store_bytes_below zero m a v x h = refl
store_bytes_below (suc n) m a v x h =
    ground (arith, store_bytes_below n (write_byte m a (v % 256)) (a + 1) (v / 256) x)

pub store_bytes_above : (n : ℕ) (m : ℕ → ℕ) (a v x : ℕ) → a + n ≤ x → store_bytes n m a v x ≡ m x
unfolding store_bytes
store_bytes_above zero m a v x h = refl
store_bytes_above (suc n) m a v x h =
    ground (arith, store_bytes_above n (write_byte m a (v % 256)) (a + 1) (v / 256) x)

-- The low `n` bytes of a value.
abbrev low_bytes : ℕ → ℕ → ℕ
low_bytes zero v = 0
low_bytes (suc n) v = v % 256 + 256 * low_bytes n (v / 256)

low_bytes-store_bytes :
    (n : ℕ) (m : ℕ → ℕ) (a v : ℕ) → load_bytes n (store_bytes n m a v) a ≡ low_bytes n v
unfolding load_bytes store_bytes
low_bytes-store_bytes zero m a v = refl
low_bytes-store_bytes (suc n) m a v = ground (
  arith,
  store_bytes_below n (write_byte m a (v % 256)) (a + 1) (v / 256) a,
  low_bytes-store_bytes n (write_byte m a (v % 256)) (a + 1) (v / 256),
)

-- A value that was stored is read back, cut to its width.
pub load_bytes-store_bytes :
    (w : Width) (m : ℕ → ℕ) (a v : ℕ)
    → load_bytes (size w) (store_bytes (size w) m a v) a ≡ v % modulus w
load_bytes-store_bytes data8 m a v = omega (arith, low_bytes-store_bytes 1 m a v)
load_bytes-store_bytes data16 m a v = omega (arith, low_bytes-store_bytes 2 m a v)
load_bytes-store_bytes data32 m a v = omega (arith, low_bytes-store_bytes 4 m a v)

pub load_bytes-lt : (w : Width) (m : ℕ → ℕ) (a : ℕ) → load_bytes (size w) m a < modulus w
unfolding load_bytes
load_bytes-lt data8 m a = omega arith
load_bytes-lt data16 m a = omega arith
load_bytes-lt data32 m a = omega arith
