-- ===== src/Stub/Memory.antt =====
-- The memory that the stubs of share/mopsa/stubs/c speak of, and the predicates that
-- mopsa/mopsa.c declares for all of them.
pub use mopsa_ocaml.Prelude.{ℤ, pos, negsuc}
use mathlib.Core.Path.{◌≡◌}
use Prim.Native.Nat.{◌%◌}
use mopsa_ocaml.Prelude.{ℕ, ◌+◌, ◌-◌, ◌≤◌, ◌<◌, ◌≢◌, ◌⊎◌, Bool, true, leb, ltb, if◌then◌else◌}

-- A product of the type size_t, which wraps around.
abbrev pub size_t : ℕ → ℕ
size_t n = n % 18446744073709551616

-- A pointer is null, invalid, or an offset in bytes from the start of a block.
pub data Ptr : Type 0 where
  null invalid : Ptr
  at : (base : ℕ) (offset : ℤ) → Ptr

-- A block is alive or not, has a size in bytes, and holds a byte at each offset.
pub record Memory : Type 0 where
  pub alive : ℕ → Bool
  pub size : ℕ → ℕ
  pub cell : ℕ → ℕ → ℕ
  pub errno : ℤ

abbrev pub shift_offset : ℤ → ℕ → ℤ
shift_offset (pos o) i = pos (o + i)
shift_offset (negsuc o) i = if leb i o then negsuc (o - i) else pos (i - o - 1)

-- `p + i`, for a pointer to bytes.
abbrev pub shift : Ptr → ℕ → Ptr
shift null i = invalid
shift invalid i = invalid
shift (at b o) i = at b (shift_offset o i)

abbrev pub load : Memory → Ptr → ℕ
load m (at b (pos o)) = m.cell b o
load m _ = 0

-- `((unsigned char*)p)[i]`; no predicate depends on it out of bounds.
abbrev pub byte : Memory → Ptr → ℕ → ℕ
byte m p i = load m (shift p i)

-- A byte as a `char`, promoted to `int`.
abbrev pub to_char : ℕ → ℤ
to_char b = if ltb b 128 then pos b else negsuc (255 - b)

-- `forall size_t i in [a, b): P i` and `exists size_t i in [a, b): P i`.
abbrev pub Forall : ℕ → ℕ → (ℕ → Type 0) → Type 0
Forall a b P = (i : ℕ) → a ≤ i → i < b → P i

abbrev pub Exists : ℕ → ℕ → (ℕ → Type 0) → Type 0
Exists a b P = (i : ℕ) × (a ≤ i) × (i < b) × P i

-- `valid_base(p)` and `offset(p) >= 0 and bytes(p) >= offset(p) + n`.
abbrev pub ValidBlock : Memory → Ptr → ℕ → Type 0
ValidBlock m (at b (pos o)) n = (m.alive b ≡ true) × (o + n ≤ m.size b)
ValidBlock m _ n = ⊥

-- `valid_bytes` and, up to the message of the alarm, `valid_bytes_or_fail`. The predicates
-- null_or_valid_bytes and null_or_valid_bytes_or_fail have the same definitions, without a test for NULL.
abbrev pub ValidBytes : Memory → Ptr → ℕ → Type 0
ValidBytes m p n = 0 < n → ValidBlock m p n

-- `valid_ptr` and `valid_ptr_or_fail`, for a pointer to a byte.
abbrev pub ValidPtr : Memory → Ptr → Type 0
ValidPtr m p = ValidBlock m p 1

-- `bytes(p) - offset(p)`.
abbrev pub room : Memory → Ptr → ℕ
room m (at b (pos o)) = m.size b - o
room m _ = 0

-- `valid_string` and `valid_string_or_fail`.
abbrev pub ValidString : Memory → Ptr → Type 0
ValidString m s = ValidPtr m s × Exists 0 (room m s) (λ i. byte m s i ≡ 0)

-- `valid_substring`.
abbrev pub ValidSubstring : Memory → Ptr → ℕ → Type 0
ValidSubstring m s n = 0 < n → ValidPtr m s × Exists 0 n (λ i. byte m s i ≡ 0)

-- `in_bytes(r, x, n)`.
abbrev pub InBytes : Ptr → Ptr → ℕ → Type 0
InBytes r x n = (i : ℕ) × (i ≤ n) × (r ≡ shift x i)

-- `in_string(x, s)`.
abbrev pub InString : Memory → Ptr → Ptr → Type 0
InString m x s = Exists 0 (room m s) λ i. (x ≡ shift s i) × Forall 0 i (λ j. byte m s j ≢ 0)

-- `p >= q` between pointers into one block.
abbrev pub Before : ℤ → ℤ → Type 0
Before (pos a) (pos b) = a ≤ b
Before (pos a) (negsuc b) = ⊥
Before (negsuc a) (pos b) = Unit
Before (negsuc a) (negsuc b) = b ≤ a

-- `no_overlap(s1, n1, s2, n2)` of libc/string.c.
abbrev pub NoOverlap : Ptr → ℕ → Ptr → ℕ → Type 0
NoOverlap (at b o) n (at c p) k =
    0 < n → 0 < k → b ≡ c → Before (shift_offset p k) o ⊎ Before (shift_offset o n) p
NoOverlap _ n _ k = Unit
