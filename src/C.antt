-- ===== src/C.antt =====
-- What the models take of C and of the operating system: the outcome of a call, memory blocks,
-- strings in memory, the widths of the integer types of an LP64 machine, and the allocator.
pub mod Every
pub mod Strings
use libcircle.Prelude.{
  ℕ, zero, suc, ◌+◌, ◌-◌, ◌^◌, ◌≡◌, ◌≢◌, Bool, true, false, Option, none, some, List, [], ◌∷◌, ltb,
  ◌==◌, if◌then◌else◌, length, refl,
}

-- `fault` is undefined behaviour: an access outside a block or through a null pointer, a signed
-- overflow, a division by zero. `aborted` is a call of MPI_Abort or of exit. `out_of_fuel` is a loop that has used up
-- the rounds its model was given.
pub data Run {ℓ} (A : Type ℓ) : Type ℓ where
  ok : A → Run A
  fault : Run A
  aborted : Run A
  out_of_fuel : Run A

infixl 5 ◌>>=◌ ◌>>◌
abbrev pub ◌>>=◌ {ℓ κ} : {A : Type ℓ} {B : Type κ} → Run A → (A → Run B) → Run B
ok a >>= f = f a
fault >>= f = fault
aborted >>= f = aborted
out_of_fuel >>= f = out_of_fuel

abbrev pub ◌>>◌ {ℓ} : {B : Type ℓ} → Run (Unit {0}) → Run B → Run B
m >> k = m >>= λ _. k

-- The code stands in for a check that the C standard leaves to the programmer.
abbrev pub require : Bool → Run (Unit {0})
require true = ok tt
require false = fault

-- `*p` for a pointer that may be NULL.
abbrev pub deref {ℓ} : {A : Type ℓ} → Option A → Run A
deref none = fault
deref (some a) = ok a

-- INT32_MAX + 1, and the modulus of size_t and uintptr_t.
abbrev pub int_limit : ℕ
int_limit = 2 ^ 31

abbrev pub u32_mod : ℕ
u32_mod = 2 ^ 32

abbrev pub size_mod : ℕ
size_mod = 2 ^ 64

-- The contents of a block from its base address; the block's size stands beside it.
abbrev pub Mem : Type 0
Mem = ℕ → ℕ

abbrev pub store : Mem → ℕ → ℕ → Mem
store m p v a = if a == p then v else m a

-- `strcpy(m + p, s)`, the bytes of `s` and the terminating zero.
pub store_str : Mem → ℕ → List ℕ → Mem
store_str m p [] = store m p 0
store_str m p (c ∷ s) = store (store_str m (suc p) s) p c

-- The string that starts at `p`, read through at most `room` bytes.
pub load_str : ℕ → Mem → ℕ → Run (List ℕ)
load_str zero m p = fault
load_str (suc room) m p =
    let rest = load_str room m (suc p) >>= λ s. ok (m p ∷ s) in if m p == 0 then ok [] else rest

-- The operating system: which requests of memory are granted, what a fresh block holds, and
-- sysconf(_SC_PAGESIZE).
pub record Os : Type 0 where
  pub grants : ℕ → Bool
  pub junk : Mem
  pub page_size : ℕ

-- `malloc(n)` as seen by its caller: NULL, or a block of unspecified contents.
abbrev pub malloc : Os → ℕ → Option Mem
malloc os n = if os.grants n then some os.junk else none

-- `realloc(p, n)` of a block of `old` bytes (or cells): its contents are kept. NULL is a malloc.
abbrev pub realloc : Os → Option Mem → ℕ → ℕ → Option Mem
realloc os none old n = malloc os n
realloc os (some m) old n =
    if os.grants n then some (λ a. if ltb a old then m a else os.junk a) else none
