-- ===== src/Memory.antt =====
-- The allocator of the C library (malloc, calloc, realloc), as a list of what it answers: the
-- address of the new block, or `none` for NULL. Behind the listed answers every call succeeds.
use libwrouter.Base.{ℕ, ◌%◌, ◌^◌, List, [], ◌∷◌, Option, some}

-- The modulus of size_t and of uintptr_t, and a sum or a difference in them.
abbrev pub size_mod : ℕ
size_mod = 2 ^ 64

abbrev pub wrap : ℕ → ℕ
wrap n = n % size_mod

abbrev pub Memory : Type 0
Memory = List (Option ℕ)

unfoldable pub malloc : Memory → Option ℕ × Memory
malloc [] = (some 0, [])
malloc (answer ∷ rest) = (answer, rest)
