-- ===== src/Arena.antt =====
-- arena.c: a bump allocator over a chain of blocks. The chain is a list from `tail` back to `head`,
-- the order in which `arena_alloc_aligned` meets the blocks: it starts at the tail, and the loop
-- goes on to the block that it has just appended. Addresses and sizes are natural numbers below
-- 2 ^ 64: each sum and difference of the code wraps around there.
pub mod Bounds
use libwrouter.Base.{
  ℕ, ◌+◌, ◌-◌, List, [], ◌∷◌, Option, none, some, leb, ltb, if◌then◌else◌, bit_and,
}
use libwrouter.Memory.{Memory, malloc, size_mod, wrap}

-- ARENA_BLOCK_SIZE
abbrev pub arena_block_size : ℕ
arena_block_size = 4096

pub record Block : Type 0 where
  pub base : ℕ
  pub used : ℕ
  pub size : ℕ

abbrev pub Arena : Type 0
Arena = List Block

-- The block's descriptor and its bytes are two allocations.
unfoldable pub arena_new_block : ℕ → Memory → Option Block × Memory
unfolding malloc
arena_new_block min_size mem =
    let size = if ltb arena_block_size min_size then min_size else arena_block_size in
    let (descriptor, mem') = malloc mem in
    elim descriptor [
      | none ↦ (none, mem')
      | some _ ↦
          let (bytes, mem'') = malloc mem' in
          elim bytes [
            | none ↦ (none, mem'')
            | some address ↦ (some (record { base = address; used = 0; size = size }), mem'')
          ]
    ]

-- `a - b` in a size_t, for `a` and `b` below its modulus.
abbrev pub sub_wrap : ℕ → ℕ → ℕ
sub_wrap a b = wrap (a + (size_mod - b))

-- `(base + (align - 1)) & ~(align - 1)`
abbrev pub align_up : ℕ → ℕ → ℕ
align_up base align = bit_and (wrap (base + sub_wrap align 1)) (size_mod - 1 - sub_wrap align 1)

-- One round of the loop: the address, and the block after it, if the request fits.
unfoldable pub block_alloc : Block → ℕ → ℕ → Option (ℕ × Block)
block_alloc b size align =
    let base = wrap (b.base + b.used) in
    let aligned = align_up base align in
    let total = wrap (sub_wrap aligned base + size) in
    let used = wrap (b.used + total) in
    if leb used b.size then some (aligned, record b { used = used }) else none

-- An allocation from the block that was just appended.
unfoldable pub alloc_in_new : Arena → ℕ → ℕ → Option Block × Memory → Option ℕ × Arena × Memory
unfolding block_alloc
alloc_in_new a size align (none, mem) = (none, a, mem)
alloc_in_new a size align (some b, mem) = elim (block_alloc b size align) [
  | none ↦ (none, b ∷ a, mem)
  | some (address, b') ↦ (some address, b' ∷ a, mem)
]

unfoldable pub arena_alloc_aligned : Arena → ℕ → ℕ → Memory → Option ℕ × Arena × Memory
unfolding alloc_in_new arena_new_block
arena_alloc_aligned [] size align mem =
    alloc_in_new [] size align (arena_new_block (sub_wrap (wrap (size + align)) 1) mem)
arena_alloc_aligned (b ∷ a) size align mem = elim (block_alloc b size align) [
  | none ↦ alloc_in_new (b ∷ a) size align (arena_new_block (sub_wrap (wrap (size + align)) 1) mem)
  | some (address, b') ↦ (some address, b' ∷ a, mem)
]

-- `_Alignof(char)` is 1.
unfoldable pub arena_alloc : Arena → ℕ → Memory → Option ℕ × Arena × Memory
unfolding arena_alloc_aligned
arena_alloc a length mem = arena_alloc_aligned a length 1 mem

unfoldable pub arena_used : Arena → ℕ
arena_used [] = 0
arena_used (b ∷ a) = b.used + arena_used a
