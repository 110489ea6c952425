-- ===== src/Arena/Bounds.antt =====
-- Where the bump allocator places a request, and that no size wraps around.
use mathlib.Core.Option.{some-injective}
use mathlib.Core.Path.{subst}
use native.Mathlib.Nat.{div-add-mod, mod-lt}
use libwrouter.Base.{
  ℕ, ◌+◌, ◌-◌, ◌*◌, ◌/◌, ◌%◌, ◌^◌, ◌≤◌, ◌<◌, ◌≡◌, refl, ◌∙◌, ap, inl, inr, some, arith, leb,
  Bool-cases, bit_and,
}
use libwrouter.Base.Bits.{bit_and_high, pow_pos}
use libwrouter.Memory.{size_mod, wrap}
use libwrouter.Arena.{Block, sub_wrap, align_up, block_alloc}

-- The mask rounds up to a multiple of a power of two.
align_up-eq :
    (k base : ℕ)
    → k ≤ 63
    → base + 2 ^ k ≤ size_mod
    → align_up base (2 ^ k) ≡ (base + (2 ^ k - 1)) / 2 ^ k * 2 ^ k
align_up-eq k base h room =
    let less : sub_wrap (2 ^ k) 1 ≡ 2 ^ k - 1 = omega (arith, pow_pos k) in
    let masked = bit_and_high k 64 (base + (2 ^ k - 1)) (omega arith) (omega (arith, pow_pos k)) in
    let sum : (base + (2 ^ k - 1)) % size_mod ≡ base + (2 ^ k - 1) = omega (arith, pow_pos k) in
    let mask : size_mod - 1 - (2 ^ k - 1) ≡ 2 ^ 64 - 2 ^ k = omega (arith, pow_pos k) in
    let step = ap (λ m. bit_and (wrap (base + m)) (size_mod - 1 - m)) less in
    let step' = ap (λ s. bit_and s (size_mod - 1 - (2 ^ k - 1))) sum in
    let step'' = ap (λ m. bit_and (base + (2 ^ k - 1)) m) mask in step ∙ (step' ∙ (step'' ∙ masked))

align_up-ge : (k base : ℕ) → k ≤ 63 → base + 2 ^ k ≤ size_mod → base ≤ align_up base (2 ^ k)
align_up-ge k base h room =
    let a = base + (2 ^ k - 1) in
    let m : a % 2 ^ k < 2 ^ k = mod-lt a (pow_pos k) in
    omega (arith, align_up-eq k base h room, div-add-mod a (2 ^ k), m, pow_pos k)

align_up-lt : (k base : ℕ) → k ≤ 63 → base + 2 ^ k ≤ size_mod → align_up base (2 ^ k) < base + 2 ^ k
align_up-lt k base h room =
    let a = base + (2 ^ k - 1) in
    omega (arith, align_up-eq k base h room, div-add-mod a (2 ^ k), pow_pos k)

-- The address is a multiple of the alignment, and lies with all of the request behind what the block
-- has given out and before its end; what is given out then ends with the request.
pub record IsPlaced (b : Block) (size align address : ℕ) (b' : Block) : Type 0 where
  pub aligned : (k : ℕ) × (address ≡ k * align)
  pub behind : b.base + b.used ≤ address
  pub ends : address + size ≡ b'.base + b'.used
  pub inside : b'.used ≤ b'.size
  pub same : (b'.base ≡ b.base) × (b'.size ≡ b.size)

-- The block after the request, without wrapping around.
abbrev after : Block → ℕ → ℕ → ℕ
after b size align = b.used + (align_up (b.base + b.used) align - (b.base + b.used) + size)

module _ (b : Block) (size k : ℕ) (h : k ≤ 63)
    (room : b.base + b.used + 2 ^ k + size ≤ size_mod) where
  start : wrap (b.base + b.used) ≡ b.base + b.used
  start = omega (arith, pow_pos k, room)

  after_lem :
      (let base = wrap (b.base + b.used) in
        wrap (b.used + wrap (sub_wrap (align_up base (2 ^ k)) base + size)))
      ≡ after b size (2 ^ k)
  after_lem =
      let base = b.base + b.used in
      let ge = align_up-ge k base h (omega (arith, room)) in
      let lt = align_up-lt k base h (omega (arith, room)) in rw start (omega (arith, ge, lt, room))

  placed :
      after b size (2 ^ k) ≤ b.size
      → IsPlaced b size
          (2 ^ k)
          (align_up (b.base + b.used) (2 ^ k))
          (record b { used = after b size (2 ^ k) })
  placed fits =
      let base = b.base + b.used in
      let ge = align_up-ge k base h (omega (arith, room)) in
      record {
        aligned = ((base + (2 ^ k - 1)) / 2 ^ k, align_up-eq k base h (omega (arith, room)));
        behind = ge;
        ends = omega (arith, ge);
        inside = fits;
        same = (refl, refl);
      }

-- For an alignment that is a power of two, and a request that ends with its padding inside the address
-- space: an address that block_alloc gives is a multiple of the alignment, is not below what the
-- block had given out before, and the request ends where the block's free part then starts, inside
-- the block.
pub block_alloc-IsPlaced :
    (b b' : Block) (size k address : ℕ)
    → k ≤ 63
    → b.base + b.used + 2 ^ k + size ≤ size_mod
    → block_alloc b size (2 ^ k) ≡ some (address, b')
    → IsPlaced b size (2 ^ k) address b'
unfolding block_alloc
block_alloc-IsPlaced b b' size k address h room e =
    let aligned = align_up (b.base + b.used) (2 ^ k) in
    let e' = rw (start b size k h room) at (rw (after_lem b size k h room, block_alloc) at e) in
    elim (Bool-cases (leb (after b size (2 ^ k)) b.size)) [
      | inr full ↦ cc (rw (full, block_alloc) at e')
      | inl fits ↦
          let same = some-injective _ _ (rw (fits, block_alloc) at e') in
          subst (λ (x : ℕ × Block). IsPlaced b size (2 ^ k) x.0 x.1) same
            (placed b size k h room (ground arith))
    ]
