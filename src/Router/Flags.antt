-- ===== src/Router/Flags.antt =====
-- The flags and the count that route_match reads from a node's word.
use libwrouter.Base.{
  ℕ, ◌+◌, ◌-◌, ◌*◌, ◌/◌, ◌%◌, ◌^◌, ◌≤◌, ◌<◌, ◌≡◌, refl, ◌∙◌, ap, Bool, true, false, Option, some,
  none, arith, bit_and,
}
use libwrouter.Base.Bits.{bit_and_pow, bit_and_mask}
use libwrouter.Route.{Route}
use libwrouter.Segment.{Special, Segments, spec_param, spec_wildcard, child_count}
use libwrouter.Graph.Stats.{count_route}
use libwrouter.Graph.Represents.{word, param_bit, wildcard_bit}
use libwrouter.Router.{has}

abbrev pub is_param : Special → Bool
is_param (spec_param str child) = true
is_param _ = false

abbrev pub is_wildcard : Special → Bool
is_wildcard (spec_wildcard r) = true
is_wildcard _ = false

abbrev pub is_some : Option Route → Bool
is_some none = false
is_some (some r) = true

abbrev bit : Bool → ℕ
bit true = 1
bit false = 0

has-bit : (k w : ℕ) (b : Bool) → w / 2 ^ k % 2 ≡ bit b → 0 < 2 ^ k → has w (2 ^ k) ≡ b
unfolding has
has-bit k w true e p = ground (arith, bit_and_pow k w, ap (λ n. n * 2 ^ k) e)
has-bit k w false e p = ground (arith, bit_and_pow k w, ap (λ n. n * 2 ^ k) e)

module _ (t u : Option Route) (sp : Special) (cs : Segments) (small : child_count cs ≤ 4095) where
  bits :
      (param_bit sp ≡ bit (is_param sp))
      × (wildcard_bit sp ≡ bit (is_wildcard sp))
      × (count_route t ≡ bit (is_some t))
      × (count_route u ≡ bit (is_some u))
      × (param_bit sp + wildcard_bit sp ≤ 1)
      × (count_route t ≤ 1)
      × (count_route u ≤ 1)
  bits = (of_param sp, of_wildcard sp, of_route t, of_route u, at_most sp, le_one t, le_one u)
    where
      of_param : (x : Special) → param_bit x ≡ bit (is_param x)
      of_param (spec_param str child) = refl
      of_param x = refl

      of_wildcard : (x : Special) → wildcard_bit x ≡ bit (is_wildcard x)
      of_wildcard (spec_wildcard r) = refl
      of_wildcard x = refl

      of_route : (x : Option Route) → count_route x ≡ bit (is_some x)
      of_route none = refl
      of_route (some r) = refl

      at_most : (x : Special) → param_bit x + wildcard_bit x ≤ 1
      at_most (spec_param str child) = omega arith
      at_most (spec_wildcard r) = omega arith
      at_most x = omega arith

      le_one : (x : Option Route) → count_route x ≤ 1
      le_one none = omega arith
      le_one (some r) = omega arith

  pub has-terminal : has (word t u sp cs) (2 ^ 12) ≡ is_some t
  has-terminal = let b = bits in has-bit 12 (word t u sp cs) (is_some t) (omega arith) (omega arith)

  pub has-param : has (word t u sp cs) (2 ^ 13) ≡ is_param sp
  has-param = let b = bits in has-bit 13 (word t u sp cs) (is_param sp) (omega arith) (omega arith)

  pub has-wildcard : has (word t u sp cs) (2 ^ 14) ≡ is_wildcard sp
  has-wildcard =
      let b = bits in has-bit 14 (word t u sp cs) (is_wildcard sp) (omega arith) (omega arith)

  pub has-trailing : has (word t u sp cs) (2 ^ 15) ≡ is_some u
  has-trailing = let b = bits in has-bit 15 (word t u sp cs) (is_some u) (omega arith) (omega arith)

  pub literals-word : bit_and (word t u sp cs) (2 ^ 12 - 1) ≡ child_count cs
  literals-word = bit_and_mask 12 (word t u sp cs) ∙ omega arith
