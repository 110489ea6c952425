-- ===== src/Builder/Match.antt =====
-- Finding a child by a token is finding it by the token's text.
use libwrouter.Base.{
  ℕ, ◌≤◌, ◌≡◌, refl, sym, ◌∙◌, ap, inl, inr, true, Option, none, some, arith, length, take,
  length-take, ◌==◌, ◌&&◌, ==_iff, Bool-cases,
}
use libwrouter.Text.{Bytes, bytes_eq}
use libwrouter.Text.Compare.{bytes_eq_sound, bytes_eq_refl}
use libwrouter.Token.{Token, text_of, token_matches_segment}
use libwrouter.Segment.{
  Node, Segments, nil, cons, find_child, segment_find_child_by_token, update_child,
}
use libwrouter.Router.Tree.{child_named}
use libwrouter.Builder.Insert.{set_child}

bytes_eq_sym : (a b : Bytes) → bytes_eq a b ≡ bytes_eq b a
bytes_eq_sym a b = elim (Bool-cases (bytes_eq a b)) [
  | inl same ↦
      let e = bytes_eq_sound a b same in same ∙ sym (ap (λ x. bytes_eq b x) e ∙ bytes_eq_refl b)
  | inr differ ↦ elim (Bool-cases (bytes_eq b a)) [
    | inl same ↦ let e = bytes_eq_sound b a same in cc (ap (λ x. bytes_eq a x) e ∙ bytes_eq_refl a)
    | inr other ↦ differ ∙ sym other
  ]
]

and_length :
    (n : ℕ) (name str : Bytes)
    → length name ≡ n
    → (n == length str && bytes_eq name str) ≡ bytes_eq str name
and_length n name str len = elim (Bool-cases (bytes_eq name str)) [
  | inl same ↦
      let k : (n == length str) ≡ true =
        (==_iff n (length str)).1 (sym len ∙ ap length (bytes_eq_sound name str same)) in
      rw (k, same) (sym (bytes_eq_sym str name ∙ same))
  | inr differ ↦ ground (arith, bytes_eq_sym str name)
]

module _ (tok : Token) (p : Bytes) (ptr : tok.ptr ≡ some p) (len : tok.length ≤ length p) where
  length-text_of : length (text_of tok) ≡ tok.length
  length-text_of = rw ptr (omega (arith, length-take tok.length p))

  pub token_matches_segment-eq :
      (str : Bytes) → token_matches_segment tok (some str) ≡ bytes_eq str (text_of tok)
  unfolding token_matches_segment
  token_matches_segment-eq str =
      rw (ptr, token_matches_segment)
        (and_length tok.length (take tok.length p) str (omega (arith, length-take tok.length p)))

  find_child-eq : (cs : Segments) → find_child cs tok ≡ child_named cs (text_of tok)
  unfolding find_child child_named
  find_child-eq nil = refl
  find_child-eq (cons str child cs) =
      rw (token_matches_segment-eq str, find_child-eq cs, child_named) refl

  pub segment_find_child_by_token-eq :
      (cs : Segments) → segment_find_child_by_token cs tok ≡ child_named cs (text_of tok)
  unfolding segment_find_child_by_token
  segment_find_child_by_token-eq cs =
      ap
        (λ (o : Option Bytes). elim o as (λ _. Option Node) [
          | none ↦ none
          | some _ ↦ find_child cs tok
        ])
        ptr
      ∙ find_child-eq cs

  pub update_child-eq :
      (cs : Segments) (n : Node) → update_child cs tok n ≡ set_child cs (text_of tok) n
  unfolding update_child
  update_child-eq nil n = refl
  update_child-eq (cons str child cs) n =
      rw (token_matches_segment-eq str, update_child-eq cs n) refl
