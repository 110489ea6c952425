-- ===== src/Builder/Step.antt =====
-- One token of a pattern in builder_add_route.

use libwrouter.Base.{
  ◌≤◌, ◌≡◌, ◌≢◌, refl, ◌∙◌, ap, ◌⊎◌, inl, inr, List, [], ◌∷◌, Bool, Option, none, some, length,
  Option-cases,
}
use libwrouter.Text.{Bytes}
use libwrouter.Text.Compare.{NulFree}
use libwrouter.Memory.{Memory, malloc}
use libwrouter.Token.{Token, TokenType, text_of}
use libwrouter.Errors.{
  Error, ok, no_memory, duplicate_route, wildcard_conflicts_with_param, wildcard_not_final,
}
use libwrouter.Route.{Route, call_back}
use libwrouter.Prelexer.Pattern.{
  Piece, Ending, finished, slashed, rest, Pattern, put_front, wildcard_end,
}
use libwrouter.Symbol.{SymbolTable}
use libwrouter.Symbol.Append.{IsTable, Grows, Appends, symbol_append-Appends}
use libwrouter.Segment.{
  Node, Segments, node, spec_none, spec_param, spec_wildcard, spec_param_null, spec_wildcard_null,
  segment_create,
}
use libwrouter.Segment.Shape.{IsTree}
use libwrouter.Builder.{
  Tables, Added, stop, under, builder_terminate, terminate, add_terminal, add_trailing,
  add_wildcard, wildcard_of,
}
use libwrouter.Builder.Insert.{Inserts, terminal, trailing, wildcard}

-- Both tables hold different null-terminated strings.
pub record IsReady (tb : Tables) : Type 0 where
  pub literals : IsTable tb.literals
  pub params : IsTable tb.params

-- The tree is well-formed, with its names in the tables.
abbrev pub IsTreeOf : Tables → Node → Type 0
IsTreeOf tb n = IsTree tb.literals.base tb.params.base n

-- All strings of the first tables are in the second.
pub record Keeps (tb tb' : Tables) : Type 0 where
  pub literals : Grows tb.literals tb'.literals
  pub params : Grows tb.params tb'.params

-- The route is in the tree, which stays well-formed, and its context is retained.
pub record Put (retain : Bool) (route : Route) (cur : Node) (tb : Tables) (ps : List Piece)
    (e : Ending) (a : Added) : Type 0 where
  pub err : a.err ≡ ok
  pub inserts : Inserts route cur ps e a.node
  pub ready : IsReady a.tables
  pub keeps : Keeps tb a.tables
  pub tree : IsTreeOf tb cur → IsTreeOf a.tables a.node
  pub retained : a.tables.world.retained ≡ call_back retain tb.world.retained route.ctx
  pub released : a.tables.world.released ≡ tb.world.released

-- An error, and nothing is retained.
pub record Failed (tb : Tables) (a : Added) : Type 0 where
  pub err : a.err ≢ ok
  pub retained : a.tables.world.retained ≡ tb.world.retained
  pub released : a.tables.world.released ≡ tb.world.released

-- What comes of the rest of a pattern, which is `none` where it is no pattern.
abbrev pub Outcome : Bool → Route → Node → Tables → Option Pattern → Added → Type 0
Outcome retain route cur tb pattern a =
    Failed tb a
    ⊎ ((ps : List Piece) × (e : Ending) × (pattern ≡ some (ps, e)) × Put retain route cur tb ps e a)

abbrev pub Result : Bool → Route → Node → Tables → Option Pattern → Option Added → Type 0
Result retain route cur tb pattern r =
    (a : Added) × (r ≡ some a) × Outcome retain route cur tb pattern a

module _ (retain : Bool) (route : Route) where
  -- The walk stops with an error.
  pub fails :
      (cur : Node) (tb : Tables) (pattern : Option Pattern) (err : Error) (n : Node) (tb' : Tables)
      → err ≢ ok
      → tb'.world.retained ≡ tb.world.retained
      → tb'.world.released ≡ tb.world.released
      → Result retain route cur tb pattern (some (stop err n tb'))
  fails cur tb pattern err n tb' ne same same' =
      (stop err n tb', refl, inl (record { err = ne; retained = same; released = same' }))

  -- builder_terminate puts the route where the walk has come to, or there is no memory for it.
  terminates :
      (cur : Node) (tb : Tables) (put : Option Route → Node) (e : Ending) (pattern : Option Pattern)
      → IsReady tb
      → pattern ≡ some ([], e)
      → Inserts route cur [] e (put (some route))
      → (IsTreeOf tb cur → IsTreeOf tb (put (some route)))
      → Result retain route cur tb pattern (some (terminate retain route tb put))
  unfolding terminate builder_terminate
  terminates cur tb put e pattern ready p i tree = elim (Option-cases (malloc tb.world.mem).0) [
    | inl q ↦
        rw (q, terminate, builder_terminate)
          (fails cur tb pattern no_memory (put none)
            (record tb { world = record tb.world { mem = (malloc tb.world.mem).1 } }) (λ x. cc) refl
            refl)
    | inr (a, q) ↦
        rw (q, terminate, builder_terminate)
          (
            _,
            refl,
            inr (
              [],
              e,
              p,
              record {
                err = refl;
                inserts = i;
                ready = record { literals = ready.literals; params = ready.params };
                keeps = record { literals = λ s h. h; params = λ s h. h };
                tree = tree;
                retained = refl;
                released = refl;
              },
            ),
          )
  ]

  pub add_terminal_lem :
      (cur : Node) (tb : Tables)
      → IsReady tb
      → Result retain route cur tb (some ([], finished)) (some (add_terminal retain route cur tb))
  unfolding add_terminal IsTree
  add_terminal_lem (node (some t) tr sp cs) tb ready =
      fails (node (some t) tr sp cs) tb _ duplicate_route (node (some t) tr sp cs) tb (λ x. cc) refl
        refl
  add_terminal_lem (node none tr sp cs) tb ready =
      terminates (node none tr sp cs) tb (λ t. node t tr sp cs) finished _ ready refl
        (terminal tr sp cs) (λ h. h)

  pub add_trailing_lem :
      (cur : Node) (tb : Tables)
      → IsReady tb
      → Result retain route cur tb (some ([], slashed)) (some (add_trailing retain route cur tb))
  unfolding add_trailing IsTree
  add_trailing_lem (node t (some tr) sp cs) tb ready =
      fails (node t (some tr) sp cs) tb _ duplicate_route (node t (some tr) sp cs) tb (λ x. cc) refl
        refl
  add_trailing_lem (node t none sp cs) tb ready =
      terminates (node t none sp cs) tb (λ tr. node t tr sp cs) slashed _ ready refl
        (trailing t sp cs) (λ h. h)

  wildcard_on_none :
      (next : TokenType) (t tr : Option Route) (cs : Segments) (tb : Tables)
      → IsReady tb
      → Result retain route
          (node t tr spec_none cs)
          tb
          (wildcard_end next)
          (some (add_wildcard retain route next (node t tr spec_none cs) tb))
  unfolding add_wildcard IsTree
  wildcard_on_none TokenType.end t tr cs tb ready =
      terminates (node t tr spec_none cs) tb (λ r. node t tr (wildcard_of retain route r) cs) rest _
        ready refl (wildcard t tr cs) (λ h. h)
  wildcard_on_none next t tr cs tb ready =
      fails (node t tr spec_none cs) tb _ wildcard_not_final (node t tr spec_none cs) tb (λ x. cc)
        refl refl

  pub add_wildcard_lem :
      (next : TokenType) (cur : Node) (tb : Tables)
      → IsReady tb
      → Result retain route cur tb
          (wildcard_end next)
          (some (add_wildcard retain route next cur tb))
  unfolding add_wildcard
  add_wildcard_lem next (node t tr spec_none cs) tb ready = wildcard_on_none next t tr cs tb ready
  add_wildcard_lem next (node t tr (spec_param str child) cs) tb ready =
      fails _ tb _ wildcard_conflicts_with_param (node t tr (spec_param str child) cs) tb (λ x. cc)
        refl refl
  add_wildcard_lem next (node t tr spec_param_null cs) tb ready =
      fails _ tb _ wildcard_conflicts_with_param (node t tr spec_param_null cs) tb (λ x. cc) refl
        refl
  add_wildcard_lem next (node t tr (spec_wildcard r) cs) tb ready =
      fails _ tb _ duplicate_route (node t tr (spec_wildcard r) cs) tb (λ x. cc) refl refl
  add_wildcard_lem next (node t tr spec_wildcard_null cs) tb ready =
      fails _ tb _ duplicate_route (node t tr spec_wildcard_null cs) tb (λ x. cc) refl refl

pub Keeps-trans : (a b c : Tables) → Keeps a b → Keeps b c → Keeps a c
Keeps-trans a b c h k = record {
  literals = λ s m. k.literals s (h.literals s m);
  params = λ s m. k.params s (h.params s m);
}

-- segment_create on a table.
pub segment_create-Appends :
    (tbl : SymbolTable) (tok : Token) (mem : Memory)
    → IsTable tbl
    → NulFree (text_of tok)
    → Appends tbl (text_of tok) (segment_create tbl tok mem)
unfolding segment_create
segment_create-Appends tbl tok mem t nul = elim (Option-cases (malloc mem).0) [
  | inl p ↦ rw (p, segment_create) (inr (refl, λ e. cc))
  | inr (a, p) ↦
      rw (p, segment_create) (symbol_append-Appends tbl (text_of tok) (malloc mem).1 t nul)
]

module _ (retain : Bool) (route : Route) (go : Node → Tables → Option Added)
    (pattern : Option Pattern)
    (go_lem : (cur : Node) (tb : Tables)
      → IsReady tb
      → Result retain route cur tb pattern (go cur tb))
    (tok : Token) (p : Bytes) (ptr : tok.ptr ≡ some p) (len : tok.length ≤ length p)
    (nul : NulFree (text_of tok)) where
  abbrev pub name : Bytes
  name = text_of tok

  -- The rest of the walk at a node below, put back under the node.
  pub goes_on :
      (cur below : Node) (tb tb' : Tables) (x : Piece) (f : Node → Node)
      → IsReady tb'
      → Keeps tb tb'
      → (IsTreeOf tb cur → IsTreeOf tb' below)
      → ((a : Tables) (n : Node) → Keeps tb' a → IsTreeOf tb cur → IsTreeOf a n → IsTreeOf a (f n))
      → tb'.world.retained ≡ tb.world.retained
      → tb'.world.released ≡ tb.world.released
      → ((ps : List Piece) (e : Ending) (n : Node)
          → Inserts route below ps e n
          → Inserts route cur (x ∷ ps) e (f n))
      → Result retain route cur tb (put_front x pattern) (under f (go below tb'))
  goes_on cur below tb tb' x f ready keeps down up same same' step =
      let (a, done, out) = go_lem below tb' ready in
      let put_back : Added = record a { node = f a.node } in
      (
        put_back,
        ap (under f) done,
        elim out [
          | inl failed ↦ inl (record {
            err = failed.err;
            retained = failed.retained ∙ same;
            released = failed.released ∙ same';
          })
          | inr (ps, e, read, put) ↦ inr (
            x ∷ ps,
            e,
            ap (put_front x) read,
            record {
              err = put.err;
              inserts = step ps e a.node put.inserts;
              ready = put.ready;
              keeps = Keeps-trans tb tb' a.tables keeps put.keeps;
              tree = λ h. up a.tables a.node put.keeps h (put.tree (down h));
              retained = put.retained ∙ ap (λ calls. call_back retain calls route.ctx) same;
              released = put.released ∙ same';
            },
          )
        ],
      )
