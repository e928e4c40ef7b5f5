-- ===== src/Validator/Cycles/Paths.antt =====
-- Paths in the reference graph of a workflow, the names from which every path ends, and the
-- number of names that a search has not visited.
use mathlib.Core.WellFounded.{Acc}
use intelligent_workflows.Prelude.{
  ℕ, suc, ◌≤◌, ◌<◌, String, ◌≡◌, true, false, List, [], ◌∷◌, arith, length, member, eq_iff,
  if◌then◌else◌,
}
use intelligent_workflows.Validator.Cycles.{Graph, neighbors}

abbrev pub Edge : Graph → String → String → Type 0
Edge graph a b = member b (neighbors graph a) ≡ true

-- Paths of any length, the empty one included.
pub data Star (graph : Graph) (a : String) : String → Type 0 where
  here : Star graph a a
  next : {b c : String} → Star graph a b → Edge graph b c → Star graph a c

-- A path from `start` to `last` and an edge from `last` back to `start`.
pub record Circle (graph : Graph) : Type 0 where
  pub start : String
  pub last : String
  pub path : Star graph start last
  pub back : Edge graph last start

-- Every path from the name ends.
abbrev pub Ends : Graph → String → Type 0
Ends graph = Acc (λ b a. Edge graph a b)

Ends-Edge : (graph : Graph) {a b : String} → Ends graph a → Edge graph a b → Ends graph b
Ends-Edge graph (Acc.intro _ below) e = below _ e

pub Ends-Star : (graph : Graph) {a b : String} → Star graph a b → Ends graph a → Ends graph b
Ends-Star graph here h = h
Ends-Star graph (next p e) h = Ends-Edge graph (Ends-Star graph p h) e

-- The first edge of a path that is not empty.
pub first-Edge :
    (graph : Graph) {a b c : String}
    → Star graph a b
    → Edge graph b c
    → (x : String) × Edge graph a x × Star graph x c
first-Edge graph {c} here e = (c, e, here)
first-Edge graph (next p q) e = let (x, f, r) = first-Edge graph p q in (x, f, next r e)

-- No path from a name where all paths end comes back to it.
pub Ends-acyclic :
    (graph : Graph) {a : String} → Ends graph a → (b : String) → Star graph a b → ¬ Edge graph b a
Ends-acyclic graph (Acc.intro a below) b p e =
    let (x, f, r) = first-Edge graph p e in Ends-acyclic graph (below x f) a r f

-- The names of the list that are not visited.
abbrev pub unvisited : List String → List String → ℕ
unvisited [] visited = 0
unvisited (n ∷ ns) visited =
    let rest = unvisited ns visited in if member n visited then rest else suc rest

pub unvisited-nil : (ns : List String) → unvisited ns [] ≤ length ns
unvisited-nil [] = omega arith
unvisited-nil (n ∷ ns) = omega (arith, unvisited-nil ns)

pub unvisited_mono :
    (ns vs ws : List String)
    → ((v : String) → member v vs ≡ true → member v ws ≡ true)
    → unvisited ns ws ≤ unvisited ns vs
unvisited_mono [] vs ws h = omega arith
unvisited_mono (n ∷ ns) vs ws h = ground (arith, h n, unvisited_mono ns vs ws h)

pub unvisited_visit :
    (ns vs : List String) (n : String)
    → member n ns ≡ true
    → member n vs ≡ false
    → unvisited ns (n ∷ vs) < unvisited ns vs
unvisited_visit [] vs n i o = cc
unvisited_visit (m ∷ ns) vs n i o = ground (
  arith,
  eq_iff n m,
  eq_iff m n,
  unvisited_visit ns vs n,
  unvisited_mono ns vs (n ∷ vs) (λ v h. ground arith),
)
