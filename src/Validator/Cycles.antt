-- ===== src/Validator/Cycles.antt =====
-- The search for circular references (`validateNoCycles` of
-- internal/validators/workflow_validator.go). The recursion of `hasCycle` takes fuel, the number of
-- names in the graph.
pub mod Paths
pub mod Invariant
pub mod Calls
pub mod Correct
use intelligent_workflows.Prelude.{
  ℕ, zero, suc, String, Bool, true, false, List, [], ◌∷◌, ◌++◌, Option, none, some, ◌==◌,
  if◌then◌else◌, length, lookup, insert, member, remove, Err, msg,
}
use intelligent_workflows.Models.Workflow.{Step, StepInfo, WaitConfig, info}

abbrev pub Graph : Type 0
Graph = List (String × List String)

-- An entry is appended only for a name that is not empty.
abbrev pub named : String → List String → List String
named name rest = if name == "" then rest else name ∷ rest

abbrev pub on_timeout_of : Option WaitConfig → String
on_timeout_of none = ""
on_timeout_of (some w) = w.on_timeout

-- What is appended to `graph[step.ID]`, in order.
unfoldable pub references : StepInfo → List String
references i = named i.on_true (named i.on_false (named (on_timeout_of i.wait) []))

-- The loop that builds the adjacency lists; a repeated ID starts its list anew.
unfoldable pub build_graph : List Step → Graph → Graph
unfolding insert
build_graph [] graph = graph
build_graph (s ∷ ss) graph = build_graph ss (insert (info s).id (references (info s)) graph)

-- `graph[node]`, nil where the key is missing
unfoldable pub neighbors : Graph → String → List String
unfolding lookup
neighbors graph node = elim (lookup node graph) [ none ↦ [] | some ns ↦ ns ]

-- The two maps of the search, as the sets of the keys that map to true.
pub record Search : Type 0 where
  pub visited : List String
  pub rec_stack : List String

abbrev pub enter : String → Search → Search
enter node s = record { visited = node ∷ s.visited; rec_stack = node ∷ s.rec_stack }

abbrev pub leave : String → Search → Search
leave node s = record { visited = s.visited; rec_stack = remove node s.rec_stack }

-- The answer of `hasCycle` with the maps that it leaves; `none` means that the fuel ran out.
abbrev pub Answer : Type 0
Answer = Option (Bool × Search)

-- `if hasCycle(…) { return true }`, and what comes after it.
unfoldable pub unless_found : Answer → (Search → Answer) → Answer
unless_found none rest = none
unless_found (some (true, t)) rest = some (true, t)
unless_found (some (false, t)) rest = rest t

-- The loop of `hasCycle` over the neighbors; `call` is the recursive call.
unfoldable pub visit_all : (String → Search → Answer) → List String → Search → Answer
visit_all call [] s = some (false, s)
visit_all call (n ∷ ns) s = elim (member n s.visited) [
  | false ↦ unless_found (call n s) (visit_all call ns)
  | true ↦ elim (member n s.rec_stack) [ true ↦ some (true, s) | false ↦ visit_all call ns s ]
]

unfoldable pub has_cycle : ℕ → Graph → String → Search → Answer
unfolding visit_all unless_found neighbors remove
has_cycle zero graph node s = none
has_cycle (suc fuel) graph node s =
    unless_found (visit_all (has_cycle fuel graph) (neighbors graph node) (enter node s))
      (λ t. some (false, leave node t))

-- The loop of `validateNoCycles` over the steps; the text is a step's ID.
unfoldable pub search_from : (String → Search → Answer) → List String → Search → Answer
search_from call [] s = some (false, s)
search_from call (id ∷ ids) s = elim (member id s.visited) [
  | true ↦ search_from call ids s
  | false ↦ unless_found (call id s) (search_from call ids)
]

abbrev pub ids : List Step → List String
ids [] = []
ids (s ∷ ss) = (info s).id ∷ ids ss

-- Every name that is a key of the graph or a neighbor.
abbrev pub all_references : List Step → List String
all_references [] = []
all_references (s ∷ ss) = references (info s) ++ all_references ss

abbrev pub names : List Step → List String
names steps = ids steps ++ all_references steps

unfoldable pub search : List Step → Answer
unfolding has_cycle search_from build_graph unless_found
search steps =
    search_from (has_cycle (length (names steps)) (build_graph steps [])) (ids steps)
      (record { visited = []; rec_stack = [] })

abbrev circular : Err
circular = msg "circular dependency detected in workflow steps"

unfoldable pub validate_no_cycles : List Step → Option Err
unfolding search
validate_no_cycles steps = elim (search steps) [
  | none ↦ none
  | some (true, t) ↦ some circular
  | some (false, t) ↦ none
]
