-- ===== src/Config/Cycles.antt =====
-- `validate_outbound_group_cycles` of src/config/mod.rs. The recursion runs on fuel, one more than
-- the groups there are. The graph is an association list with the entry of the last insertion in
-- front, and the sets are lists.
pub mod Paths
pub mod Search
use model_lib.Prelude.{
  ℕ, zero, suc, ◌+◌, Bytes, bytes_eq, Bool, true, false, Option, none, some, Result, ok, err, ◌>>=◌,
  List, [], ◌∷◌, length, any, if◌then◌else◌,
}
use model_lib.Config.Outbound.{OutboundConfig, tag_of, child_outbounds, is_group}

pub data CycleError : Type 0 where
  cycle : Bytes → CycleError
  out_of_fuel : CycleError

abbrev pub Graph : Type 0
Graph = List (Bytes × List Bytes)

-- `HashSet::contains`
abbrev pub member : Bytes → List Bytes → Bool
member t = any (bytes_eq t)

-- `HashSet::remove`
unfoldable pub remove : Bytes → List Bytes → List Bytes
remove t [] = []
remove t (x ∷ xs) = let rest = remove t xs in if bytes_eq t x then rest else x ∷ rest

-- `HashMap::get`, and `contains_key`
unfoldable pub children_of : Graph → Bytes → Option (List Bytes)
children_of [] t = none
children_of ((k, cs) ∷ g) t = let later = children_of g t in if bytes_eq t k then some cs else later

unfoldable pub contains_key : Graph → Bytes → Bool
contains_key g t = elim (children_of g t) [ none ↦ false | some cs ↦ true ]

-- `collect` over the groups, behind those that are in the graph.
unfoldable pub graph_onto : Graph → List OutboundConfig → Graph
graph_onto g [] = g
graph_onto g (o ∷ os) = graph_onto (if is_group o then (tag_of o, child_outbounds o) ∷ g else g) os

abbrev pub State : Type 0
State = List Bytes × List Bytes

unfoldable pub children_or_none : Graph → Bytes → List Bytes
children_or_none g t = elim (children_of g t) [ none ↦ [] | some cs ↦ cs ]

-- The loop over the children, of which those in the graph are visited.
unfoldable pub visit_children :
    (Bytes → State → Result CycleError State) → Graph → List Bytes → State → Result CycleError State
visit_children visitor g [] s = ok s
visit_children visitor g (c ∷ cs) s = elim (contains_key g c) [
  | false ↦ visit_children visitor g cs s
  | true ↦ do next ← visitor c s; visit_children visitor g cs next
]

-- The tags that are being visited, and those that are done.
unfoldable pub visit : ℕ → Graph → Bytes → State → Result CycleError State
visit zero g tag s = err out_of_fuel
visit (suc fuel) g tag (visiting, visited) = elim (member tag visited) [
  | true ↦ ok (visiting, visited)
  | false ↦ elim (member tag visiting) [
    | true ↦ err (cycle tag)
    | false ↦ do
      (during, done) ←
          visit_children (visit fuel g) g (children_or_none g tag) (tag ∷ visiting, visited)
      ok (remove tag during, tag ∷ done)
  ]
]

-- The loop over the keys of the graph, whose order is the hash map's.
unfoldable pub visit_all : ℕ → Graph → List Bytes → State → Result CycleError (Unit {0})
visit_all fuel g [] s = ok tt
visit_all fuel g (t ∷ keys) s = do next ← visit fuel g t s; visit_all fuel g keys next

unfoldable pub validate_outbound_group_cycles :
    List OutboundConfig → List Bytes → Result CycleError (Unit {0})
validate_outbound_group_cycles outbounds keys =
    let graph = graph_onto [] outbounds in visit_all (length graph + 1) graph keys ([], [])
