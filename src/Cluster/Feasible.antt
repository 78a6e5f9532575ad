-- ===== src/Cluster/Feasible.antt =====
-- The node that app/dispatch/k8s_state_collector.py prefers can run the workload.
use native.Mathlib.Nat.{le_trans}
use green_shift.Cluster.{
  NodeState, Request, ClusterResourceSnapshot, node_can_fit, is_resource_feasible, find_best_node,
  most_free, cpu_free_cores, memory_free_mib, gpu_free,
}
use green_shift.Prelude.{
  ◌≤◌, ◌≡◌, ◌≢◌, true, some, List, [], ◌∷◌, arith, All, All-keep_if, keep_if, All-of-keep_if,
  List-cases, inl, inr, if◌then◌else◌, ltb, some-injective, subst, Bool-cases,
}

freer_of_two :
    (n m : NodeState)
    → (cpu_free_cores n
        ≤ cpu_free_cores (if ltb (cpu_free_cores n) (cpu_free_cores m) then m else n))
      × (cpu_free_cores m
          ≤ cpu_free_cores (if ltb (cpu_free_cores n) (cpu_free_cores m) then m else n))
freer_of_two n m = elim (Bool-cases (ltb (cpu_free_cores n) (cpu_free_cores m))) [
  | inl e ↦ rw e (ground arith, omega arith)
  | inr e ↦ rw e (omega arith, ground arith)
]

-- A chosen node is one of the list, and none of the list has more free CPU.
most_free-greatest :
    (n : NodeState) (ms : List NodeState)
    → (cpu_free_cores n ≤ cpu_free_cores (most_free n ms))
      × All (λ m. cpu_free_cores m ≤ cpu_free_cores (most_free n ms)) ms
unfolding most_free
most_free-greatest n [] = (omega arith, tt)
most_free-greatest n (m ∷ ms) =
    let freer : NodeState = if ltb (cpu_free_cores n) (cpu_free_cores m) then m else n in
    let r = most_free-greatest freer ms in
    let at_least = freer_of_two n m in (le_trans at_least.0 r.0, (le_trans at_least.1 r.0, r.1))

All-most_free :
    (P : NodeState → Type 0) (n : NodeState) (ms : List NodeState)
    → P n
    → All P ms
    → P (most_free n ms)
unfolding most_free
All-most_free P n [] p ps = p
All-most_free P n (m ∷ ms) p ps = elim (Bool-cases (ltb (cpu_free_cores n) (cpu_free_cores m))) [
  | inl e ↦ rw (e, most_free) (All-most_free P m ms ps.0 ps.1)
  | inr e ↦ rw (e, most_free) (All-most_free P n ms p ps.1)
]

-- Ready, with room for the request.
abbrev pub HasRoom : Request → NodeState → Type 0
HasRoom q n =
    (n.ready ≡ true)
    × (q.cpu_request_cores ≤ cpu_free_cores n)
    × (q.memory_request_mib ≤ memory_free_mib n)
    × (q.gpu_request ≤ gpu_free n)

-- No node that is fit for the request has more free CPU.
abbrev pub IsGreatest : ClusterResourceSnapshot → Request → NodeState → Type 0
IsGreatest c q best =
    All (λ n. node_can_fit n q ≡ true → cpu_free_cores n ≤ cpu_free_cores best) c.nodes

node_can_fit_lem : (n : NodeState) (q : Request) → node_can_fit n q ≡ true → HasRoom q n
unfolding node_can_fit
node_can_fit_lem n q h = ground arith

-- Fit for the request, and no node that is fit for it has more free CPU.
abbrev IsBest : ClusterResourceSnapshot → Request → NodeState → Type 0
IsBest c q best = (node_can_fit best q ≡ true) × IsGreatest c q best

find_best_node-IsBest :
    (c : ClusterResourceSnapshot) (q : Request) (best : NodeState)
    → find_best_node c q ≡ some best
    → IsBest c q best
unfolding find_best_node
find_best_node-IsBest c q best e =
    let fits = λ (n : NodeState). node_can_fit n q in
    elim (List-cases (keep_if fits c.nodes)) [
      | inl empty ↦ cc (rw empty at e)
      | inr (n, ns, split) ↦
          let kept : All (λ m. fits m ≡ true) (n ∷ ns) = rw split at (All-keep_if fits c.nodes) in
          let greatest = most_free-greatest n ns in
          let same : most_free n ns ≡ best = some-injective (rw split at e) in
          subst (IsBest c q) same (
            All-most_free (λ m. fits m ≡ true) n ns kept.0 kept.1,
            All-of-keep_if fits (λ m. cpu_free_cores m ≤ cpu_free_cores (most_free n ns)) c.nodes
                (rw split greatest),
          )
    ]

find_best_node_lem :
    (c : ClusterResourceSnapshot) (q : Request) (best : NodeState)
    → find_best_node c q ≡ some best
    → HasRoom q best × IsGreatest c q best
find_best_node_lem c q best e =
    let r = find_best_node-IsBest c q best e in (node_can_fit_lem best q r.0, r.1)

-- In a connected cluster with a node inventory, a feasible request has a preferred node, which is
-- Ready and has room for the request, and no node that has room has more free CPU.
is_resource_feasible-find_best_node :
    (c : ClusterResourceSnapshot) (q : Request)
    → c.connected ≡ true
    → c.nodes ≢ []
    → is_resource_feasible c q ≡ true
    → (best : NodeState) × (find_best_node c q ≡ some best) × HasRoom q best × IsGreatest c q best
unfolding is_resource_feasible find_best_node
is_resource_feasible-find_best_node c q up nodes h =
    let (best, e) : (best : NodeState) × (find_best_node c q ≡ some best) =
      elim (List-cases (keep_if (λ n. node_can_fit n q) c.nodes)) [
        | inl empty ↦ absurd (ground (arith, empty))
        | inr (n, ns, split) ↦ (most_free n ns, rw split)
      ] in
    let (room, greatest) = find_best_node_lem c q best e in (best, e, room, greatest)
