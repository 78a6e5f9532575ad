-- ===== src/Cluster.antt =====
-- app/dispatch/k8s_state_collector.py: node states, the cluster snapshot, and whether a workload
-- fits. CPU cores and MiB are numbers of nano units. How the snapshot is collected is not modelled.
pub mod Feasible
mod Tests
use green_shift.Prelude.{
  ℕ, ◌-◌, Bool, true, false, not, ◌&&◌, Option, none, some, List, [], ◌∷◌, if◌then◌else◌, ltb,
  keep_if,
}

pub record NodeState : Type 0 where
  pub ready : Bool
  pub cpu_allocatable_cores : ℕ
  pub memory_allocatable_mib : ℕ
  pub gpu_allocatable : ℕ
  pub cpu_used_cores : ℕ
  pub memory_used_mib : ℕ
  pub gpu_used : ℕ

-- `max(0, allocatable - used)`: subtraction stops at 0.
abbrev pub cpu_free_cores : NodeState → ℕ
cpu_free_cores n = n.cpu_allocatable_cores - n.cpu_used_cores

abbrev pub memory_free_mib : NodeState → ℕ
memory_free_mib n = n.memory_allocatable_mib - n.memory_used_mib

abbrev pub gpu_free : NodeState → ℕ
gpu_free n = n.gpu_allocatable - n.gpu_used

pub record Request : Type 0 where
  pub cpu_request_cores : ℕ
  pub memory_request_mib : ℕ
  pub gpu_request : ℕ

unfoldable pub node_can_fit : NodeState → Request → Bool
node_can_fit n q =
    if not n.ready
    then false
    else if ltb (cpu_free_cores n) q.cpu_request_cores
    then false
    else if ltb (memory_free_mib n) q.memory_request_mib
    then false
    else if ltb 0 q.gpu_request && ltb (gpu_free n) q.gpu_request
    then false
    else true

pub data Health : Type 0 where
  healthy degraded simulated disconnected : Health

abbrev is_simulated : Health → Bool
is_simulated simulated = true
is_simulated _ = false

pub record ClusterResourceSnapshot : Type 0 where
  pub connected : Bool
  pub cluster_health : Health
  pub free_cpu_cores : ℕ
  pub free_memory_mib : ℕ
  pub free_gpus : ℕ
  pub nodes : List NodeState

-- The three aggregate checks, which come first in both cases.
abbrev aggregate_fits : ClusterResourceSnapshot → Request → Bool
aggregate_fits c q =
    if ltb c.free_cpu_cores q.cpu_request_cores
    then false
    else if ltb c.free_memory_mib q.memory_request_mib
    then false
    else if ltb 0 q.gpu_request && ltb c.free_gpus q.gpu_request
    then false
    else true

abbrev is_empty {ℓ} : {A : Type ℓ} → List A → Bool
is_empty [] = true
is_empty (x ∷ xs) = false

-- The Boolean of the pair that `is_resource_feasible` returns; its message is not modelled.
unfoldable pub is_resource_feasible : ClusterResourceSnapshot → Request → Bool
is_resource_feasible c q =
    if not c.connected && not (is_simulated c.cluster_health)
    then true
    else if is_empty c.nodes
    then aggregate_fits c q
    else if aggregate_fits c q
    then not (is_empty (keep_if (λ n. node_can_fit n q) c.nodes))
    else false

-- `max` with a key returns the first of the greatest.
pub most_free : NodeState → List NodeState → NodeState
most_free n [] = n
most_free n (m ∷ ms) = most_free (if ltb (cpu_free_cores n) (cpu_free_cores m) then m else n) ms

abbrev best_of : List NodeState → Option NodeState
best_of [] = none
best_of (n ∷ ns) = some (most_free n ns)

unfoldable pub find_best_node : ClusterResourceSnapshot → Request → Option NodeState
find_best_node c q = best_of (keep_if (λ n. node_can_fit n q) c.nodes)
