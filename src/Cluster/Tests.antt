-- ===== src/Cluster/Tests.antt =====
-- Two nodes, and the theorems at them.
use green_shift.Cluster.{
  NodeState, Request, ClusterResourceSnapshot, healthy, node_can_fit, is_resource_feasible,
  find_best_node, most_free,
}
use green_shift.Prelude.{◌≡◌, refl, true, some, [], ◌∷◌}

abbrev small : NodeState
small = record {
  ready = true;
  cpu_allocatable_cores = 2_000_000_000;
  memory_allocatable_mib = 4_096_000_000_000;
  gpu_allocatable = 0;
  cpu_used_cores = 1_000_000_000;
  memory_used_mib = 0;
  gpu_used = 0;
}

abbrev large : NodeState
large = record small { cpu_allocatable_cores = 8_000_000_000 }

abbrev cluster : ClusterResourceSnapshot
cluster = record {
  connected = true;
  cluster_health = healthy;
  free_cpu_cores = 8_000_000_000;
  free_memory_mib = 8_192_000_000_000;
  free_gpus = 0;
  nodes = small ∷ large ∷ [];
}

abbrev half_core : Request
half_core = record {
  cpu_request_cores = 500_000_000;
  memory_request_mib = 512_000_000_000;
  gpu_request = 0;
}

best_is_large : find_best_node cluster half_core ≡ some large
unfolding find_best_node node_can_fit most_free
best_is_large = refl

fits : is_resource_feasible cluster half_core ≡ true
unfolding is_resource_feasible node_can_fit
fits = refl
