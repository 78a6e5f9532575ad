-- ===== src/Dispatch/Tick.antt =====
-- One tick of the loop of app/dispatch/service.py, with one reading of the clock. Statistics and
-- metrics are not modelled.
use green_shift.Dispatch.{
  claim_ready_jobs, recover_expired_claims, promote_scheduled_to_ready, ids_of,
}
use green_shift.Dispatch.Dispatcher.{
  System, Cluster, Call, K8sStatus, k8s_pending, k8s_running, dispatch_job, DispatchError,
  duplicate_execution,
}
use green_shift.Dispatch.Refresh.{StatusAnswer, refresh_job_status}
use green_shift.Prelude.Result.{Result, err}
use green_shift.Prelude.{
  ℕ, Bool, true, false, String, Option, none, some, List, [], ◌∷◌, ◌++◌, map, keep_if,
}

-- CLAIM_BATCH_SIZE
abbrev pub claim_batch_size : ℕ
claim_batch_size = 50

-- A failed commit, of which nothing is rolled back, leaves the session unusable.
abbrev pub breaks_session : Result DispatchError (Unit {0}) → Bool
breaks_session (err duplicate_execution) = true
breaks_session _ = false

abbrev pub go_on : Bool → System → List Call → System × List Call × Bool → System × List Call × Bool
go_on true t calls rest = (t, calls, true)
go_on false t calls (u, more, broken) = (u, calls ++ more, broken)

-- Whatever a dispatch raises is logged, and the loop goes on, unless the session is unusable: then
-- the tick ends there, which the flag tells.
unfoldable pub dispatch_each :
    ℕ → (String → Cluster) → List String → System → System × List Call × Bool
dispatch_each now clusters [] s = (s, [], false)
dispatch_each now clusters (id ∷ ids) s =
    let (t, calls, outcome) = dispatch_job now none (clusters id) id s in
    go_on (breaks_session outcome) t calls (dispatch_each now clusters ids t)

abbrev pub prepared : ℕ → System → System
prepared now s = record s {
  jobs = promote_scheduled_to_ready now (recover_expired_claims now s.jobs);
}

-- Steps 1 to 4: recover, promote, claim, dispatch.
unfoldable pub dispatch_stage :
    String → List String → ℕ → (String → Cluster) → System → System × List Call × Bool
dispatch_stage worker locked now clusters s =
    let t = prepared now s in
    let (jobs, batch) = claim_ready_jobs worker locked claim_batch_size now t.jobs in
    dispatch_each now clusters (ids_of batch) (record t { jobs = jobs })

abbrev pub is_active : Option K8sStatus → Bool
is_active (some k8s_pending) = true
is_active (some k8s_running) = true
is_active _ = false

-- `_get_active_executions`, by the jobs they belong to.
unfoldable pub get_active_executions : System → List String
get_active_executions s = map (λ e. e.0) (keep_if (λ e. is_active e.1.k8s_status) s.executions)

unfoldable pub refresh_each : ℕ → (String → StatusAnswer) → List String → System → System
refresh_each now answers [] s = s
refresh_each now answers (id ∷ ids) s =
    refresh_each now answers ids (refresh_job_status now (answers id) id s)

abbrev pub refreshed_unless : Bool → System → List Call → System → System × List Call
refreshed_unless true t calls refreshed = (t, calls)
refreshed_unless false t calls refreshed = (refreshed, calls)

unfoldable pub dispatch_loop_tick :
    String
    → List String
    → ℕ
    → (String → Cluster)
    → (String → StatusAnswer)
    → System
    → System × List Call
dispatch_loop_tick worker locked now clusters answers s =
    let (t, calls, broken) = dispatch_stage worker locked now clusters s in
    refreshed_unless broken t calls (refresh_each now answers (get_active_executions t) t)
