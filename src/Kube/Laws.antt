-- ===== src/Kube/Laws.antt =====
-- What the documentation of the client promises, where no other client writes at the same time:
-- a read returns the stored specification and changes nothing, a write stores the object that it
-- is given, and a write that fails may have stored it or not. The status belongs to the cluster.
use cita_node_operator.Base.{◌⊎◌, ℕ, String, ◌≡◌, Bool, true, Option, some, Exec, if◌then◌else◌}
use cita_node_operator.Base.Hoare.{Triple, Keeps}
use cita_node_operator.Kube.{NamespacedName, same_key, WorkloadSpec, Workload, Api}

abbrev pub Specs : Type 0
Specs = NamespacedName → Option WorkloadSpec

abbrev pub store_at : NamespacedName → WorkloadSpec → Specs → Specs
store_at k x f j = if same_key k j then some x else f j

-- `Specs` of one kind of workload, with its two operations.
pub record WorkloadLaws {W : Type 0} (get : NamespacedName → Exec W Workload)
    (update : Workload → Exec W Unit) (specs : W → Specs) : Type 0 where
  pub get_law :
      (f : Specs) (k : NamespacedName)
      → Triple
          (λ w. specs w ≡ f)
          (get k)
          (λ x w. (specs w ≡ f) × (f k ≡ some x.spec) × (x.key ≡ k))
          (λ w. specs w ≡ f)
  pub update_law :
      (f : Specs) (x : Workload)
      → Triple
          (λ w. specs w ≡ f)
          (update x)
          (λ _ w. specs w ≡ store_at x.key x.spec f)
          (λ w. (specs w ≡ f) ⊎ (specs w ≡ store_at x.key x.spec f))

pub record ApiLaws {W : Type 0} (api : Api W) : Type 1 where
  pub stateful_sets : W → Specs
  pub deployments : W → Specs
  pub stateful_set_laws : WorkloadLaws api.get_stateful_set api.update_stateful_set stateful_sets
  pub deployment_laws : WorkloadLaws api.get_deployment api.update_deployment deployments
  -- The ready replicas of a StatefulSet, as the last read saw them.
  pub ready_replicas : W → NamespacedName → ℕ
  pub ready_replicas_law :
      (k : NamespacedName)
      → Triple
          (λ _. Unit)
          (api.get_stateful_set k)
          (λ x w. ready_replicas w k ≡ x.status.ready_replicas)
          (λ _. Unit)
  -- A write of one kind, and the other calls, leave the specifications alone.
  pub get_stateful_set_keeps :
      (f : Specs) (k : NamespacedName) → Keeps (λ w. deployments w ≡ f) (api.get_stateful_set k)
  pub list_pods_keeps :
      (f : Specs) (n : String) (l : _) → Keeps (λ w. deployments w ≡ f) (api.list_pods n l)
  pub get_pod_keeps :
      (f : Specs) (k : NamespacedName) → Keeps (λ w. stateful_sets w ≡ f) (api.get_pod k)
  pub update_pod_keeps : (f : Specs) (p : _) → Keeps (λ w. stateful_sets w ≡ f) (api.update_pod p)
  pub get_pod_keeps_too :
      (f : Specs) (k : NamespacedName) → Keeps (λ w. deployments w ≡ f) (api.get_pod k)
  pub update_pod_keeps_too : (f : Specs) (p : _) → Keeps (λ w. deployments w ≡ f) (api.update_pod p)
  -- `RetryOnConflict` ends as its last attempt did; a failed attempt may be followed by another.
  pub retry_law :
      (P Q : W → Type 0) (m : Exec W Unit)
      → Triple P m (λ _. Q) P
      → Triple P (api.retry_on_conflict m) (λ _. Q) P
  -- `Poll` runs the condition, waits and runs it again, until it is true or fails or the time is
  -- up. A wait changes no specification.
  pub poll_law :
      (Q : W → Type 0) (interval timeout : ℕ) (c : Exec W Bool) (f : Specs)
      → Triple
          (λ w. stateful_sets w ≡ f)
          c
          (λ b w. (stateful_sets w ≡ f) × (b ≡ true → Q w))
          (λ w. stateful_sets w ≡ f)
      → Triple
          (λ w. stateful_sets w ≡ f)
          (api.poll interval timeout c)
          (λ _ w. (stateful_sets w ≡ f) × Q w)
          (λ w. stateful_sets w ≡ f)
  pub poll_deployment_law :
      (Q : W → Type 0) (interval timeout : ℕ) (c : Exec W Bool) (f : Specs)
      → Triple
          (λ w. deployments w ≡ f)
          c
          (λ b w. (deployments w ≡ f) × (b ≡ true → Q w))
          (λ w. deployments w ≡ f)
      → Triple
          (λ w. deployments w ≡ f)
          (api.poll interval timeout c)
          (λ _ w. (deployments w ≡ f) × Q w)
          (λ w. deployments w ≡ f)
