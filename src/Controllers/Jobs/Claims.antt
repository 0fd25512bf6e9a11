-- ===== src/Controllers/Jobs/Claims.antt =====
-- What the makers of jobs share about claims of volumes and sizes: the claim of a node's data, and
-- the size that a job wrote to the annotations of its pod.
pub mod Keeps
use cita_node_operator.Base.{String, ◌==◌, Option, none, some, Exec, message, if◌then◌else◌}
use cita_node_operator.Base.Effects.{pure, raise, lift, ◌>>=◌}
use cita_node_operator.Base.Int.{ℤ}
use cita_node_operator.Base.Text.Decimal.{parse_int}
use cita_node_operator.Kube.{Pod, Workload, Api}
use cita_node_operator.Controllers.Jobs.{Resource, Job, data_claim}
use cita_node_operator.Controllers.Jobs.Reconcile.{annotation, job_pod}

module _ {W : Type 0} where
  claim_or_error : String → Exec W String
  claim_or_error claim =
      if claim == "" then raise (message "cann't get deployment's pvc") else pure claim

  -- The claim of a Deployment's data, which is to be there.
  unfoldable pub required_claim : Workload → Exec W String
  unfolding claim_or_error
  required_claim deployment = data_claim deployment.spec.volumes >>= claim_or_error

  -- `strconv.ParseInt(podList.Items[0].Annotations[name], 10, 64)`, with the pod: none where there
  -- is not one pod.
  sized : String → Option Pod → Exec W (Option (ℤ × Pod))
  sized name none = pure none
  sized name (some pod) = do size ← lift (parse_int (annotation name pod)); pure (some (size, pod))

  unfoldable pub size_from_pod :
      {S E : Type 0} → Api W → String → Resource S E → Job → Exec W (Option (ℤ × Pod))
  unfolding sized
  size_from_pod api name r job = do
    pod ← job_pod api r.key.namespace r.key.name job.uid
    sized name pod
