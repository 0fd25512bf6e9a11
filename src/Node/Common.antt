-- ===== src/Node/Common.antt =====
-- What the kinds of nodes share: the names of actions and deploy methods, the mount paths, the
-- stop and start around an operation, and the annotations of the job's pod.
use cita_node_operator.Base.{String, ◌==◌, Dict, Exec, Result, err, not_exist}
use cita_node_operator.Base.Effects.{pure, ◌>>=◌, ◌>>◌, try, when}
use cita_node_operator.Host.{Host}
use cita_node_operator.Kube.{Api}

-- `Action` and `DeployMethod` are strings, and an object may hold any.
abbrev pub Action : Type 0
Action = String

abbrev pub stop_and_start : Action
stop_and_start = "StopAndStart"

abbrev pub direct : Action
direct = "Direct"

abbrev pub DeployMethod : Type 0
DeployMethod = String

abbrev pub python_operator : DeployMethod
python_operator = "python"

abbrev pub helm : DeployMethod
helm = "helm"

abbrev pub cloud_config : DeployMethod
cloud_config = "cloud-config"

-- Where the volumes are mounted in the job's container (api/v1).
abbrev pub config_mount_path : String
config_mount_path = "/cita-config"

abbrev pub volume_mount_path : String
volume_mount_path = "/mnt"

abbrev pub backup_source_volume_path : String
backup_source_volume_path = "/backup-source"

abbrev pub backup_dest_volume_path : String
backup_dest_volume_path = "/backup-dest"

abbrev pub restore_source_volume_path : String
restore_source_volume_path = "/restore-source"

abbrev pub restore_dest_volume_path : String
restore_dest_volume_path = "/restore-dest"

abbrev pub change_owner_volume_path : String
change_owner_volume_path = "/change-owner"

-- `if action == StopAndStart { Stop; CheckStopped }; body; if action == StopAndStart { Start }`
unfoldable pub around :
    {S : Type 0} → Action → Exec S Unit → Exec S Unit → Exec S Unit → Exec S Unit → Exec S Unit
around action stop check_stopped start body = do
  when (action == stop_and_start) (stop >> check_stopped)
  body
  when (action == stop_and_start) start

module _ {W : Type 0} (host : Host W) where
  unfoldable pub make_if_absent : String → Result (Unit {0}) → Exec W Unit
  make_if_absent path (err not_exist) = host.mkdir_all path
  make_if_absent path _ = pure tt

  -- `if _, err := os.Stat(path); os.IsNotExist(err) { os.MkdirAll(path) }`
  unfoldable pub ensure_dir : String → Exec W Unit
  unfolding make_if_absent
  ensure_dir path = do found ← try (host.stat path); make_if_absent path found

-- `AddAnnotations`: they replace those of the pod that runs this job.
unfoldable pub add_annotations : {W : Type 0} → Api W → Dict String → Exec W Unit
add_annotations api annotations = do
  pod ←
      api.get_pod
        (record { namespace = api.getenv "MY_POD_NAMESPACE"; name = api.getenv "MY_POD_NAME" })
  api.update_pod (record pod { annotations = annotations })
