-- ===== src/Controllers/Jobs/Describes.antt =====
-- What a job says to the cluster, read off the job: whose it is, what it runs, and what it finds at
-- which path.
use cita_node_operator.Base.{
  String, ◌==◌, ◌≡◌, refl, Bool, true, false, Option, none, some, List, [], ◌∷◌, Dict,
  if◌then◌else◌,
}
use cita_node_operator.Base.Hoare.{Triple-map}
use cita_node_operator.Kube.{NamespacedName, Volume, VolumeMount, Container}
use cita_node_operator.Controllers.Jobs.{Resource, Job, node_job, job_container}
use cita_node_operator.Controllers.Labels.{Affinity}
use cita_node_operator.Controllers.Jobs.Reconcile.{Operator, Kind}
use cita_node_operator.Controllers.Jobs.Reconcile.Transitions.{OperatorLaws, KindLaws}

pub true-not_false : {p : Bool} → p ≡ true → p ≡ false → ⊥
true-not_false h k = cc

-- What is mounted.
pub data Mounted : Type 0 where
  the_claim : String → Mounted
  the_config_map : String → Mounted
  nothing : Mounted

abbrev pub mounted_of : Option String → Option String → Mounted
mounted_of (some claim) config_map = the_claim claim
mounted_of none (some config_map) = the_config_map config_map
mounted_of none none = nothing

-- The first volume of the name.
abbrev pub volume_of : String → List Volume → Mounted
volume_of name [] = nothing
volume_of name (v ∷ volumes) =
    if v.name == name then mounted_of v.claim_name v.config_map else volume_of name volumes

-- The paths of a container with what is mounted there.
abbrev pub paths_of : List Volume → List VolumeMount → List (String × Mounted)
paths_of volumes [] = []
paths_of volumes (m ∷ mounts) = (m.mount_path, volume_of m.name volumes) ∷ paths_of volumes mounts

-- A job of the resource under `key`: it belongs to the resource and has its name, it runs one
-- container once, with the image, the subcommand and the mounted paths that are told.
pub record JobFor (key : NamespacedName) (image subcommand : String)
    (paths : List (String × Mounted)) (job : Job) : Type 0 where
  pub key_is : job.key ≡ key
  pub owner_is : job.owner ≡ some key.name
  pub account_is : job.service_account_name ≡ "cita-node-job"
  pub tried_once : job.backoff_limit ≡ 0
  pub not_restarted : job.restart_policy ≡ "Never"
  pub container : Container
  pub one_container : job.containers ≡ container ∷ []
  pub image_is : container.image ≡ image
  pub command_is : container.command ≡ "/cita-node-cli" ∷ []
  pub words : List String
  pub args_are : container.args ≡ subcommand ∷ words
  pub paths_are : paths_of job.volumes container.volume_mounts ≡ paths

-- The jobs that the reconcilers make, with their owner.
pub node_job-JobFor :
    {key : NamespacedName} {labels : Dict String} {affinity : Affinity}
    {image pull_policy subcommand : String} {words : List String} {mounts : List VolumeMount}
    {volumes : List Volume} {paths : List (String × Mounted)}
    → paths_of volumes mounts ≡ paths
    → JobFor key image subcommand paths
        (record (node_job key labels affinity
          (job_container image pull_policy (subcommand ∷ words) mounts)
          volumes) { owner = some key.name })
node_job-JobFor e = record {
  key_is = refl;
  owner_is = refl;
  account_is = refl;
  tried_once = refl;
  not_restarted = refl;
  container = _;
  one_container = refl;
  image_is = refl;
  command_is = refl;
  words = _;
  args_are = refl;
  paths_are = e;
}

module _ {W S E C : Type 0} {op : Operator W S E} {L : OperatorLaws op} {kind : Kind W S E C}
    {Made Makes : Resource S E → Job → Type 0} where
  -- The laws of a kind with another description of its jobs.
  pub KindLaws-map :
      ((r : Resource S E) (job : Job) → Made r job → Makes r job)
      → ((r : Resource S E) (job : Job) → Makes r job → job.key ≡ r.key)
      → KindLaws L kind Made
      → KindLaws L kind Makes
  KindLaws-map f key K = record {
    check_keeps = K.check_keeps;
    guard_keeps = K.guard_keeps;
    job_law = λ c checked r.
        Triple-map (K.job_law c checked r) (λ job w h. (h.0, f r job h.1)) (λ w h. h);
    result_keeps = K.result_keeps;
    made_key = key;
  }
