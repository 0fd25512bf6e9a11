-- ===== src/Controllers/Jobs/NewClaim.antt =====
-- The claim of a new volume that a backup and a snapshot make for what they write
-- (controllers/backup_controller.go and snapshot_controller.go).
pub mod Keeps
pub mod Stuck
use cita_node_operator.Base.{
  String, ◌==◌, Option, none, some, List, [], ◌∷◌, Exec, Result, if◌then◌else◌,
}
use cita_node_operator.Base.Effects.{pure, panic, lift, ◌>>=◌}
use cita_node_operator.Kube.{NamespacedName, VolumeClaim, ResourceRequirements}
use cita_node_operator.Controllers.Objects.{Client}
use cita_node_operator.Controllers.Jobs.{Resource}

-- The client of claims, and what is called of other libraries: `resource.ParseQuantity` and
-- `SetControllerReference`.
pub record Claims (W S E : Type 0) : Type 0 where
  pub client : Client W VolumeClaim
  pub parse_quantity : String → Option String
  pub set_claim_reference : Resource S E → VolumeClaim → Result VolumeClaim

-- The resources of the template `datadir`: none where there is no such template.
unfoldable pub template_resources : List VolumeClaim → ResourceRequirements
template_resources [] = record { limits = []; requests = [] }
template_resources (pvc ∷ pvcs) =
    if pvc.key.name == "datadir" then pvc.resources else template_resources pvcs

-- `destPVC`
abbrev pub new_claim : NamespacedName → ResourceRequirements → String → VolumeClaim
new_claim key resources storage_class = record {
  key = key;
  access_modes = "ReadWriteOnce" ∷ [];
  resources = resources;
  storage_class = storage_class;
  owner = none;
}

-- `resource.MustParse`
unfoldable pub must_parse : {W : Type 0} → Option String → Exec W String
must_parse none = panic "cannot parse quantity"
must_parse (some quantity) = pure quantity

module _ {W S E : Type 0} (claims : Claims W S E) where
  -- The requests of a size that is given.
  unfoldable pub sized_resources : String → Exec W ResourceRequirements
  unfolding must_parse
  sized_resources size = do
    quantity ← must_parse (claims.parse_quantity size)
    pure (record { limits = []; requests = ("storage", quantity) ∷ [] })

  -- The size that is given, or that of another claim.
  unfoldable pub size_or_claim : String → NamespacedName → Exec W ResourceRequirements
  unfolding sized_resources
  size_or_claim size key =
      if size == ""
      then (do pvc ← claims.client.get key; pure pvc.resources)
      else sized_resources size

  -- The claim is made, with its owner.
  unfoldable pub make_claim : Resource S E → ResourceRequirements → String → Exec W Unit
  make_claim r resources storage_class = do
    owned ← lift (claims.set_claim_reference r (new_claim r.key resources storage_class))
    claims.client.create owned
