-- ===== src/Controllers/Jobs/NewClaim/Keeps.antt =====
-- What the client of claims leaves alone, the making of a claim leaves alone.
use cita_node_operator.Base.{String, Option, none, some}
use cita_node_operator.Base.Hoare.{Keeps, keeps_rules}
use cita_node_operator.Kube.{NamespacedName, VolumeClaim, ResourceRequirements}
use cita_node_operator.Controllers.Jobs.{Resource}
use cita_node_operator.Controllers.Jobs.NewClaim.{
  Claims, must_parse, sized_resources, size_or_claim, make_claim,
}

must_parse-Keeps :
    {W : Type 0} {P : W → Type 0} (quantity : Option String) → Keeps P (must_parse quantity)
unfolding must_parse
must_parse-Keeps none = record { run = λ w h. h }
must_parse-Keeps (some quantity) = record { run = λ w h. h }

module _ {W S E : Type 0} {P : W → Type 0} (claims : Claims W S E) where
  pub sized_resources-Keeps : (size : String) → Keeps P (sized_resources claims size)
  unfolding sized_resources
  sized_resources-Keeps size = search (keeps_rules, must_parse-Keeps)

  pub size_or_claim-Keeps :
      ((k : NamespacedName) → Keeps P (claims.client.get k))
      → (size : String) (key : NamespacedName) → Keeps P (size_or_claim claims size key)
  unfolding size_or_claim
  size_or_claim-Keeps get_keeps size key = search (keeps_rules, sized_resources-Keeps, get_keeps)

  pub make_claim-Keeps :
      ((x : VolumeClaim) → Keeps P (claims.client.create x))
      → (r : Resource S E) (resources : ResourceRequirements) (storage_class : String)
      → Keeps P (make_claim claims r resources storage_class)
  unfolding make_claim
  make_claim-Keeps create_keeps r resources storage_class = search (keeps_rules, create_keeps)
