-- ===== src/Controllers/Fallback/Defaults.antt =====
-- The defaults of a fallback are set once.
use cita_node_operator.Base.{◌≡◌, refl, false}
use cita_node_operator.Controllers.Jobs.{completed}
use cita_node_operator.Controllers.Jobs.Defaults.{
  action_again, image_again, policy_again, ttl_again, IsComplete, completed-IsComplete,
}
use cita_node_operator.Controllers.Fallback.{FallbackSpec, BlockHeightFallback, set_default_spec}

set_default_spec_again :
    (spec : FallbackSpec)
    → set_default_spec (set_default_spec spec).1 ≡ (false, (set_default_spec spec).1)
unfolding set_default_spec
set_default_spec_again spec =
    rw
      (
        action_again spec.action,
        image_again spec.image,
        policy_again spec.pull_policy,
        ttl_again spec.ttl_seconds_after_finished,
      )
      refl

-- A fallback with its defaults has nothing to be written: neither its specification nor its status
-- asks for an update, and completing it again changes nothing.
pub completed_again :
    (b : BlockHeightFallback) → IsComplete set_default_spec (completed set_default_spec b)
completed_again b = completed-IsComplete set_default_spec set_default_spec_again b
