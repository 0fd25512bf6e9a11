-- ===== src/Controllers/Jobs/Defaults.antt =====
-- The defaults of a resource are set once.
use cita_node_operator.Base.{String, ◌==◌, ◌≡◌, refl, Bool, true, false, some}
use cita_node_operator.Base.{ap}
use cita_node_operator.Base.Int.{ℤ, pos}
use cita_node_operator.Node.Common.{Action, stop_and_start}
use cita_node_operator.Controllers.Jobs.{
  ResourceStatus, Resource, or_else, is_none, is_zero, job_active, default_image, default_action,
  image_or_default, default_pull_policy, default_ttl, set_default_status, completed,
}

-- What is given after a default has been put in is kept by the same test.
pub or_else_again :
    {A : Type 0} (test : A → Bool) (default given : A)
    → test default ≡ false
    → let first = or_else (test given) default given in
      or_else (test first.1) default first.1 ≡ (false, first.1)
or_else_again test default given keeps = go (test given) refl
  where
    go :
        (b : Bool)
        → test given ≡ b
        → let first = or_else b default given in
          or_else (test first.1) default first.1 ≡ (false, first.1)
    go true e = rw keeps refl
    go false e = rw e refl

pub action_again :
    (s : Action) → default_action (default_action s).1 ≡ (false, (default_action s).1)
action_again s = or_else_again (λ t. t == "") stop_and_start s refl

pub image_again :
    (s : String) → image_or_default (image_or_default s).1 ≡ (false, (image_or_default s).1)
image_again s = or_else_again (λ t. t == "") default_image s refl

pub policy_again :
    (s : String)
    → default_pull_policy (default_pull_policy s).1 ≡ (false, (default_pull_policy s).1)
policy_again s = or_else_again (λ t. t == "") "IfNotPresent" s refl

pub ttl_again : (n : ℤ) → default_ttl (default_ttl n).1 ≡ (false, (default_ttl n).1)
ttl_again n = or_else_again is_zero (pos 30) n refl

module _ {S E : Type 0} where
  set_default_status_again :
      (r : Resource S E)
      → let defaulted = record r { status = (set_default_status r).1 } in
        set_default_status defaulted ≡ (false, defaulted.status)
  unfolding set_default_status
  set_default_status_again r =
      rw
        (
          or_else_again (λ s. s == "") job_active r.status.status refl,
          or_else_again is_none (some r.creation_timestamp) r.status.start_time refl,
        )
        refl

  -- Nothing is to be written of a resource, and completing it changes nothing.
  abbrev pub IsComplete : (S → Bool × S) → Resource S E → Type 0
  IsComplete set_default_spec r =
      ((set_default_spec r.spec).0 ≡ false)
      × ((set_default_status r).0 ≡ false)
      × (completed set_default_spec r ≡ r)

  pub completed-IsComplete :
      (set_default_spec : S → Bool × S)
      → ((s : S) → set_default_spec (set_default_spec s).1 ≡ (false, (set_default_spec s).1))
      → (r : Resource S E) → IsComplete set_default_spec (completed set_default_spec r)
  completed-IsComplete set_default_spec again r =
      let defaulted = record r { spec = (set_default_spec r.spec).1 } in
      (
        ap (λ (p : Bool × S). p.0) (again r.spec),
        ap (λ (p : Bool × ResourceStatus E). p.0) (set_default_status_again defaulted),
        rw (again r.spec, set_default_status_again defaulted) refl,
      )
