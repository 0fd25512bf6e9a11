-- ===== src/Controllers/Jobs/NewClaim/Stuck.antt =====
-- A claim that is there is not made again.
use cita_node_operator.Base.{String, ◌≡◌, sym, ap, ◌∙◌, inl, inr, some, none, ok}
use cita_node_operator.Base.Hoare.{
  Triple, Triple-bind, Triple-map, Triple-lift, Triple-uncaught, Keeps,
}
use cita_node_operator.Kube.{NamespacedName, VolumeClaim, ResourceRequirements}
use cita_node_operator.Controllers.Objects.{Objects, Place, ClientLaws}
use cita_node_operator.Controllers.Jobs.{Resource}
use cita_node_operator.Controllers.Jobs.NewClaim.{Claims, new_claim, make_claim}

abbrev pub claims_place : Place (Objects VolumeClaim) VolumeClaim
claims_place = record {
  objects = λ c. c;
  store = λ f _. f;
  key_of = λ x. x.key;
  on_update = λ old x. x;
  on_status = λ old x. old;
}

-- `SetControllerReference` sets the owner and nothing else.
pub record ClaimsLaws {W S E : Type 0} (claims : Claims W S E) : Type 1 where
  pub stored : W → Objects VolumeClaim
  pub client_laws : ClientLaws claims.client stored claims_place
  pub claim_reference_law :
      (r : Resource S E) (claim owned : VolumeClaim)
      → claims.set_claim_reference r claim ≡ ok owned
      → owned ≡ record claim { owner = some r.key.name }

some-none :
    {x : VolumeClaim} (f : Objects VolumeClaim) (k : NamespacedName) → f k ≡ some x → f k ≡ none → ⊥
some-none f k p q = cc

module _ {W S E : Type 0} {claims : Claims W S E} (L : ClaimsLaws claims) where
  pub get-Keeps :
      (f : Objects VolumeClaim) (k : NamespacedName)
      → Keeps (λ w. L.stored w ≡ f) (claims.client.get k)
  get-Keeps f k =
      Triple-map
        (Triple-uncaught {F = λ w. L.stored w ≡ f} (L.client_laws.get_law f k) (λ _ w h. h.0)
          (λ w h. h))
        (λ _ w h. h.0) (λ w h. h)

  pub make_claim-stuck :
      (f : Objects VolumeClaim) (r : Resource S E) (x : VolumeClaim)
      → f r.key ≡ some x
      → (resources : ResourceRequirements) (storage_class : String)
      → Triple
          (λ w. L.stored w ≡ f)
          (make_claim claims r resources storage_class)
          (λ _ _. ⊥)
          (λ w. L.stored w ≡ f)
  unfolding make_claim
  make_claim-stuck f r x there resources storage_class =
      Triple-bind {R = λ owned w. (L.stored w ≡ f) × (owned.key ≡ r.key)}
        (Triple-lift (claims.set_claim_reference r (new_claim r.key resources storage_class))
          (λ owned e w h. (
            h,
            ap (λ (o : VolumeClaim). o.key)
                (L.claim_reference_law r (new_claim r.key resources storage_class) owned e),
          ))
          (λ w h. h))
        λ owned. record {
          run = λ w h.
              (Triple-map (L.client_laws.create_law f owned)
                  (λ _ v made. some-none f r.key there (sym (ap f h.1) ∙ made.0))
                  (λ v e. elim e [
                    | inl same ↦ same
                    | inr made ↦ absurd (some-none f r.key there (sym (ap f h.1) ∙ made.0))
                  ])).run
                w h.0;
        }
