-- ===== src/Controllers/Fallback/Job/Found.antt =====
-- controllers/blockheightfallback_controller.go: what filterCryptoAndConsensus finds, by an
-- independent description.
use cita_node_operator.Base.{
  String, ◌==◌, ◌||◌, ◌≡◌, refl, sym, ap, ◌∙◌, ◌⊎◌, inl, inr, eq_iff, true, false, List, [], ◌∷◌,
  if◌then◌else◌, Bool-cases,
}
use cita_node_operator.Base.Text.{contains}
use cita_node_operator.Base.{some, Dict, Exec, Result, ok}
use cita_node_operator.Base.Hoare.{Triple, Triple-bind, Triple-lift, Triple-pure, Keeps, Keeps-pure}
use cita_node_operator.Kube.{Container, Workload, Volume, Api}
use cita_node_operator.Controllers.Labels.{get_node_label_key_by_type}
use cita_node_operator.Controllers.Jobs.{Job, beside}
use cita_node_operator.Controllers.Fallback.{BlockHeightFallback}
use cita_node_operator.Controllers.Fallback.Job.{
  filter_step, filter_from, filter_crypto_and_consensus, new_job, get_volumes,
  get_crypto_and_consensus, job_for,
}

-- What one image says, if anything: the first of the words that it contains.
abbrev pub first_word : List String → String → String
first_word [] image = ""
first_word (word ∷ words) image = if contains image word then word else first_word words image

abbrev pub crypto_said : Container → String
crypto_said c =
    if c.name == "crypto" || c.name == "kms" then first_word ("sm" ∷ "eth" ∷ []) c.image else ""

abbrev pub consensus_said : Container → String
consensus_said c =
    if c.name == "consensus" then first_word ("bft" ∷ "raft" ∷ "overlord" ∷ []) c.image else ""

-- The first text, where the second is empty.
abbrev pub or_given : String → String → String
or_given given later = if later == "" then given else later

-- What the last container says that says something.
abbrev pub last_said : (Container → String) → List Container → String
last_said said [] = ""
last_said said (c ∷ containers) = or_given (said c) (last_said said containers)

or_given_again :
    (a own later : String) → or_given (or_given a own) later ≡ or_given a (or_given own later)
or_given_again a own later = elim (Bool-cases (later == "")) [
  | inl e ↦ rw e refl
  | inr e ↦ rw (e, e) refl
]

crypto_words :
    (image crypto : String)
    → (if contains image "sm" then "sm" else if contains image "eth" then "eth" else crypto)
      ≡ or_given crypto (first_word ("sm" ∷ "eth" ∷ []) image)
crypto_words image crypto =
    go (Bool-cases (contains image "sm")) (Bool-cases (contains image "eth"))
  where
    go :
        (contains image "sm" ≡ true) ⊎ (contains image "sm" ≡ false)
        → (contains image "eth" ≡ true) ⊎ (contains image "eth" ≡ false)
        → (if contains image "sm" then "sm" else if contains image "eth" then "eth" else crypto)
          ≡ or_given crypto (first_word ("sm" ∷ "eth" ∷ []) image)
    go (inl a) _ = rw a refl
    go (inr a) (inl b) = rw (a, b) refl
    go (inr a) (inr b) = rw (a, b) refl

consensus_words :
    (image consensus : String)
    → (if contains image "bft"
        then "bft"
        else if contains image "raft"
        then "raft"
        else if contains image "overlord"
        then "overlord"
        else consensus)
      ≡ or_given consensus (first_word ("bft" ∷ "raft" ∷ "overlord" ∷ []) image)
consensus_words image consensus =
    go (Bool-cases (contains image "bft")) (Bool-cases (contains image "raft"))
      (Bool-cases (contains image "overlord"))
  where
    go :
        (contains image "bft" ≡ true) ⊎ (contains image "bft" ≡ false)
        → (contains image "raft" ≡ true) ⊎ (contains image "raft" ≡ false)
        → (contains image "overlord" ≡ true) ⊎ (contains image "overlord" ≡ false)
        → (if contains image "bft"
            then "bft"
            else if contains image "raft"
            then "raft"
            else if contains image "overlord"
            then "overlord"
            else consensus)
          ≡ or_given consensus (first_word ("bft" ∷ "raft" ∷ "overlord" ∷ []) image)
    go (inl a) _ _ = rw a refl
    go (inr a) (inl b) _ = rw (a, b) refl
    go (inr a) (inr b) (inl d) = rw (a, b, d) refl
    go (inr a) (inr b) (inr d) = rw (a, b, d) refl

other_name :
    (name : String) → (name == "crypto" || name == "kms") ≡ true → (name == "consensus") ≡ true → ⊥
other_name name e f =
    no (ap (λ (s : String). s == "crypto" || s == "kms") (sym ((eq_iff name "consensus").0 f)) ∙ e)
  where
    no : false ≡ true → ⊥
    no h = cc

step_lem :
    (crypto consensus : String) (c : Container)
    → filter_step (crypto, consensus) c
      ≡ (or_given crypto (crypto_said c), or_given consensus (consensus_said c))
unfolding filter_step
step_lem crypto consensus c =
    go (Bool-cases (c.name == "crypto" || c.name == "kms")) (Bool-cases (c.name == "consensus"))
  where
    go :
        ((c.name == "crypto" || c.name == "kms") ≡ true)
          ⊎ ((c.name == "crypto" || c.name == "kms") ≡ false)
        → ((c.name == "consensus") ≡ true) ⊎ ((c.name == "consensus") ≡ false)
        → filter_step (crypto, consensus) c
          ≡ (or_given crypto (crypto_said c), or_given consensus (consensus_said c))
    go (inl e) (inl f) = absurd (other_name c.name e f)
    go (inl e) (inr f) =
        rw (e, f) (ap (λ (s : String). (s, consensus)) (crypto_words c.image crypto))
    go (inr e) (inl f) =
        rw (e, f) (ap (λ (s : String). (crypto, s)) (consensus_words c.image consensus))
    go (inr e) (inr f) = rw (e, f) refl

from_lem :
    (crypto consensus : String) (containers : List Container)
    → filter_from (crypto, consensus) containers ≡ (
      or_given crypto (last_said crypto_said containers),
      or_given consensus (last_said consensus_said containers),
    )
unfolding filter_from
from_lem crypto consensus [] = refl
from_lem crypto consensus (c ∷ containers) =
    ap (λ (found : String × String). filter_from found containers) (step_lem crypto consensus c)
    ∙ from_lem (or_given crypto (crypto_said c)) (or_given consensus (consensus_said c)) containers
    ∙ rw
        (
          or_given_again crypto (crypto_said c) (last_said crypto_said containers),
          or_given_again consensus (consensus_said c) (last_said consensus_said containers),
        )
        refl

from_nothing : (s : String) → or_given "" s ≡ s
from_nothing s = elim (Bool-cases (s == "")) [
  | inl e ↦ rw e (sym ((eq_iff s "").0 e))
  | inr e ↦ rw e refl
]

-- The crypto is what the last container crypto or kms says whose image contains "sm" or "eth", with
-- "sm" before "eth"; the consensus is what the last container consensus says whose image contains
-- "bft", "raft" or "overlord", in that order; each is empty where no container says anything.
pub filter_crypto_and_consensus_lem :
    (containers : List Container)
    → filter_crypto_and_consensus containers
      ≡ (last_said crypto_said containers, last_said consensus_said containers)
unfolding filter_crypto_and_consensus
filter_crypto_and_consensus_lem containers =
    from_lem "" "" containers
    ∙ rw
        (
          from_nothing (last_said crypto_said containers),
          from_nothing (last_said consensus_said containers),
        )
        refl

-- A job of a fallback for what the containers of a workload say.
abbrev pub IsJobOf : Workload → BlockHeightFallback → Job → Type 0
IsJobOf x b job =
    (volumes : List Volume) × (node_key : String) × (job
      ≡ record (new_job b volumes (last_said crypto_said x.spec.containers)
          (last_said consensus_said x.spec.containers) node_key) { owner = some b.key.name })

module _ {W : Type 0} (api : Api W)
    (list_deployments : String → Dict String → Exec W (List Workload)) (P : W → Type 0)
    (b : BlockHeightFallback) (sts : Workload) (method : b.spec.deploy_method ≡ "cloud-config")
    (read : Triple P
      (api.get_stateful_set (beside b.key b.spec.node))
      (λ x w. P w × (x ≡ sts))
      P) where
  not_helm : (b.spec.deploy_method == "helm") ≡ false
  not_helm = ap (λ (m : String). m == "helm") method

  not_python : (b.spec.deploy_method == "python") ≡ false
  not_python = ap (λ (m : String). m == "python") method

  is_cloud_config : (b.spec.deploy_method == "cloud-config") ≡ true
  is_cloud_config = ap (λ (m : String). m == "cloud-config") method

  volumes-Keeps : Keeps P (get_volumes api list_deployments b)
  unfolding get_volumes
  volumes-Keeps = rw (not_helm, not_python, is_cloud_config) (Keeps-pure _)

  found_lem :
      Triple P
        (get_crypto_and_consensus api list_deployments b)
        (λ found w.
          P w
          × (found ≡ (
            last_said crypto_said sts.spec.containers,
            last_said consensus_said sts.spec.containers,
          )))
        P
  unfolding get_crypto_and_consensus
  found_lem =
      rw (not_helm, not_python, is_cloud_config)
        (Triple-bind read λ x. Triple-pure _ λ w h. (
          h.0,
          ap (λ (y : Workload). filter_crypto_and_consensus y.spec.containers) h.1
              ∙ filter_crypto_and_consensus_lem sts.spec.containers,
        ))

  pub job_for-IsJobOf :
      (set_controller_reference : BlockHeightFallback → Job → Result Job)
      → ((b : BlockHeightFallback) (job owned : Job)
          → set_controller_reference b job ≡ ok owned
          → owned ≡ record job { owner = some b.key.name })
      → Triple P
          (job_for api list_deployments set_controller_reference b)
          (λ job w. P w × IsJobOf sts b job)
          P
  unfolding job_for
  job_for-IsJobOf set_controller_reference law = Triple-bind volumes-Keeps λ volumes.
      Triple-bind found_lem λ found.
        Triple-bind
          {R = λ _ w.
            P w
            × (found ≡ (
              last_said crypto_said sts.spec.containers,
              last_said consensus_said sts.spec.containers,
            ))}
          (Triple-lift (get_node_label_key_by_type b.spec.deploy_method) (λ _ _ w h. h)
            (λ w h. h.0))
          λ node_key.
            Triple-lift (set_controller_reference b (new_job b volumes found.0 found.1 node_key))
              (λ job e w h. (
                h.0,
                (
                  volumes,
                  node_key,
                  law b _ job e
                      ∙ ap
                          (λ (f : String × String). record (new_job b volumes f.0 f.1 node_key) {
                            owner = some b.key.name;
                          })
                          h.1,
                ),
              ))
              (λ w h. h.0)
