-- ===== src/Controllers/Fallback/Job/Flags.antt =====
-- The words that the job is started with, read back as the flags of the subcommand.
use cita_node_operator.Base.{
  String, ◌==◌, ◌≡◌, refl, Bool, true, false, Option, none, some, List, [], ◌∷◌, ◌++◌, Dict, ok,
  if◌then◌else◌,
}
use cita_node_operator.Base.{lookup}
use cita_node_operator.Base.Int.{IsInt64}
use cita_node_operator.Base.Text.Decimal.{parse_int, format_int, parse_int-format_int}
use cita_node_operator.Controllers.Fallback.{BlockHeightFallback}
use cita_node_operator.Controllers.Fallback.Job.{build_args}

abbrev with_flag : String → String → Option (Dict String) → Option (Dict String)
with_flag name value none = none
with_flag name value (some flags) = some ((name, value) ∷ flags)

-- Each flag but one has the word after it as its value.
pub read_flags : List String → Option (Dict String)
read_flags [] = some []
read_flags (name ∷ []) =
    if name == "--delete-consensus-data" then some ((name, "true") ∷ []) else none
read_flags (name ∷ value ∷ words) =
    let after_value = read_flags words in
    let after_name = read_flags (value ∷ words) in
    if name == "--delete-consensus-data"
    then with_flag name "true" after_name
    else with_flag name value after_value

-- What the flags of a fallback's job are to say.
pub record Says (b : BlockHeightFallback) (crypto consensus : String) (flags : Dict String)
    : Type 0 where
  pub namespace_flag : lookup "--namespace" flags ≡ some b.key.namespace
  pub chain_flag : lookup "--chain" flags ≡ some b.spec.chain
  pub method_flag : lookup "--deploy-method" flags ≡ some b.spec.deploy_method
  pub action_flag : lookup "--action" flags ≡ some b.spec.action
  pub node_flag : lookup "--node" flags ≡ some b.spec.node
  pub consensus_flag : lookup "--consensus" flags ≡ some consensus
  pub crypto_flag : lookup "--crypto" flags ≡ (if crypto == "" then none else some crypto)
  pub delete_flag :
      lookup "--delete-consensus-data" flags
      ≡ (if b.spec.delete_consensus_data then some "true" else none)
  pub height : String
  pub height_flag : lookup "--block-height" flags ≡ some height
  pub height_read : parse_int height ≡ ok b.spec.block_height

-- All words but the first.
abbrev pub rest : List String → List String
rest [] = []
rest (_ ∷ words) = words

module _ (b : BlockHeightFallback) (crypto consensus : String) where
  -- The flags that are always there come first.
  abbrev first_flags : Dict String → Dict String
  first_flags more =
      ("--namespace", b.key.namespace)
      ∷ ("--chain", b.spec.chain)
      ∷ ("--deploy-method", b.spec.deploy_method)
      ∷ ("--action", b.spec.action)
      ∷ ("--block-height", format_int b.spec.block_height)
      ∷ ("--node", b.spec.node)
      ∷ more

  abbrev more_flags : Bool → Bool → Dict String
  more_flags no_crypto delete =
      (if no_crypto then [] else ("--crypto", crypto) ∷ [])
      ++ (("--consensus", consensus)
          ∷ (if delete then ("--delete-consensus-data", "true") ∷ [] else []))

  first_flags-Says :
      (more : Dict String)
      → IsInt64 b.spec.block_height
      → lookup "--consensus" more ≡ some consensus
      → lookup "--crypto" more ≡ (if crypto == "" then none else some crypto)
      → lookup "--delete-consensus-data" more
        ≡ (if b.spec.delete_consensus_data then some "true" else none)
      → Says b crypto consensus (first_flags more)
  unfolding lookup
  first_flags-Says more range c k d = record {
    namespace_flag = refl;
    chain_flag = refl;
    method_flag = refl;
    action_flag = refl;
    node_flag = refl;
    consensus_flag = c;
    crypto_flag = k;
    delete_flag = d;
    height = format_int b.spec.block_height;
    height_flag = refl;
    height_read = parse_int-format_int b.spec.block_height range;
  }

  -- The words of the job are those of the subcommand `fallback`, and, read as flags, say the
  -- namespace, the chain, the node, the deploy method, the action, the crypto, the consensus, the
  -- deletion of consensus data and the block height of the resource, where it is an `int64`.
  pub build_args-Says :
      IsInt64 b.spec.block_height
      → (build_args b crypto consensus ≡ "fallback" ∷ rest (build_args b crypto consensus))
        × ((flags : Dict String) × (read_flags (rest (build_args b crypto consensus)) ≡ some flags)
            × Says b crypto consensus flags)
  unfolding build_args read_flags lookup
  build_args-Says range = (refl, go (crypto == "") b.spec.delete_consensus_data refl refl)
    where
      go :
          (no_crypto delete : Bool)
          → (crypto == "") ≡ no_crypto
          → b.spec.delete_consensus_data ≡ delete
          → (flags : Dict String) × (read_flags (rest (build_args b crypto consensus)) ≡ some flags)
            × Says b crypto consensus flags
      go true true e f = (
        first_flags (more_flags true true),
        rw (e, f) refl,
        first_flags-Says _ range refl (rw e refl) (rw f refl),
      )
      go true false e f = (
        first_flags (more_flags true false),
        rw (e, f) refl,
        first_flags-Says _ range refl (rw e refl) (rw f refl),
      )
      go false true e f = (
        first_flags (more_flags false true),
        rw (e, f) refl,
        first_flags-Says _ range refl (rw e refl) (rw f refl),
      )
      go false false e f = (
        first_flags (more_flags false false),
        rw (e, f) refl,
        first_flags-Says _ range refl (rw e refl) (rw f refl),
      )
