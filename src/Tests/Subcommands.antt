-- ===== src/Tests/Subcommands.antt =====
-- The claims on exit codes, at a subcommand that succeeds and at one with a wrong flag.
use cita_node_operator.Base.{◌≡◌, refl, String, none, Error, done, lookup, insert}
use cita_node_operator.Base.Effects.{pure}
use cita_node_operator.Base.Int.{pos}
use cita_node_operator.Behavior
use cita_node_operator.Node.Common.{around}
use cita_node_operator.Node.CloudConfig
use cita_node_operator.Node.CloudConfig.{new_cloud_config_node}
use cita_node_operator.Node.Helm.{HelmState}
use cita_node_operator.Node.Registry.{create_node, nodes, register, beside_helm}
use cita_node_operator.Cmd
use cita_node_operator.Cmd.{Command, Target, execute, log_to_pod, subcommand, subcommand_work}
use cita_node_operator.Cmd.Exit.{Worked, subcommand-done, subcommand-unknown}
use cita_node_operator.Tests.World.{World, api, host}

abbrev target : Target
target = record {
  namespace = "app";
  chain = "chain";
  node = "node-a";
  deploy_method = "cloud-config";
}

abbrev idle : HelmState World
idle = record {
  world = record { stateful_sets = λ _. none; deployments = λ _. none; files = λ _. none };
  replicas = none;
}

abbrev describe : Error → String
describe _ = "execute job failed"

abbrev chown_now : Command
chown_now = Cmd.chown "Direct" (pos 1000) (pos 1000)

chown_now-succeeds : subcommand api host describe (pure tt) target chown_now idle ≡ (done 0, idle)
unfolding subcommand subcommand_work create_node nodes register lookup insert beside_helm
    new_cloud_config_node CloudConfig.change_owner Behavior.change_owner around execute log_to_pod
chown_now-succeeds = refl

subcommand-done_example : Worked api host describe (pure tt) target chown_now idle idle
subcommand-done_example =
    subcommand-done api host describe (pure tt) target chown_now idle idle chown_now-succeeds

abbrev chown_later : Command
chown_later = Cmd.chown "Later" (pos 1000) (pos 1000)

subcommand-unknown_example :
    subcommand api host describe (pure tt) target chown_later idle ≡ (done 1, idle)
subcommand-unknown_example =
    subcommand-unknown api host describe (pure tt) target chown_later idle idle refl refl
