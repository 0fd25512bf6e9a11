-- ===== src/Tests/Deployments.antt =====
-- The claim on a node that is a Deployment, at a cluster with one of them.
use cita_node_operator.Base.{refl, true, some, none, [], if◌then◌else◌}
use cita_node_operator.Base.Hoare.{Post}
use cita_node_operator.Base.Int.{pos}
use cita_node_operator.Kube.{same_key}
use cita_node_operator.Kube.Laws.{Specs}
use cita_node_operator.Node.Python.{PyNode, key, new_py_node}
use cita_node_operator.Node.Python.Deployment.{execute-Resized, Succeeded, Failed}
use cita_node_operator.Cmd
use cita_node_operator.Cmd.{Command, execute}
use cita_node_operator.Tests.World.{World, api, api_laws, host, host-Leaves_deployments}

abbrev py_node : PyNode
py_node = record { namespace = "app"; name = "node-0"; chain = "chain" }

abbrev one_deployment : Specs
one_deployment k =
    if same_key k (key py_node)
    then some (record { replicas = some 1; claim_templates = []; volumes = []; containers = [] })
    else none

abbrev py_initial : World
py_initial = record { stateful_sets = λ _. none; deployments = one_deployment; files = λ _. none }

abbrev py_fallback : Command
py_fallback = Cmd.fallback "StopAndStart" (pos 30) "sm" "bft" true

execute-Resized_example :
    Post
      (λ _ w. Succeeded api api_laws host py_node true one_deployment w.deployments)
      (λ w. Failed api api_laws host py_node true one_deployment w.deployments)
      (execute (new_py_node api host py_node) py_fallback py_initial)
execute-Resized_example =
    (execute-Resized api api_laws host py_node host-Leaves_deployments one_deployment
        py_fallback).run
      py_initial refl
