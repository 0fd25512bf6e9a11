-- ===== src/Cmd/Flags.antt =====
-- pkg/cmd: the flags of the subcommands, from the words of a command line to what is run. The
-- parsing is that of cobra, a parameter.
pub mod Reads
use cita_node_operator.Base.{
  String, ◌==◌, ◌≡◌, Bool, true, false, Option, none, some, List, [], ◌∷◌, Dict,
}
use cita_node_operator.Base.{lookup, Error, Result, ok, err, message, if◌then◌else◌}
use cita_node_operator.Base.Int.{ℤ, pos, IsInt64}
use cita_node_operator.Base.Text.Decimal.{format_int}
use cita_node_operator.Node.Common.{
  cloud_config, stop_and_start, backup_source_volume_path, backup_dest_volume_path,
  restore_source_volume_path, restore_dest_volume_path,
}
use cita_node_operator.Cmd.{Command, Target, SwitchoverTarget}
use cita_node_operator.Cmd

-- The value of a flag, by `StringVarP`, `Int64VarP` and `BoolVarP`.
pub data Value : Type 0 where
  text : String → Value
  number : ℤ → Value
  on_off : Bool → Value

-- What the documentation of cobra says of the words after a subcommand, for flags with the values
-- `values` so far: a flag has the next word as its value, but for a flag that is on or off. Of numbers,
-- which it also reads in other notations, nothing is said but for the text that `strconv` writes.
pub record CobraLaws (parse : Dict Value → List String → Result (Dict Value)) : Type 0 where
  pub end_law : {values : Dict Value} → parse values [] ≡ ok values
  pub text_law :
      {values : Dict Value} {name value old : String} {words : List String}
      → lookup name values ≡ some (text old)
      → parse values (name ∷ value ∷ words) ≡ parse ((name, text value) ∷ values) words
  pub number_law :
      {values : Dict Value} {name : String} {old n : ℤ} {words : List String}
      → lookup name values ≡ some (number old)
      → IsInt64 n
      → parse values (name ∷ format_int n ∷ words) ≡ parse ((name, number n) ∷ values) words
  pub on_off_law :
      {values : Dict Value} {name : String} {old : Bool} {words : List String}
      → lookup name values ≡ some (on_off old)
      → parse values (name ∷ words) ≡ parse ((name, on_off true) ∷ values) words

text_value : Option Value → String
text_value (some (text s)) = s
text_value _ = ""

number_value : Option Value → ℤ
number_value (some (number n)) = n
number_value _ = pos 0

switch_value : Option Value → Bool
switch_value (some (on_off b)) = b
switch_value _ = false

-- The variable that a flag of the name is kept in.
unfoldable pub text_of : String → Dict Value → String
unfolding text_value
text_of name values = text_value (lookup name values)

unfoldable pub number_of : String → Dict Value → ℤ
unfolding number_value
number_of name values = number_value (lookup name values)

unfoldable pub switch_of : String → Dict Value → Bool
unfolding switch_value
switch_of name values = switch_value (lookup name values)

-- What is run: a subcommand on one node, or a switchover.
pub data Invocation : Type 0 where
  on_node : Target → Command → Invocation
  on_nodes : SwitchoverTarget → Invocation

-- The flags of all subcommands on one node, for the default of the chain.
abbrev pub node_flags : String → Dict Value → Dict Value
node_flags chain more =
    ("--namespace", text "default")
    ∷ ("--chain", text chain)
    ∷ ("--node", text "")
    ∷ ("--deploy-method", text cloud_config)
    ∷ ("--action", text stop_and_start)
    ∷ more

abbrev pub target_of : Dict Value → Target
target_of values = record {
  namespace = text_of "--namespace" values;
  chain = text_of "--chain" values;
  node = text_of "--node" values;
  deploy_method = text_of "--deploy-method" values;
}

-- `NewBackup`
abbrev pub backup_flags : Dict Value
backup_flags = node_flags "test-node" (
    ("--source-path", text backup_source_volume_path)
    ∷ ("--dest-path", text backup_dest_volume_path)
    ∷ ("--compress", on_off false)
    ∷ ("--compress-type", text "gzip")
    ∷ ("--output", text "")
    ∷ [])

abbrev pub backup_command : Dict Value → Command
backup_command values =
    Cmd.backup (text_of "--action" values) (text_of "--source-path" values)
      (text_of "--dest-path" values)
      (some (record {
        enable = switch_of "--compress" values;
        c_type = text_of "--compress-type" values;
        output = text_of "--output" values;
      }))

-- `NewRestore`
abbrev pub restore_flags : Dict Value
restore_flags = node_flags "test-node" (
    ("--source-path", text restore_source_volume_path)
    ∷ ("--dest-path", text restore_dest_volume_path)
    ∷ ("--decompress", on_off false)
    ∷ ("--md5", text "")
    ∷ ("--input", text "")
    ∷ ("--delete-consensus-data", on_off false)
    ∷ [])

abbrev pub restore_command : Dict Value → Command
restore_command values =
    Cmd.restore (text_of "--action" values) (text_of "--source-path" values)
      (text_of "--dest-path" values)
      (some (record {
        enable = switch_of "--decompress" values;
        md5 = text_of "--md5" values;
        input = text_of "--input" values;
      }))
      (switch_of "--delete-consensus-data" values)

-- The flags of the subcommands for a block height.
abbrev pub height_flags : Dict Value → Dict Value
height_flags more =
    ("--block-height", number (pos 999999999))
    ∷ ("--crypto", text "sm")
    ∷ ("--consensus", text "bft")
    ∷ more

-- `NewFallbackCommand`
abbrev pub fallback_flags : Dict Value
fallback_flags =
    node_flags "test-chain" (height_flags (("--delete-consensus-data", on_off false) ∷ []))

abbrev pub fallback_command : Dict Value → Command
fallback_command values =
    Cmd.fallback (text_of "--action" values) (number_of "--block-height" values)
      (text_of "--crypto" values) (text_of "--consensus" values)
      (switch_of "--delete-consensus-data" values)

-- `NewSnapshot`
abbrev pub snapshot_flags : Dict Value
snapshot_flags = node_flags "test-node" (height_flags [])

abbrev pub snapshot_command : Dict Value → Command
snapshot_command values =
    Cmd.snapshot (text_of "--action" values) (number_of "--block-height" values)
      (text_of "--crypto" values) (text_of "--consensus" values)

-- `NewSnapshotRecover`
abbrev pub snapshot_recover_flags : Dict Value
snapshot_recover_flags =
    node_flags "test-node" (height_flags (("--delete-consensus-data", on_off false) ∷ []))

abbrev pub snapshot_recover_command : Dict Value → Command
snapshot_recover_command values =
    Cmd.snapshot_recover (text_of "--action" values) (number_of "--block-height" values)
      (text_of "--crypto" values) (text_of "--consensus" values)
      (switch_of "--delete-consensus-data" values)

-- `NewChown`
abbrev pub chown_flags : Dict Value
chown_flags =
    node_flags "test-node" (("--uid", number (pos 1000)) ∷ ("--gid", number (pos 1000)) ∷ [])

abbrev pub chown_command : Dict Value → Command
chown_command values =
    Cmd.chown (text_of "--action" values) (number_of "--uid" values) (number_of "--gid" values)

-- `NewSwitchover`
abbrev pub switchover_flags : Dict Value
switchover_flags =
    ("--namespace", text "default")
    ∷ ("--chain", text "test-node")
    ∷ ("--source-node", text "")
    ∷ ("--dest-node", text "")
    ∷ []

abbrev pub switchover_of : Dict Value → Invocation
switchover_of values = on_nodes (record {
  namespace = text_of "--namespace" values;
  chain = text_of "--chain" values;
  source_node = text_of "--source-node" values;
  dest_node = text_of "--dest-node" values;
})

abbrev pub node_of : (Dict Value → Command) → Dict Value → Invocation
node_of command values = on_node (target_of values) (command values)

-- The subcommands of `RootCmd`: their flags, and what they run with the values.
unfoldable pub subcommands : Dict (Dict Value × (Dict Value → Invocation))
subcommands =
    ("fallback", (fallback_flags, node_of fallback_command))
    ∷ ("backup", (backup_flags, node_of backup_command))
    ∷ ("restore", (restore_flags, node_of restore_command))
    ∷ ("switchover", (switchover_flags, switchover_of))
    ∷ ("snapshot", (snapshot_flags, node_of snapshot_command))
    ∷ ("snapshot-recover", (snapshot_recover_flags, node_of snapshot_recover_command))
    ∷ ("chown", (chown_flags, node_of chown_command))
    ∷ []

module _ (parse : Dict Value → List String → Result (Dict Value)) where
  with_values : (Dict Value → Invocation) → Result (Dict Value) → Result (Option Invocation)
  with_values run (ok values) = ok (some (run values))
  with_values run (err e) = err e

  parsed :
      List String → Option (Dict Value × (Dict Value → Invocation)) → Result (Option Invocation)
  unfolding with_values
  parsed words none = err (message "unknown command")
  parsed words (some (flags, run)) = with_values run (parse flags words)

  -- What the words of a command line run. Without a word the help is printed, and nothing is run.
  unfoldable pub invocation : List String → Result (Option Invocation)
  unfolding parsed
  invocation [] = ok none
  invocation (name ∷ words) = parsed words (lookup name subcommands)

-- The words run what is told.
abbrev pub Runs :
    (Dict Value → List String → Result (Dict Value)) → List String → Invocation → Type 0
Runs parse words i = invocation parse words ≡ ok (some i)
