-- ===== src/Behavior/Consensus.antt =====
-- What `removeConsensusData` leaves of the two consensus directories.
use cita_node_operator.Base.{String, ◌≡◌, ◌≢◌, ◌∙◌, false, none, Exec}
use cita_node_operator.Base.{Result, ok, err, not_exist}
use cita_node_operator.Base.Effects.{pure, ◌>>=◌, ◌>>◌, try}
use cita_node_operator.Base.Hoare.{Triple, Triple-pure, Triple-bind, Triple-map}
use cita_node_operator.Base.Hoare.{Triple-pre}
use cita_node_operator.Base.Text.{join}
use cita_node_operator.Host.{Host}
use cita_node_operator.Host.Laws.{HostLaws, Files, Says, within}
use cita_node_operator.Behavior.{raft_consensus_dir, over_lord_consensus_dir}
use cita_node_operator.Behavior.{remove_found, unless_absent, remove_consensus_data}

-- From the files `f` to the files `g`, of the directories at `raft` and at `over_lord`.
abbrev pub Cleaned : String → String → Files → Files → Type 0
Cleaned raft over_lord f g =
    (g raft ≡ none)
    × (f raft ≢ none → g over_lord ≡ f over_lord)
    × (f raft ≡ none → g over_lord ≡ none)

module _ {W : Type 0} (host : Host W) (L : HostLaws host) (f : Files) where
  abbrev over_lord_step : String → Exec W Unit
  over_lord_step dir = do
    r ← try (host.stat dir)
    remove_found host r dir
    unless_absent host r (pure tt)

  after_over_lord :
      (raft dir : String) (r : Result (Unit {0}))
      → within dir raft ≡ false
      → f raft ≡ none
      → Triple
          (λ w. (L.files w ≡ f) × Says r (f dir))
          (remove_found host r dir >> unless_absent host r (pure tt))
          (λ _ w. Cleaned raft dir f (L.files w))
          (λ _. Unit)
  unfolding remove_found unless_absent
  after_over_lord raft dir (ok _) apart gone =
      Triple-bind (Triple-pre (λ w h. h.0) (L.remove_all_law f dir)) (λ _.
        Triple-pure tt (λ w h. (h.1 raft apart ∙ gone, λ there. absurd (there gone), λ _. h.0)))
  after_over_lord raft dir (err not_exist) apart gone = record {
    run = λ w h. rw h.0 (gone, λ there. absurd (there gone), λ _. h.1);
  }
  after_over_lord raft dir _ apart gone = record { run = λ w h. tt }

  over_lord_step_lem :
      (raft dir : String)
      → within dir raft ≡ false
      → f raft ≡ none
      → Triple
          (λ w. L.files w ≡ f)
          (over_lord_step dir)
          (λ _ w. Cleaned raft dir f (L.files w))
          (λ _. Unit)
  over_lord_step_lem raft dir apart gone =
      Triple-bind (Triple-map (L.stat_law f dir) (λ r w h. h) (λ w h. tt))
        (λ r. after_over_lord raft dir r apart gone)

  after_raft :
      (raft dir : String) (r : Result (Unit {0}))
      → within raft dir ≡ false
      → within dir raft ≡ false
      → Triple
          (λ w. (L.files w ≡ f) × Says r (f raft))
          (remove_found host r raft >> unless_absent host r (over_lord_step dir))
          (λ _ w. Cleaned raft dir f (L.files w))
          (λ _. Unit)
  unfolding remove_found unless_absent
  after_raft raft dir (ok _) below above = record {
    run = λ w h.
        (Triple-bind {Q = λ _ v. Cleaned raft dir f (L.files v)} (L.remove_all_law f raft)
            (λ _. Triple-pure tt (λ v g. (g.0, λ _. g.1 dir below, λ gone. cc (h.1.1, gone))))).run
          w h.0;
  }
  after_raft raft dir (err not_exist) below above = record {
    run = λ w h. (over_lord_step_lem raft dir above h.1).run w h.0;
  }
  after_raft raft dir _ below above = record { run = λ w h. tt }

  -- When `removeConsensusData` succeeds the raft directory is gone, and the overlord directory is
  -- gone too if there was no raft directory; if there was one, the overlord directory is left as
  -- it was. The directories are not one inside the other.
  pub remove_consensus_data_lem :
      (parent_dir : String)
      → let raft = join parent_dir raft_consensus_dir in
        let over_lord = join parent_dir over_lord_consensus_dir in
        within raft over_lord ≡ false
        → within over_lord raft ≡ false
        → Triple
            (λ w. L.files w ≡ f)
            (remove_consensus_data host parent_dir)
            (λ _ w. Cleaned raft over_lord f (L.files w))
            (λ _. Unit)
  unfolding remove_consensus_data
  remove_consensus_data_lem parent_dir below above =
      Triple-bind
        (Triple-map (L.stat_law f (join parent_dir raft_consensus_dir)) (λ r w h. h) (λ w h. tt))
        (λ r. after_raft _ _ r below above)
