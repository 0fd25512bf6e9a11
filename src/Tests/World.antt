-- ===== src/Tests/World.antt =====
-- A cluster and a machine in memory: specifications by name, and files by path.
use cita_node_operator.Base.{ℕ, String, ◌<>◌, ◌≡◌, refl, Bool, true, false, Option, none, some}
use cita_node_operator.Base.{
  [], Exec, Result, ==-refl, message, not_found, not_exist, if◌then◌else◌,
}
use cita_node_operator.Base.Effects.{pure, raise, try, ◌>>=◌}
use cita_node_operator.Base.Hoare.{Triple, Triple-bind, Triple-if, Post, Keeps}
use cita_node_operator.Host.{Host}
use cita_node_operator.Host.Laws.{HostLaws, Files, Says, within}
use cita_node_operator.Kube.{NamespacedName, WorkloadSpec, Workload, Api}
use cita_node_operator.Kube.Laws.{Specs, store_at, ApiLaws}
use cita_node_operator.Behavior.Frame.{Leaves}

pub record World : Type 0 where
  pub stateful_sets : Specs
  pub deployments : Specs
  pub files : Files

-- Every replica that is asked for is ready.
abbrev pub ready : Option WorkloadSpec → ℕ
ready none = 0
ready (some spec) = elim spec.replicas [ none ↦ 1 | some n ↦ n ]

abbrev pub found : NamespacedName → Option WorkloadSpec → Exec World Workload
found k none = raise not_found
found k (some spec) = pure (record {
  key = k;
  labels = [];
  spec = spec;
  status = record { replicas = ready (some spec); ready_replicas = ready (some spec) };
})

abbrev pub api : Api World
api = record {
  get_stateful_set = λ k w. found k (w.stateful_sets k) w;
  update_stateful_set =
      λ x w. pure tt (record w { stateful_sets = store_at x.key x.spec w.stateful_sets });
  create_stateful_set =
      λ x w. pure tt (record w { stateful_sets = store_at x.key x.spec w.stateful_sets });
  get_deployment = λ k w. found k (w.deployments k) w;
  update_deployment =
      λ x w. pure tt (record w { deployments = store_at x.key x.spec w.deployments });
  list_pods = λ _ _. pure [];
  get_pod = λ k. pure (record { key = k; annotations = []; container_statuses = [] });
  update_pod = λ _. pure tt;
  retry_on_conflict = λ m. m;
  poll = λ _ _ c. c >>= λ b. if b then pure tt else raise (message "timed out");
  getenv = λ s. s;
}

pub found-Triple :
    (specs : World → Specs) (k : NamespacedName) (f : Specs) (o : Option WorkloadSpec)
    → f k ≡ o
    → Triple
        (λ w. specs w ≡ f)
        (found k o)
        (λ x w. (specs w ≡ f) × (f k ≡ some x.spec) × (x.key ≡ k))
        (λ w. specs w ≡ f)
found-Triple specs k f none e = record { run = λ w h. h }
found-Triple specs k f (some spec) e = record { run = λ w h. (h, e, refl) }

pub found-ready :
    (k : NamespacedName) (w : World) (o : Option WorkloadSpec)
    → w.stateful_sets k ≡ o
    → Post {A = Workload}
        (λ x v. ready (v.stateful_sets k) ≡ x.status.ready_replicas)
        (λ _. Unit)
        (found k o w)
found-ready k w none e = tt
found-ready k w (some spec) e = rw e refl

pub found-Keeps :
    (k : NamespacedName) (P : World → Type 0) (o : Option WorkloadSpec) → Keeps P (found k o)
found-Keeps k P none = record { run = λ w h. h }
found-Keeps k P (some spec) = record { run = λ w h. h }

pub poll-Triple :
    (specs : World → Specs) (Q : World → Type 0) (interval timeout : ℕ) (c : Exec World Bool)
    (f : Specs)
    → Triple (λ w. specs w ≡ f) c (λ b w. (specs w ≡ f) × (b ≡ true → Q w)) (λ w. specs w ≡ f)
    → Triple
        (λ w. specs w ≡ f)
        (api.poll interval timeout c)
        (λ _ w. (specs w ≡ f) × Q w)
        (λ w. specs w ≡ f)
poll-Triple specs Q interval timeout c f t = Triple-bind t λ b.
    Triple-if b _ _ (λ yes. record { run = λ w h. (h.0, h.1 yes) })
      (λ no. record { run = λ w h. h.0 })

abbrev pub api_laws : ApiLaws api
api_laws = record {
  stateful_sets = λ w. w.stateful_sets;
  deployments = λ w. w.deployments;
  stateful_set_laws = record {
    get_law = λ f k. record {
      run =
          λ w h. (found-Triple (λ v. v.stateful_sets) k f (w.stateful_sets k) (rw h refl)).run w h;
    };
    update_law = λ f x. record { run = λ w h. rw h refl };
  };
  deployment_laws = record {
    get_law = λ f k. record {
      run = λ w h. (found-Triple (λ v. v.deployments) k f (w.deployments k) (rw h refl)).run w h;
    };
    update_law = λ f x. record { run = λ w h. rw h refl };
  };
  ready_replicas = λ w k. ready (w.stateful_sets k);
  ready_replicas_law = λ k. record { run = λ w _. found-ready k w (w.stateful_sets k) refl };
  get_stateful_set_keeps = λ f k. record {
    run = λ w h. (found-Keeps k (λ v. v.deployments ≡ f) (w.stateful_sets k)).run w h;
  };
  list_pods_keeps = λ f n l. record { run = λ w h. h };
  get_pod_keeps = λ f k. record { run = λ w h. h };
  update_pod_keeps = λ f p. record { run = λ w h. h };
  get_pod_keeps_too = λ f k. record { run = λ w h. h };
  update_pod_keeps_too = λ f p. record { run = λ w h. h };
  retry_law = λ P Q m t. t;
  poll_law = poll-Triple (λ w. w.stateful_sets);
  poll_deployment_law = poll-Triple (λ w. w.deployments);
}

-- The files: a handle is a path, and an archive has one entry.
abbrev pub stat_of : Option String → Exec World Unit
stat_of none = raise not_exist
stat_of (some _) = pure tt

abbrev pub md5_of : Option String → Exec World String
md5_of none = raise not_exist
md5_of (some content) = pure ("md5 of " <> content)

abbrev pub host : Host World
host = record {
  Handle = String;
  run = λ _. pure tt;
  combined_output = λ _. pure "4096\t/mnt";
  stat = λ p w. stat_of (w.files p) w;
  remove_all = λ p w. pure tt (record w { files = λ q. if within p q then none else w.files q });
  mkdir_all = λ p w. pure tt w;
  open_file = λ p. pure p;
  create = λ p. pure p;
  copy = λ _ _. pure tt;
  copy_to_md5 = λ p w. md5_of (w.files p) w;
  files_from_disk = λ _. pure [];
  archive = λ _ _. pure tt;
  identify = λ _ h. pure h;
  extract = λ _ handler. handler (record { name_in_archive = "data"; is_dir = false });
  open_entry = λ f. pure f.name_in_archive;
}

pub stat_of-Triple :
    (f : Files) (p : String) (o : Option String) (w : World)
    → f p ≡ o
    → w.files ≡ f
    → Post {A = Result (Unit {0})}
        (λ r v. (v.files ≡ f) × Says r (f p))
        (λ v. v.files ≡ f)
        (try (stat_of o) w)
stat_of-Triple f p none w e h = (h, e)
stat_of-Triple f p (some content) w e h = (h, (content, e))

pub md5_of-Triple :
    (f : Files) (p : String) (o : Option String)
    → f p ≡ o
    → Triple
        (λ w. w.files ≡ f)
        (md5_of o)
        (λ sum w. (w.files ≡ f) × ((c : String) × (f p ≡ some c) × (sum ≡ ("md5 of " <> c))))
        (λ w. w.files ≡ f)
md5_of-Triple f p none e = record { run = λ w h. h }
md5_of-Triple f p (some content) e = record { run = λ w h. (h, (content, e, refl)) }

within_self : (p : String) → within p p ≡ true
within_self p = rw (==-refl p) refl

pub removed :
    (f : Files) (p : String)
    → ((if within p p then none else f p) ≡ none)
      × ((q : String) → within p q ≡ false → (if within p q then none else f q) ≡ f q)
removed f p = (rw (within_self p) refl, λ q e. rw e refl)

abbrev pub host_laws : HostLaws host
host_laws = record {
  files = λ w. w.files;
  path_of = λ p. p;
  md5_hex = λ content. "md5 of " <> content;
  stat_law = λ f p. record { run = λ w h. stat_of-Triple f p (w.files p) w (rw h refl) h };
  remove_all_law = λ f p. record { run = λ w h. rw h (removed f p) };
  open_file_law = λ f p. record { run = λ w h. (h, refl) };
  copy_to_md5_law =
      λ f p. record { run = λ w h. (md5_of-Triple f p (w.files p) (rw h refl)).run w h };
}

stat_of-Keeps : (P : World → Type 0) (o : Option String) → Keeps P (stat_of o)
stat_of-Keeps P none = record { run = λ w h. h }
stat_of-Keeps P (some _) = record { run = λ w h. h }

md5_of-Keeps : (P : World → Type 0) (o : Option String) → Keeps P (md5_of o)
md5_of-Keeps P none = record { run = λ w h. h }
md5_of-Keeps P (some _) = record { run = λ w h. h }

-- The machine has no part in the specifications.
leaves_cluster :
    (P : World → Type 0)
    → ((w : World) (files : Files) → P w → P (record w { files = files }))
    → Leaves host P
leaves_cluster P ignores = record {
  run_keeps = λ args. record { run = λ w h. h };
  combined_output_keeps = λ args. record { run = λ w h. h };
  stat_keeps = λ p. record { run = λ w h. (stat_of-Keeps P (w.files p)).run w h };
  remove_all_keeps = λ p. record { run = λ w h. ignores w _ h };
  mkdir_all_keeps = λ p. record { run = λ w h. h };
  open_file_keeps = λ p. record { run = λ w h. h };
  create_keeps = λ p. record { run = λ w h. h };
  copy_keeps = λ to from. record { run = λ w h. h };
  copy_to_md5_keeps = λ p. record { run = λ w h. (md5_of-Keeps P (w.files p)).run w h };
  files_from_disk_keeps = λ files. record { run = λ w h. h };
  archive_keeps = λ out files. record { run = λ w h. h };
  identify_keeps = λ name file. record { run = λ w h. h };
  extract_keeps = λ reader handler k. k (record { name_in_archive = "data"; is_dir = false });
  open_entry_keeps = λ f. record { run = λ w h. h };
}

pub host-Leaves : (f : Specs) → Leaves host (λ w. w.stateful_sets ≡ f)
host-Leaves f = leaves_cluster (λ w. w.stateful_sets ≡ f) (λ w files h. h)

pub host-Leaves_deployments : (f : Specs) → Leaves host (λ w. w.deployments ≡ f)
host-Leaves_deployments f = leaves_cluster (λ w. w.deployments ≡ f) (λ w files h. h)
