-- ===== src/Tests/Objects.antt =====
-- A client in memory for any kind of object, which keeps the laws of clients.
use cita_node_operator.Base.{
  ◌≡◌, refl, Bool, true, false, Option, none, some, [], ◌∷◌, Exec, ◌⊎◌, inl,
}
use cita_node_operator.Base.{Result, not_found, conflict, failure}
use cita_node_operator.Base.Effects.{pure, raise, try}
use cita_node_operator.Base.Hoare.{Post}
use cita_node_operator.Kube.{NamespacedName, same_key, Workload, Api}
use cita_node_operator.Kube.Edits.{same_key-eq}
use cita_node_operator.Controllers.Objects.{
  Client, put, Place, Created, Merged, Answers, ClientLaws, ClientKeeps,
}

module _ {C T : Type 0} (place : Place C T) where
  abbrev pub checked : NamespacedName → T → Bool → Exec C T
  checked k x true = pure x
  checked k x false = raise (failure "another key")

  abbrev pub read : NamespacedName → Option T → Exec C T
  read k none = raise not_found
  read k (some x) = checked k x (same_key (place.key_of x) k)

  abbrev pub make : T → Option T → Exec C Unit
  make x none c = pure tt (place.store (put (place.key_of x) x (place.objects c)) c)
  make x (some _) c = raise conflict c

  abbrev pub write : (T → T → T) → T → Option T → Exec C Unit
  write merge x none c = raise not_found c
  write merge x (some old) c =
      pure tt (place.store (put (place.key_of x) (merge old x) (place.objects c)) c)

  abbrev pub memory : Client C T
  memory = record {
    get = λ k c. read k (place.objects c k) c;
    create = λ x c. make x (place.objects c (place.key_of x)) c;
    update = λ x c. write place.on_update x (place.objects c (place.key_of x)) c;
    update_status = λ x c. write place.on_status x (place.objects c (place.key_of x)) c;
  }

  pub checked_lem :
      (k : NamespacedName) (c d : C) (x : T) (b : Bool)
      → same_key (place.key_of x) k ≡ b
      → d ≡ c
      → place.objects c k ≡ some x
      → Post {A = Result T}
          (λ r v. (v ≡ c) × Answers place k r (place.objects c k))
          (λ v. v ≡ c)
          (try (checked k x b) d)
  checked_lem k c d x true same e there = (e, (there, same_key-eq (place.key_of x) k same))
  checked_lem k c d x false same e there = (e, tt)

  pub read_lem :
      (k : NamespacedName) (c d : C) (o : Option T)
      → place.objects c k ≡ o
      → d ≡ c
      → Post {A = Result T}
          (λ r v. (v ≡ c) × Answers place k r (place.objects c k))
          (λ v. v ≡ c)
          (try (read k o) d)
  read_lem k c d none there e = (e, there)
  read_lem k c d (some x) there e = checked_lem k c d x (same_key (place.key_of x) k) refl e there

  pub make_lem :
      (x : T) (c : C) (o : Option T)
      → place.objects c (place.key_of x) ≡ o
      → Post (λ _ v. Created place c x v) (λ v. (v ≡ c) ⊎ Created place c x v) (make x o c)
  make_lem x c none absent = (absent, refl)
  make_lem x c (some _) there = inl refl

  pub write_lem :
      (merge : T → T → T) (x : T) (c : C) (o : Option T)
      → place.objects c (place.key_of x) ≡ o
      → Post
          (λ _ v. Merged place merge c x v)
          (λ v. (v ≡ c) ⊎ Merged place merge c x v)
          (write merge x o c)
  write_lem merge x c none absent = inl refl
  write_lem merge x c (some old) there = (old, there, refl)

  abbrev pub memory_laws : ClientLaws memory (λ c. c) place
  memory_laws = record {
    get_law = λ c k. record { run = λ d e. read_lem k c d (place.objects d k) (rw e refl) e };
    create_law =
        λ c x. record { run = λ d e. rw e (make_lem x c (place.objects c (place.key_of x)) refl) };
    update_law = λ c x. record {
      run = λ d e. rw e (write_lem place.on_update x c (place.objects c (place.key_of x)) refl);
    };
    update_status_law = λ c x. record {
      run = λ d e. rw e (write_lem place.on_status x c (place.objects c (place.key_of x)) refl);
    };
  }

-- A client that stores nothing: no object is there, and a write has no effect.
abbrev pub silent : {C T : Type 0} → Client C T
silent = record {
  get = λ _. raise not_found;
  create = λ _. pure tt;
  update = λ _. pure tt;
  update_status = λ _. pure tt;
}

pub silent-Keeps : {C T : Type 0} (P : C → Type 0) → ClientKeeps (silent {C = C} {T = T}) P
silent-Keeps P = record {
  get_keeps = λ k. record { run = λ w h. h };
  create_keeps = λ x. record { run = λ w h. h };
  update_keeps = λ x. record { run = λ w h. h };
}

-- A cluster where every workload has its one replica ready.
abbrev pub workload : NamespacedName → Workload
workload k = record {
  key = k;
  labels = [];
  spec = record { replicas = some 1; claim_templates = []; volumes = []; containers = [] };
  status = record { replicas = 1; ready_replicas = 1 };
}

abbrev pub calm_api : {C : Type 0} → Api C
calm_api = record {
  get_stateful_set = λ k. pure (workload k);
  update_stateful_set = λ _. pure tt;
  create_stateful_set = λ _. pure tt;
  get_deployment = λ k. pure (workload k);
  update_deployment = λ _. pure tt;
  list_pods = λ _ _. pure [];
  get_pod = λ k. pure (record { key = k; annotations = []; container_statuses = true ∷ [] });
  update_pod = λ _. pure tt;
  retry_on_conflict = λ m. m;
  poll = λ _ _ _. pure tt;
  getenv = λ s. s;
}
