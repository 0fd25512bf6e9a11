-- ===== src/Controllers/Objects.antt =====
-- The client of the reconcilers, for one kind of object at a time. It is a parameter: its laws are
-- what the documentation promises where no other client writes at the same time.
use cita_node_operator.Base.{◌≡◌, ◌⊎◌, inl, inr, Option, none, some, Exec, if◌then◌else◌}
use cita_node_operator.Base.{Result, ok, err, not_found}
use cita_node_operator.Base.Effects.{raise, try, ◌>>=◌}
use cita_node_operator.Base.Hoare.{Triple, Triple-bind, Triple-map, Keeps}
use cita_node_operator.Kube.{NamespacedName, same_key}

pub record Client (W T : Type 0) : Type 0 where
  pub get : NamespacedName → Exec W T
  pub create : T → Exec W Unit
  pub update : T → Exec W Unit
  pub update_status : T → Exec W Unit

-- `err := Get(…); if IsNotFound(err) { make } else if err != nil { return err } else { … }`
unfoldable pub present : {W T : Type 0} → Result T → Exec W Unit → (T → Exec W Unit) → Exec W Unit
present (ok x) make reconcile = reconcile x
present (err not_found) make reconcile = make
present (err e) make reconcile = raise e

abbrev pub Objects : Type 0 → Type 0
Objects T = NamespacedName → Option T

abbrev pub put : {T : Type 0} → NamespacedName → T → Objects T → Objects T
put k x f j = if same_key k j then some x else f j

abbrev pub remove : {T : Type 0} → NamespacedName → Objects T → Objects T
remove k f j = if same_key k j then none else f j

-- Where the objects of a kind are in the state `C` of a cluster, and what a write keeps of the
-- object that is stored.
pub record Place (C T : Type 0) : Type 0 where
  pub objects : C → Objects T
  pub store : Objects T → C → C
  pub key_of : T → NamespacedName
  -- of the stored object and the given one
  pub on_update : T → T → T
  pub on_status : T → T → T

module _ {C T : Type 0} (place : Place C T) where
  -- What a read of `k` says about the object there: it is the one that is stored, under its key.
  abbrev pub Answers : NamespacedName → Result T → Option T → Type 0
  Answers k (ok x) there = (there ≡ some x) × (place.key_of x ≡ k)
  Answers k (err not_found) there = there ≡ none
  Answers k (err _) there = Unit

  abbrev pub Created : C → T → C → Type 0
  Created c x d =
      (place.objects c (place.key_of x) ≡ none)
      × (d ≡ place.store (put (place.key_of x) x (place.objects c)) c)

  -- An update that merges the stored object and the given one by `merge`.
  abbrev pub Merged : (T → T → T) → C → T → C → Type 0
  Merged merge c x d =
      (old : T) × (place.objects c (place.key_of x) ≡ some old)
      × (d ≡ place.store (put (place.key_of x) (merge old x) (place.objects c)) c)

pub record ClientLaws {W C T : Type 0} (client : Client W T) (cluster : W → C) (place : Place C T)
    : Type 0 where
  pub get_law :
      (c : C) (k : NamespacedName)
      → Triple
          (λ w. cluster w ≡ c)
          (try (client.get k))
          (λ r w. (cluster w ≡ c) × Answers place k r (place.objects c k))
          (λ w. cluster w ≡ c)
  pub create_law :
      (c : C) (x : T)
      → Triple
          (λ w. cluster w ≡ c)
          (client.create x)
          (λ _ w. Created place c x (cluster w))
          (λ w. (cluster w ≡ c) ⊎ Created place c x (cluster w))
  pub update_law :
      (c : C) (x : T)
      → Triple
          (λ w. cluster w ≡ c)
          (client.update x)
          (λ _ w. Merged place place.on_update c x (cluster w))
          (λ w. (cluster w ≡ c) ⊎ Merged place place.on_update c x (cluster w))
  pub update_status_law :
      (c : C) (x : T)
      → Triple
          (λ w. cluster w ≡ c)
          (client.update_status x)
          (λ _ w. Merged place place.on_status c x (cluster w))
          (λ w. (cluster w ≡ c) ⊎ Merged place place.on_status c x (cluster w))

-- A client whose calls leave `P` as it is.
pub record ClientKeeps {W T : Type 0} (client : Client W T) (P : W → Type 0) : Type 0 where
  pub get_keeps : (k : NamespacedName) → Keeps P (client.get k)
  pub create_keeps : (x : T) → Keeps P (client.create x)
  pub update_keeps : (x : T) → Keeps P (client.update x)

pub present-Keeps :
    {W T : Type 0} {P : W → Type 0} (r : Result T) {make : Exec W Unit}
    {reconcile : T → Exec W Unit}
    → Keeps P make
    → ((x : T) → Keeps P (reconcile x))
    → Keeps P (present r make reconcile)
unfolding present
present-Keeps (ok x) k l = l x
present-Keeps (err not_found) k l = k
present-Keeps (err _) k l = record { run = λ w h. h }

module _ {W C T : Type 0} {client : Client W T} {cluster : W → C} {place : Place C T}
    (L : ClientLaws client cluster place) where
  -- An object is read, made if it is not there, and otherwise reconciled.
  pub present_lem :
      (c : C) (k : NamespacedName) (x : T) (reconcile : T → Exec W Unit) (Q : C → Type 0)
      (E : C → Type 0)
      → E c
      → ((d : C) → place.objects c k ≡ none → Created place c x d → Q d)
      → ((d : C) → Created place c x d → E d)
      → ((y : T)
          → place.objects c k ≡ some y
          → place.key_of y ≡ k
          → Triple (λ w. cluster w ≡ c) (reconcile y) (λ _ w. Q (cluster w)) (λ w. E (cluster w)))
      → Triple
          (λ w. cluster w ≡ c)
          (try (client.get k) >>= λ r. present r (client.create x) reconcile)
          (λ _ w. Q (cluster w))
          (λ w. E (cluster w))
  unfolding present
  present_lem c k x reconcile Q E same made maybe found =
      Triple-bind (Triple-map (L.get_law c k) (λ r w h. h) (λ w h. rw h same)) after
    where
      after :
          (r : Result T)
          → Triple
              (λ w. (cluster w ≡ c) × Answers place k r (place.objects c k))
              (present r (client.create x) reconcile)
              (λ _ w. Q (cluster w))
              (λ w. E (cluster w))
      after (ok y) = record { run = λ w h. (found y h.1.0 h.1.1).run w h.0 }
      after (err not_found) = record {
        run = λ w h.
            (Triple-map (L.create_law c x) (λ _ v created. made (cluster v) h.1 created)
                (λ v e. elim e [
                  | inl kept ↦ rw kept same
                  | inr created ↦ maybe (cluster v) created
                ])).run
              w h.0;
      }
      after (err _) = record { run = λ w h. rw h.0 same }
