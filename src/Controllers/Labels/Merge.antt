-- ===== src/Controllers/Labels/Merge.antt =====
-- What `MergeLabels` has at a key, for maps that are listed in any order.
use cita_node_operator.Base.{
  String, ◌≡◌, refl, ap, ◌∙◌, Option, none, some, List, [], ◌∷◌, Dict, lookup, insert,
  lookup-insert, All, eq_iff, inl, inr, Bool-cases, ◌==◌,
}
use cita_node_operator.Controllers.Labels.{merge_into, merge_from, merge_labels}

-- A map has at most one entry for a key.
abbrev pub HasDistinctKeys : Dict String → Type 0
HasDistinctKeys [] = Unit
HasDistinctKeys ((k, v) ∷ d) = (lookup k d ≡ none) × HasDistinctKeys d

-- The first one, where it is given.
abbrev or_earlier : Option String → Option String → Option String
or_earlier (some v) earlier = some v
or_earlier none earlier = earlier

-- The value at a key in the last map that has one.
abbrev pub last_label : String → List (Dict String) → Option String
last_label j [] = none
last_label j (label ∷ all_labels) = or_earlier (last_label j all_labels) (lookup j label)

or_earlier_assoc :
    (a b c : Option String) → or_earlier a (or_earlier b c) ≡ or_earlier (or_earlier a b) c
or_earlier_assoc (some v) b c = refl
or_earlier_assoc none b c = refl

or_earlier-none : (a : Option String) → or_earlier a none ≡ a
or_earlier-none (some v) = refl
or_earlier-none none = refl

lookup-merge_into :
    (j : String) (lb label : Dict String)
    → HasDistinctKeys label
    → lookup j (merge_into lb label) ≡ or_earlier (lookup j label) (lookup j lb)
unfolding merge_into lookup
lookup-merge_into j lb [] h = refl
lookup-merge_into j lb ((k, v) ∷ label) h =
    lookup-merge_into j (insert k v lb) label h.1
    ∙ ap (or_earlier (lookup j label)) (lookup-insert k j v lb)
    ∙ elim (Bool-cases (k == j)) [
      | inl e ↦ rw (e, ← (eq_iff k j).0 e, h.0) refl
      | inr e ↦ rw e refl
    ]

lookup-merge_from :
    (j : String) (lb : Dict String) (all_labels : List (Dict String))
    → All HasDistinctKeys all_labels
    → lookup j (merge_from lb all_labels) ≡ or_earlier (last_label j all_labels) (lookup j lb)
unfolding merge_from
lookup-merge_from j lb [] h = refl
lookup-merge_from j lb (label ∷ all_labels) h =
    lookup-merge_from j (merge_into lb label) all_labels h.1
    ∙ ap (or_earlier (last_label j all_labels)) (lookup-merge_into j lb label h.0)
    ∙ or_earlier_assoc (last_label j all_labels) (lookup j label) (lookup j lb)

-- The merged labels have at each key the value of the last map that has the key, and no other key,
-- in whatever order the entries of each map are listed: each has at most one entry for a key.
pub lookup-merge_labels :
    (j : String) (all_labels : List (Dict String))
    → All HasDistinctKeys all_labels
    → lookup j (merge_labels all_labels) ≡ last_label j all_labels
unfolding merge_labels lookup
lookup-merge_labels j all_labels h =
    lookup-merge_from j [] all_labels h ∙ or_earlier-none (last_label j all_labels)
