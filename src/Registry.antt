-- ===== src/Registry.antt =====
-- controllers/cds/cluster_controller.go and controllers/eds/endpoint_controller.go: how the two
-- reconcilers file a named resource under one node. They share the code but for the name that they
-- go by, Name of a cluster and ClusterName of an endpoint, which is a parameter here.
pub mod View
pub mod Removal
pub mod Refines
pub mod Endpoints
pub mod Clusters
pub mod Ruling
pub mod Waiting
use xds_controller.Prelude.{
  ℕ, suc, ◌+◌, Bool, true, false, ◌&&◌, ◌||◌, not, if◌then◌else◌, Option, none, some, Text, Map,
  insert, lookup, ◌==◌, list_eq, nat_eq, List, [], ◌∷◌, ◌++◌, any, is_empty,
}
use xds_controller.Snapshot.{items}

-- the last element of a slice that begins with the first argument
unfoldable pub last : {A : Type 0} → A → List A → A
last a [] = a
last a (b ∷ bs) = last b bs

abbrev pub keys : {V : Type 0} → Map Text V → List Text
keys [] = []
keys ((k, v) ∷ m) = k ∷ keys m

module _ {A : Type 0} (name_of : A → Text) where
  abbrev pub Configs : Type 0
  Configs = Map Text (List A)

  abbrev pub named : Text → List A → Bool
  named name = any (λ r. name_of r == name)

  -- The loop that deletes from the slice it ranges over. Ranging goes by the length and the array at
  -- its start: a deletion moves what follows one place to the front, so that the next round skips an
  -- element, and leaves the last one behind the end of the slice (`stale`), where it is still
  -- visited. A match behind the end slices out of range, a panic, which is `none`.
  unfoldable pub range_delete : Text → List A → List A → Option (List A)
  unfolding last
  range_delete name [] stale = if named name stale then none else some []
  range_delete name (r ∷ []) stale =
      if named name stale then none else some (if name_of r == name then [] else r ∷ [])
  range_delete name (r ∷ q ∷ rest) stale =
      let cut = range_delete name rest (last q rest ∷ stale) in
      let on = range_delete name (q ∷ rest) stale in
      if name_of r == name
      then (elim cut [ none ↦ none | some out ↦ some (q ∷ out) ])
      else (elim on [ none ↦ none | some out ↦ some (r ∷ out) ])

  -- how many elements a call of `range_delete` deletes, when it returns: the counter moves as often
  unfoldable pub deletions : Text → List A → ℕ
  deletions name [] = 0
  deletions name (r ∷ rest) =
      let more = deletions name rest in if name_of r == name then suc more else more

  -- how often the counter moves when a name is removed from all nodes
  unfoldable pub deletions_in : Text → Map Text (List A) → ℕ
  unfolding deletions
  deletions_in name [] = 0
  deletions_in name ((k, rs) ∷ rest) = deletions name rs + deletions_in name rest

  -- append(s[:k], s[k+1:]...) at the first of the name
  unfoldable pub delete_first : Text → List A → List A
  delete_first name [] = []
  delete_first name (r ∷ rest) =
      let kept = r ∷ delete_first name rest in if name_of r == name then rest else kept

  -- s[k] = r at the first of the name
  unfoldable pub replace_first : A → List A → List A
  replace_first r [] = []
  replace_first r (q ∷ rest) =
      let kept = q ∷ replace_first r rest in if name_of q == name_of r then r ∷ rest else kept

  -- the first node, in the order in which the map is visited, that has the name
  unfoldable pub holder : Text → List Text → Configs → Option Text
  holder name [] configs = none
  holder name (k ∷ ks) configs =
      let later = holder name ks configs in if named name (items k configs) then some k else later

  -- the end of Reconcile, "Adding"
  unfoldable pub add_resource : Text → A → Configs → Configs
  add_resource node r configs = insert node (items node configs ++ r ∷ []) configs

  -- The rest of Reconcile for a resource that converts: "Replacing", "Updating" or "Adding". Each
  -- moves the counter once.
  unfoldable pub place : Text → A → Configs → Configs
  unfolding add_resource holder delete_first replace_first
  place node r configs = elim (holder (name_of r) (keys configs) configs) [
    | none ↦ add_resource node r configs
    | some k ↦
        if k == node
        then insert k (replace_first r (items k configs)) configs
        else add_resource node r (insert k (delete_first (name_of r) (items k configs)) configs)
  ]

  -- Reconcile for an object that is gone, over the keys left to visit
  unfoldable pub remove_from : Text → List Text → Configs → Option Configs
  unfolding range_delete
  remove_from name [] configs = some configs
  remove_from name (k ∷ ks) configs = elim (range_delete name (items k configs) []) [
    | none ↦ none
    | some kept ↦ remove_from name ks (insert k kept configs)
  ]

  unfoldable pub remove : Text → Configs → Option Configs
  unfolding remove_from
  remove name configs = remove_from name (keys configs) configs
