-- ===== src/Snapshot/Pruning.antt =====
-- pkg/xds/xds.go: which routes are left on a node after the pruning.
use xds_controller.Prelude.{
  ℕ, Bool, true, ◌||◌, if◌then◌else◌, Option, none, some, Text, Map, insert, lookup-insert, ◌==◌,
  nat_eq, list_eq, List, [], ◌∷◌, ◌++◌, contains, contains-append, ◌≡◌, ◌↔◌, refl, arith, keep,
  Memᴰ, Bool-cases, inl, inr, ap, subst, sym, ◌∙◌, beq_of_eq, eq_of_beq,
}
use xds_controller.Snapshot.{
  Filter, Resource, ResourceType, listener_resource, route_resource, secret_resource,
  cluster_resource, endpoint_resource, route_type, listener_type, type_eq, items, resource_name,
}
use xds_controller.Snapshot.Memo.{PassMemo, get, end_pass, IsFresh, get_lem, end_pass-IsFresh}
use xds_controller.Snapshot.Routes.{
  Hcm, use_names, hcm_names, prune_unreferenced_routes, use_filters, use_chains, chains_of,
  use_listeners, route_references,
}

module _ (hcms : ℕ → Option Hcm) where
  -- The names that a chain refers to, decoded anew.
  abbrev pub filter_names : List Filter → List Text
  filter_names [] = []
  filter_names (f ∷ fs) =
      (elim f.typed_config [ none ↦ [] | some tc ↦ hcm_names (hcms tc) ]) ++ filter_names fs

  abbrev pub chain_names : List (List Filter) → List Text
  chain_names [] = []
  chain_names (fc ∷ fcs) = filter_names fc ++ chain_names fcs

  abbrev pub listener_names : List Resource → List Text
  listener_names [] = []
  listener_names (listener_resource l ∷ rs) = chain_names (chains_of hcms l) ++ listener_names rs
  listener_names (r ∷ rs) = listener_names rs

  abbrev Fresh : PassMemo (List Text) → Type 0
  Fresh memo = IsFresh (λ tc. hcm_names (hcms tc)) memo

  -- The loop has used exactly the names that were used before and those of the list.
  abbrev Uses : List Text → List Text → List Text × PassMemo (List Text) → Type 0
  Uses used names out =
      ((n : Text) → contains out.0 n ≡ (contains used n || contains names n)) × Fresh out.1

  contains-use_names :
      (used names : List Text) (n : Text)
      → contains (use_names used names) n ≡ (contains used n || contains names n)
  unfolding use_names contains
  contains-use_names used [] n = ground arith
  contains-use_names used (m ∷ ns) n = ground (
    arith,
    contains-use_names (if contains used m then used else used ++ m ∷ []) ns n,
    contains-append n used (m ∷ []),
    eq_of_beq n m,
  )

  Uses-empty :
      (used : List Text) (memo : PassMemo (List Text)) → Fresh memo → Uses used [] (used, memo)
  unfolding contains
  Uses-empty used memo h = (λ n. ground arith, h)

  -- Two loops one after the other.
  Uses-append :
      (used a b : List Text) (mid out : List Text × PassMemo (List Text))
      → Uses used a mid
      → Uses mid.0 b out
      → Uses used (a ++ b) out
  Uses-append used a b mid out h k = (λ n. ground (arith, h.0 n, k.0 n, contains-append n a b), k.1)

  use_filters-Uses :
      (fs : List Filter) (used : List Text) (memo : PassMemo (List Text))
      → Fresh memo
      → Uses used (filter_names fs) (use_filters hcms fs used memo)
  unfolding use_filters
  use_filters-Uses [] used memo h = Uses-empty used memo h
  use_filters-Uses (f ∷ fs) used memo h =
      by_config f.typed_config (λ u m k. use_filters-Uses fs u m k)
    where
      by_config :
          (config : Option ℕ)
          → ((u : List Text) (m : PassMemo (List Text))
              → Fresh m
              → Uses u (filter_names fs) (use_filters hcms fs u m))
          → Uses used
              ((elim config [ none ↦ [] | some tc ↦ hcm_names (hcms tc) ]) ++ filter_names fs)
              (elim config [
                | none ↦ use_filters hcms fs used memo
                | some tc ↦
                    let got = get tc (hcm_names (hcms tc)) memo in
                    use_filters hcms fs (use_names used got.0) got.1
              ])
      by_config none ih = ih used memo h
      by_config (some tc) ih =
          let names = hcm_names (hcms tc) in
          let (same, fresh) = get_lem (λ a. hcm_names (hcms a)) tc memo h in
          let rest = (get tc names memo).1 in
          rw same (
            Uses-append used names (filter_names fs) (use_names used names, rest)
              (use_filters hcms fs (use_names used names) rest)
              (λ n. contains-use_names used names n, fresh) (ih (use_names used names) rest fresh))

  use_chains-Uses :
      (fcs : List (List Filter)) (used : List Text) (memo : PassMemo (List Text))
      → Fresh memo
      → Uses used (chain_names fcs) (use_chains hcms fcs used memo)
  unfolding use_chains
  use_chains-Uses [] used memo h = Uses-empty used memo h
  use_chains-Uses (fc ∷ fcs) used memo h =
      let done = use_filters hcms fc used memo in
      let first = use_filters-Uses fc used memo h in
      Uses-append used (filter_names fc) (chain_names fcs) done (use_chains hcms fcs done.0 done.1)
        first (use_chains-Uses fcs done.0 done.1 first.1)

  use_listeners-Uses :
      (rs : List Resource) (used : List Text) (memo : PassMemo (List Text))
      → Fresh memo
      → Uses used (listener_names rs) (use_listeners hcms rs used memo)
  unfolding use_listeners
  use_listeners-Uses [] used memo h = Uses-empty used memo h
  use_listeners-Uses (listener_resource l ∷ rs) used memo h =
      let done = use_chains hcms (chains_of hcms l) used memo in
      let first = use_chains-Uses (chains_of hcms l) used memo h in
      Uses-append used (chain_names (chains_of hcms l)) (listener_names rs) done
        (use_listeners hcms rs done.0 done.1) first (use_listeners-Uses rs done.0 done.1 first.1)
  use_listeners-Uses (secret_resource n ∷ rs) used memo h = use_listeners-Uses rs used memo h
  use_listeners-Uses (cluster_resource n ∷ rs) used memo h = use_listeners-Uses rs used memo h
  use_listeners-Uses (route_resource n ∷ rs) used memo h = use_listeners-Uses rs used memo h
  use_listeners-Uses (endpoint_resource n ∷ rs) used memo h = use_listeners-Uses rs used memo h

  -- routeReferences finds a name exactly if some HTTP connection manager of some chain of the
  -- listeners, the default chain included, refers to it. What a memo from earlier passes holds does
  -- not show, if every value in it is what decoding its message gives, and it stays so.
  route_references_exact :
      (rs : List Resource) (memo : PassMemo (List Text))
      → IsFresh (λ tc. hcm_names (hcms tc)) memo
      → ((n : Text) → contains (route_references hcms rs memo).0 n ≡ contains (listener_names rs) n)
        × IsFresh (λ tc. hcm_names (hcms tc)) (end_pass (route_references hcms rs memo).1)
  unfolding route_references
  route_references_exact rs memo h =
      let (same, fresh) = use_listeners-Uses rs [] memo h in
      (
        λ n. same n ∙ unfold contains in refl,
        end_pass-IsFresh (λ tc. hcm_names (hcms tc)) (use_listeners hcms rs [] memo).1 fresh,
      )

mem_of-keep :
    {A : Type 0} (p : A → Bool) (r : A) (rs : List A)
    → Memᴰ r (keep p rs)
    → Memᴰ r rs × (p r ≡ true)
mem_of-keep p r [] m = elim m [ ]
mem_of-keep {A} p r (a ∷ rs) m = elim (Bool-cases (p a)) [
  | inr e ↦
      let (n, t) =
        mem_of-keep p r rs (subst (λ b. Memᴰ r (if b then a ∷ keep p rs else keep p rs)) e m) in
      (Memᴰ.tail n, t)
  | inl e ↦
      go e (subst (λ b. Memᴰ r (if b then a ∷ keep p rs else keep p rs)) e m) (mem_of-keep p r rs)
]
  where
    go :
        p a ≡ true
        → Memᴰ r (a ∷ keep p rs)
        → (Memᴰ r (keep p rs) → Memᴰ r rs × (p r ≡ true))
        → Memᴰ r (a ∷ rs) × (p r ≡ true)
    go e (Memᴰ.head q) ih = (Memᴰ.head q, ap p q ∙ e)
    go e (Memᴰ.tail n) ih = let (k, t) = ih n in (Memᴰ.tail k, t)

keep-of_mem :
    {A : Type 0} (p : A → Bool) (r : A) (rs : List A) → Memᴰ r rs → p r ≡ true → Memᴰ r (keep p rs)
keep-of_mem p r [] m h = elim m [ ]
keep-of_mem p r (a ∷ rs) (Memᴰ.head q) h = rw (sym (ap p q) ∙ h, keep) (Memᴰ.head q)
keep-of_mem p r (a ∷ rs) (Memᴰ.tail m) h = elim (Bool-cases (p a)) [
  | inl e ↦ rw (e, keep) (Memᴰ.tail (keep-of_mem p r rs m h))
  | inr e ↦ rw (e, keep) (keep-of_mem p r rs m h)
]

-- After routeReferences and pruneUnreferencedRoutes a node has exactly those of its routes to which
-- some listener of the node refers; the resources of every other type are as they were. The memo is
-- one whose values are what decoding gives.
pub pruned_exact :
    (hcms : ℕ → Option Hcm) (res : Map ResourceType (List Resource)) (memo : PassMemo (List Text))
    → IsFresh (λ tc. hcm_names (hcms tc)) memo
    → let out =
        prune_unreferenced_routes (route_references hcms (items listener_type res) memo).0 res in
      ((r : Resource)
        → Memᴰ r (items route_type out) ↔ (
            Memᴰ r (items route_type res)
            × (contains (listener_names hcms (items listener_type res)) (resource_name r) ≡ true)))
      × ((t : ResourceType)
          → items t out ≡ (if t == route_type then items route_type out else items t res))
unfolding prune_unreferenced_routes
pruned_exact hcms res memo h =
    let used = (route_references hcms (items listener_type res) memo).0 in
    let exact = (route_references_exact hcms (items listener_type res) memo h).0 in
    let kept = keep (λ r. contains used (resource_name r)) (items route_type res) in
    let here : items route_type (insert route_type kept res) ≡ kept =
      ground (arith, lookup-insert route_type route_type kept res) in
    (
      λ r. (
        λ m.
            let (n, e) =
              mem_of-keep (λ q. contains used (resource_name q)) r (items route_type res)
                (subst (λ l. Memᴰ r l) here m) in
            (n, sym (exact (resource_name r)) ∙ e),
        λ (n, e).
            subst (λ l. Memᴰ r l) (sym here)
              (keep-of_mem (λ q. contains used (resource_name q)) r (items route_type res) n
                (exact (resource_name r) ∙ e)),
      ),
      λ t. ground (
        arith,
        lookup-insert route_type t kept res,
        eq_of_beq route_type t,
        eq_of_beq t route_type,
        beq_of_eq route_type t,
      ),
    )
