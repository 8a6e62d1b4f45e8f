-- ===== src/Registry/Ruling.antt =====
-- controllers/cds/cluster_controller.go: what a cluster needs in order to be served, and what it is
-- served with, said without the loop of mergeEndpointRefs.
use xds_controller.Prelude.{
  ℕ, ◌+◌, true, not, ◌&&◌, if◌then◌else◌, Option, none, some, Text, Map, insert, ◌==◌, list_eq,
  nat_eq, List, [], ◌∷◌, ◌++◌, is_empty, ◌≡◌, refl, arith, ap, ◌∙◌, Option-cases, Bool-cases, inl,
  inr,
}
use mathlib.Core.List.{append-nil, append_assoc}
use xds_controller.Registry.Endpoints.{
  Assignment, Answer, found, missing, unreadable, count_endpoints,
}
use xds_controller.Registry.Clusters.{
  ClusterObject, Standing, placed, waiting, failed, set_all, or_else, merge_endpoint, merge_refs,
  base, merge_endpoint_refs, has_inline, judge,
}

-- the assignments that the references lead to, in their order: those of the endpoints that exist and
-- convert; `none` if one cannot be read
abbrev pub resolve : (Text → Answer (Option Assignment)) → List Text → Option (List Assignment)
resolve get [] = some []
resolve get (ref ∷ refs) =
    let rest = resolve get refs in
    elim (get ref) [
      | unreadable ↦ none
      | missing ↦ rest
      | found o ↦ elim o [
        | none ↦ rest
        | some eds ↦ elim rest [ none ↦ none | some es ↦ some (eds ∷ es) ]
      ]
    ]

-- all their endpoints, all their named endpoints, and the last of their policies
abbrev pub endpoints_of : List Assignment → List (Option (List Text))
endpoints_of [] = []
endpoints_of (e ∷ es) = e.endpoints ++ endpoints_of es

abbrev pub named_of : List Assignment → Map Text Text
named_of [] = []
named_of (e ∷ es) = e.named_endpoints ++ named_of es

abbrev pub last_policy : Option Text → List Assignment → Option Text
last_policy old [] = old
last_policy old (e ∷ es) = last_policy (or_else e.policy old) es

-- an assignment with others added to its own
abbrev pub extended : Assignment → List Assignment → Assignment
extended la es = record {
  cluster_name = la.cluster_name;
  endpoints = la.endpoints ++ endpoints_of es;
  named_endpoints = set_all la.named_endpoints (named_of es);
  policy = last_policy la.policy es;
}

-- What a cluster is due: without references, to be served as it converts. With references, all of which
-- can be read, it waits if it has no endpoints of its own and the references lead to none; else it is
-- served with its own assignment, to which those of the references are added.
abbrev pub ruling : (Text → Answer (Option Assignment)) → ClusterObject → Standing
ruling get cl = elim cl.recast [
  | none ↦ failed
  | some recast ↦
      if is_empty cl.endpoint_refs
      then placed (record recast { name = cl.name })
      else elim (resolve get cl.endpoint_refs) [
        | none ↦ failed
        | some es ↦
            if not (has_inline recast) && count_endpoints (endpoints_of es) == 0
            then waiting
            else placed (record {
              name = cl.name;
              load_assignment = some (extended (base cl.name recast) es);
            })
      ]
]

set_all-append : (m a b : Map Text Text) → set_all m (a ++ b) ≡ set_all (set_all m a) b
unfolding set_all
set_all-append m [] b = refl
set_all-append m ((k, v) ∷ a) b = set_all-append (insert k v m) a b

count-append :
    (a b : List (Option (List Text)))
    → count_endpoints (a ++ b) ≡ count_endpoints a + count_endpoints b
unfolding count_endpoints
count-append [] b = ground arith
count-append (none ∷ a) b = ground (arith, count-append a b)
count-append (some eps ∷ a) b = ground (arith, count-append a b)

count_none : (a : List (Option (List Text))) → is_empty a ≡ true → count_endpoints a ≡ 0
unfolding count_endpoints
count_none [] h = refl
count_none (l ∷ a) h = absurd (ground arith)

extended-cons :
    (la e : Assignment) (es : List Assignment)
    → extended (merge_endpoint e la) es ≡ extended la (e ∷ es)
unfolding merge_endpoint
extended-cons la e es =
    let ends = append_assoc la.endpoints e.endpoints (endpoints_of es) in
    let names = set_all-append la.named_endpoints e.named_endpoints (named_of es) in
    rw (ends, names) refl

-- what the loop of mergeEndpointRefs is to return
abbrev merged : Option (List Assignment) → Assignment → ℕ → Option (Assignment × ℕ)
merged none la n = none
merged (some es) la n = some (extended la es, n + count_endpoints (endpoints_of es))

merged-cons :
    (o : Option (List Assignment)) (eds la : Assignment) (n : ℕ)
    → merged o (merge_endpoint eds la) (n + count_endpoints eds.endpoints)
      ≡ merged (elim o [ none ↦ none | some es ↦ some (eds ∷ es) ]) la n
merged-cons none eds la n = refl
merged-cons (some es) eds la n =
    let sum : n + count_endpoints eds.endpoints + count_endpoints (endpoints_of es)
        ≡ n + count_endpoints (eds.endpoints ++ endpoints_of es) =
      ground (arith, count-append eds.endpoints (endpoints_of es)) in
    rw (extended-cons la eds es, sum) refl

merge_ref_lem :
    (get : Text → Answer (Option Assignment)) (ref : Text) (refs : List Text) (la : Assignment)
    (n : ℕ) (a : Answer (Option Assignment))
    → get ref ≡ a
    → ((la' : Assignment) (n' : ℕ)
        → merge_refs get refs (la', n') ≡ merged (resolve get refs) la' n')
    → merge_refs get (ref ∷ refs) (la, n) ≡ merged (resolve get (ref ∷ refs)) la n
unfolding merge_refs
merge_ref_lem get ref refs la n unreadable e ih = rw (e, merge_refs, resolve) refl
merge_ref_lem get ref refs la n missing e ih = rw (e, merge_refs, resolve) (ih la n)
merge_ref_lem get ref refs la n (found none) e ih = rw (e, merge_refs, resolve) (ih la n)
merge_ref_lem get ref refs la n (found (some eds)) e ih =
    rw (e, merge_refs, resolve)
      (ih (merge_endpoint eds la) (n + count_endpoints eds.endpoints)
        ∙ merged-cons (resolve get refs) eds la n)

-- The loop adds the assignments that the references lead to, and counts their endpoints.
merge_refs_lem :
    (get : Text → Answer (Option Assignment)) (refs : List Text) (la : Assignment) (n : ℕ)
    → merge_refs get refs (la, n) ≡ merged (resolve get refs) la n
unfolding merge_refs set_all
merge_refs_lem get [] la n =
    let own = append-nil la.endpoints in
    let sum : n ≡ n + 0 = omega arith in
    unfold count_endpoints in rw own (ap (λ (m : ℕ). some (la, m)) sum)
merge_refs_lem get (ref ∷ refs) la n =
    merge_ref_lem get ref refs la n (get ref) refl (λ la' n'. merge_refs_lem get refs la' n')

-- The reconciler's decision is what the cluster is due.
pub judge-eq-ruling :
    (get : Text → Answer (Option Assignment)) (cl : ClusterObject) → judge get cl ≡ ruling get cl
unfolding judge merge_endpoint_refs
judge-eq-ruling get cl = elim (Option-cases cl.recast) [
  | inl e ↦ rw (e, judge) refl
  | inr (recast, e) ↦ elim (Bool-cases (is_empty cl.endpoint_refs)) [
    | inl r ↦ rw (e, r, judge) refl
    | inr r ↦
        let la = base cl.name recast in
        let loop = merge_refs_lem get cl.endpoint_refs la 0 in
        elim (Option-cases (resolve get cl.endpoint_refs)) [
          | inl q ↦ ground arith
          | inr (es, q) ↦
              let sum = count-append la.endpoints (endpoints_of es) in
              let zero = count_none (la.endpoints ++ endpoints_of es) in ground arith
        ]
  ]
]
