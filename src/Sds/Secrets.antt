-- ===== src/Sds/Secrets.antt =====
-- controllers/sds/tlssecret_controller.go: where Reconcile puts the secret of a TLSSecret in the
-- configuration.
use xds_controller.Prelude.{
  ℕ, suc, ◌+◌, Bool, true, false, not, ◌&&◌, ◌||◌, if◌then◌else◌, Option, none, some, Text, Map,
  lookup, insert, lookup-insert, ◌==◌, nat_eq, list_eq, List, [], ◌∷◌, ◌++◌, length, ◌≡◌, refl,
  arith, Bool-cases, Option-cases, inl, inr, eq_of_beq, beq_of_eq, subst, sym, ap, ◌≤◌,
}
use xds_controller.Registry.View.{find, find-append}

-- tlsv3.Secret, with the certificate chain and the key of a TLS certificate
pub record Secret : Type 0 where
  pub name : Text
  pub tls_certificate : Option (Text × Text)

-- secretsEqual; two certificates that are absent are the same pointer
unfoldable pub secrets_equal : Secret → Secret → Bool
secrets_equal a b = if not (a.name == b.name) then false else elim a.tls_certificate [
  | none ↦ elim b.tls_certificate [ none ↦ true | some d ↦ false ]
  | some c ↦ elim b.tls_certificate [ none ↦ false | some d ↦ c.0 == d.0 && c.1 == d.1 ]
]

abbrev pub SecretConfigs : Type 0
SecretConfigs = Map Text (List Secret)

-- the slice that removeSecretByName keeps
unfoldable pub without_name : Text → List Secret → List Secret
without_name name [] = []
without_name name (s ∷ ss) =
    let rest = without_name name ss in if s.name == name then rest else s ∷ rest

-- removeSecretByName for every node but one, and how many nodes it changed
unfoldable pub remove_elsewhere : Text → Text → SecretConfigs → SecretConfigs × ℕ
unfolding without_name
remove_elsewhere node name [] = ([], 0)
remove_elsewhere node name ((n, v) ∷ configs) =
    let rest = remove_elsewhere node name configs in
    let kept = without_name name v in
    if n == node || length v == length kept
    then ((n, v) ∷ rest.0, rest.1)
    else ((n, kept) ∷ rest.0, suc rest.1)

-- removeSecretFromConfigs: every node, and how often the counter moves
unfoldable pub remove_everywhere : Text → SecretConfigs → SecretConfigs × ℕ
unfolding without_name
remove_everywhere name [] = ([], 0)
remove_everywhere name ((n, v) ∷ configs) =
    let rest = remove_everywhere name configs in
    let kept = without_name name v in
    if length v == length kept then ((n, v) ∷ rest.0, rest.1) else ((n, kept) ∷ rest.0, suc rest.1)

-- the loop over the node's own secrets up to the first of the name: `none` if there is none, else
-- the secrets and whether one was replaced
unfoldable pub replace_first : Secret → List Secret → Option (List Secret × Bool)
unfolding secrets_equal
replace_first sds [] = none
replace_first sds (v ∷ vs) =
    if v.name == sds.name
    then (if secrets_equal v sds then some (v ∷ vs, false) else some (sds ∷ vs, true))
    else elim (replace_first sds vs) [ none ↦ none | some p ↦ some (v ∷ p.0, p.1) ]

abbrev pub secrets_of : Text → SecretConfigs → List Secret
secrets_of node configs = elim (lookup node configs) [ none ↦ [] | some v ↦ v ]

-- the part of Reconcile under the lock: the configuration and the change counter after it
unfoldable pub place_secret : Text → Secret → SecretConfigs → ℕ → SecretConfigs × ℕ
unfolding remove_elsewhere replace_first
place_secret node sds configs counter =
    let swept = remove_elsewhere node sds.name configs in
    let own = secrets_of node swept.0 in
    elim (replace_first sds own) [
      | none ↦ (insert node (own ++ sds ∷ []) swept.0, counter + swept.1 + 1)
      | some p ↦
          if p.1
          then (insert node p.0 swept.0, counter + swept.1 + 1)
          else (swept.0, counter + swept.1)
    ]

abbrev pub secret_name : Secret → Text
secret_name s = s.name

find-without_name :
    (name n : Text) (ss : List Secret)
    → find secret_name n (without_name name ss)
      ≡ (if name == n then none else find secret_name n ss)
unfolding without_name
find-without_name name n [] = ground arith
find-without_name name n (s ∷ ss) = ground (
  arith,
  find-without_name name n ss,
  eq_of_beq s.name name,
  eq_of_beq s.name n,
  eq_of_beq name n,
  beq_of_eq s.name name,
  beq_of_eq name n,
)

without_name_idem :
    (name : Text) (ss : List Secret)
    → without_name name (without_name name ss) ≡ without_name name ss
unfolding without_name
without_name_idem name [] = refl
without_name_idem name (s ∷ ss) = ground (arith, without_name_idem name ss)

without_name-append :
    (sds : Secret) (ss : List Secret)
    → without_name sds.name (ss ++ sds ∷ []) ≡ without_name sds.name ss
unfolding without_name
without_name-append sds [] = ground (arith, beq_of_eq sds.name sds.name refl)
without_name-append sds (s ∷ ss) = ground (arith, without_name-append sds ss)

without_name-length : (name : Text) (ss : List Secret) → length (without_name name ss) ≤ length ss
unfolding without_name
without_name-length name [] = omega arith
without_name-length name (s ∷ ss) = ground (arith, without_name-length name ss)

without_name-same :
    (name : Text) (ss : List Secret)
    → length ss ≡ length (without_name name ss)
    → without_name name ss ≡ ss
unfolding without_name
without_name-same name [] h = refl
without_name-same name (s ∷ ss) h =
    ground (arith, without_name-same name ss, without_name-length name ss)

secrets_of-elsewhere :
    (node name other : Text) (configs : SecretConfigs)
    → secrets_of other (remove_elsewhere node name configs).0 ≡ (
        if other == node
        then secrets_of other configs
        else without_name name (secrets_of other configs))
unfolding remove_elsewhere lookup
secrets_of-elsewhere node name other [] = unfold without_name in ground arith
secrets_of-elsewhere node name other ((n, v) ∷ configs) = ground (
  arith,
  secrets_of-elsewhere node name other configs,
  without_name-same name v,
  eq_of_beq n other,
  eq_of_beq n node,
  eq_of_beq other node,
  beq_of_eq n node,
  beq_of_eq other node,
)

elsewhere-same :
    (node name : Text) (configs : SecretConfigs)
    → (remove_elsewhere node name configs).1 ≡ 0
    → (remove_elsewhere node name configs).0 ≡ configs
unfolding remove_elsewhere
elsewhere-same node name [] h = refl
elsewhere-same node name ((n, v) ∷ configs) h = ground (arith, elsewhere-same node name configs)

same_certificate :
    (c d : Option (Text × Text)) (n m : Text)
    → n ≡ m
    → secrets_equal
        (record { name = n; tls_certificate = c })
        (record { name = m; tls_certificate = d })
      ≡ true
    → c ≡ d
unfolding secrets_equal
same_certificate none none n m e h = refl
same_certificate none (some d) n m e h = ground arith
same_certificate (some c) none n m e h = ground arith
same_certificate (some (a, b)) (some (c, d)) n m e h = ground (arith, eq_of_beq a c, eq_of_beq b d)

-- Two secrets that secretsEqual takes for equal have the same name, certificate and key.
eq-of_secrets_equal : (a b : Secret) → a.name ≡ b.name → secrets_equal a b ≡ true → a ≡ b
eq-of_secrets_equal a b e h =
    let f = same_certificate a.tls_certificate b.tls_certificate a.name b.name e h in
    λ i. record { name = e i; tls_certificate = f i }

replace_first-absent :
    (sds : Secret) (ss : List Secret)
    → replace_first sds ss ≡ none
    → find secret_name sds.name ss ≡ none
unfolding replace_first
replace_first-absent sds [] h = refl
replace_first-absent sds (v ∷ vs) h = ground (arith, replace_first-absent sds vs)

-- If a secret of the name is there, the first of the name is the new one afterwards, those of other
-- names are as they were, and without a replacement nothing has changed.
replace_first_lem :
    (sds : Secret) (ss : List Secret) (p : List Secret × Bool)
    → replace_first sds ss ≡ some p
    → (find secret_name sds.name p.0 ≡ some sds)
      × (without_name sds.name p.0 ≡ without_name sds.name ss)
      × (p.1 ≡ false → p.0 ≡ ss)
unfolding replace_first without_name
replace_first_lem sds [] p h = cc
replace_first_lem sds (v ∷ vs) p h = elim (Bool-cases (v.name == sds.name)) [
  | inl e ↦ elim (Bool-cases (secrets_equal v sds)) [
    | inl q ↦
        let same : v ≡ sds = eq-of_secrets_equal v sds (eq_of_beq v.name sds.name e) q in
        let is : p ≡ (v ∷ vs, false) = ground arith in
        subst
          (λ (r : List Secret × Bool).
            (find secret_name sds.name r.0 ≡ some sds)
            × (without_name sds.name r.0 ≡ without_name sds.name (v ∷ vs))
            × (r.1 ≡ false → r.0 ≡ v ∷ vs))
          (sym is) (ground arith, refl, λ r. refl)
    | inr q ↦
        let is : p ≡ (sds ∷ vs, true) = ground arith in
        subst
          (λ (r : List Secret × Bool).
            (find secret_name sds.name r.0 ≡ some sds)
            × (without_name sds.name r.0 ≡ without_name sds.name (v ∷ vs))
            × (r.1 ≡ false → r.0 ≡ v ∷ vs))
          (sym is)
          (
            ground (arith, beq_of_eq sds.name sds.name refl),
            ground (arith, beq_of_eq sds.name sds.name refl),
            λ r. cc,
          )
  ]
  | inr e ↦ elim (Option-cases (replace_first sds vs)) [
    | inl n ↦ absurd (ground arith)
    | inr (q, r) ↦
        let (at, others, still) = replace_first_lem sds vs q r in
        let is : p ≡ (v ∷ q.0, q.1) = ground arith in
        subst
          (λ (r : List Secret × Bool).
            (find secret_name sds.name r.0 ≡ some sds)
            × (without_name sds.name r.0 ≡ without_name sds.name (v ∷ vs))
            × (r.1 ≡ false → r.0 ≡ v ∷ vs))
          (sym is)
          (ground arith, ground arith, λ unmoved. ap (λ (l : List Secret). v ∷ l) (still unmoved))
  ]
]

secrets_of-insert :
    (node other : Text) (v : List Secret) (configs : SecretConfigs)
    → secrets_of other (insert node v configs)
      ≡ (if node == other then v else secrets_of other configs)
secrets_of-insert node other v configs = ground (arith, lookup-insert node other v configs)

-- After Reconcile has placed a secret, the node that it belongs to has it as the one of its name, no
-- other node has one of that name, wherever copies were before, and the secrets of other names are as
-- they were.
pub place_secret_exact :
    (node other : Text) (sds : Secret) (configs : SecretConfigs) (counter : ℕ)
    → let after = secrets_of other (place_secret node sds configs counter).0 in
      (find secret_name sds.name after ≡ (if other == node then some sds else none))
      × (without_name sds.name after ≡ without_name sds.name (secrets_of other configs))
unfolding place_secret
place_secret_exact node other sds configs counter =
    let swept = (remove_elsewhere node sds.name configs).0 in
    let own = secrets_of node swept in
    let there = secrets_of-elsewhere node sds.name other configs in
    let gone = find-without_name sds.name sds.name (secrets_of other configs) in
    let idem = without_name_idem sds.name (secrets_of other configs) in
    let same = eq_of_beq other node in
    let back = eq_of_beq node other in
    let self = beq_of_eq sds.name sds.name refl in
    let here = beq_of_eq other node in
    elim (Option-cases (replace_first sds own)) [
      | inl e ↦
          let empty = replace_first-absent sds own e in
          let put = find-append secret_name sds.name own sds in
          let rest = without_name-append sds own in
          rw (e, place_secret, secrets_of-insert node other (own ++ sds ∷ []) swept)
            (ground arith, ground arith)
      | inr (p, e) ↦
          let (at, others, still) = replace_first_lem sds own p e in
          elim (Bool-cases p.1) [
            | inl r ↦
                rw (e, r, place_secret, secrets_of-insert node other p.0 swept)
                  (ground arith, ground arith)
            | inr r ↦
                let unmoved : p.0 ≡ own = still r in
                rw (e, r, place_secret) (ground arith, ground arith)
          ]
    ]

-- If placing a secret leaves the change counter as it was, it has left the configuration as it was.
place_secret-counted :
    (node : Text) (sds : Secret) (configs : SecretConfigs) (counter : ℕ)
    → (place_secret node sds configs counter).1 ≡ counter
    → (place_secret node sds configs counter).0 ≡ configs
unfolding place_secret
place_secret-counted node sds configs counter h =
    ground (arith, elsewhere-same node sds.name configs)

-- After removeSecretFromConfigs no node has a secret of the name, and every secret of another name
-- stays where it is, in its order.
remove_everywhere_exact :
    (name node : Text) (configs : SecretConfigs)
    → secrets_of node (remove_everywhere name configs).0
      ≡ without_name name (secrets_of node configs)
unfolding remove_everywhere lookup
remove_everywhere_exact name node [] = unfold without_name in refl
remove_everywhere_exact name node ((n, v) ∷ configs) =
    ground (arith, remove_everywhere_exact name node configs, without_name-same name v)
