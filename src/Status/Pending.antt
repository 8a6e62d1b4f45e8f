-- ===== src/Status/Pending.antt =====
-- pkg/status/status.go: the marks of listeners that wait for a rebuild.
use xds_controller.Prelude.{
  ℕ, ◌+◌, ◌%◌, ◌≤◌, ◌<◌, ◌^◌, true, false, none, some, Text, lookup, ◌==◌, list_eq, nat_eq,
  eq_of_beq, beq_of_eq, lookup-insert, lookup-delete, ◌≡◌, ◌≢◌, refl, if◌then◌else◌, subst, arith,
  is_empty-of_lookup, List, [], ◌∷◌, All, Bool-cases, Option-cases, inl, inr, Memᴰ, ◌⊎◌,
}
use xds_controller.Status.{
  ReconciliationStatus, Op, sets_has, marks, clears, step, run, listener_pending_seq,
  clear_listener_pending, has_pending_listeners, all_reconciled,
}

-- The number of marks among the calls.
abbrev pub marks_made : List Op → ℕ
marks_made [] = 0
marks_made (marks key ∷ ops) = 1 + marks_made ops
marks_made (sets_has k b ∷ ops) = marks_made ops
marks_made (_ ∷ ops) = marks_made ops

-- A clear of `key` has a token that was taken when the counter was at most `n`.
abbrev pub IsStale : Text → ℕ → Op → Type 0
IsStale key n (clears j seq) = j ≡ key → seq ≤ n
IsStale key n (marks j) = Unit
IsStale key n _ = Unit

-- No stored mark is above the counter.
abbrev pub IsBounded : ReconciliationStatus → Type 0
IsBounded s = (key : Text) (v : ℕ) → lookup key s.pending_listeners ≡ some v → v ≤ s.pending_seq

abbrev IsMarked : Text → ℕ → ReconciliationStatus → Type 0
IsMarked key n s = (v : ℕ) × (lookup key s.pending_listeners ≡ some v) × (n < v)

step_counter :
    (op : Op) (s : ReconciliationStatus)
    → s.pending_seq + marks_made (op ∷ []) < 2 ^ 64
    → (step op s).pending_seq ≡ s.pending_seq + marks_made (op ∷ [])
unfolding step
step_counter (marks key) s h = omega arith
step_counter (clears key seq) s h = ground arith
step_counter (sets_has k b) s h = ground arith
step_counter _ s h = omega arith

marks_made-cons :
    (op : Op) (ops : List Op) → marks_made (op ∷ ops) ≡ marks_made (op ∷ []) + marks_made ops
marks_made-cons (marks key) ops = omega arith
marks_made-cons _ ops = omega arith

-- Once marked above `n`, a key stays so, since a stale token differs from its mark.
step-IsMarked :
    (key : Text) (n : ℕ) (op : Op) (s : ReconciliationStatus)
    → IsStale key n op
    → n ≤ s.pending_seq
    → s.pending_seq + marks_made (op ∷ []) < 2 ^ 64
    → IsMarked key n s
    → IsMarked key n (step op s)
unfolding step
step-IsMarked key n (marks j) s st le room (v, p, lt) = elim (Bool-cases (j == key)) [
  | inl e ↦ (
    s.pending_seq + 1,
    ground (arith, lookup-insert j key ((s.pending_seq + 1) % 2 ^ 64) s.pending_listeners),
    omega arith,
  )
  | inr e ↦ (
    v,
    ground (arith, lookup-insert j key ((s.pending_seq + 1) % 2 ^ 64) s.pending_listeners),
    lt,
  )
]
step-IsMarked key n (clears j seq) s st le room (v, p, lt) =
    (v, ground (arith, lookup-delete j key s.pending_listeners, eq_of_beq j key, st), lt)
step-IsMarked key n (sets_has k b) s st le room (v, p, lt) = (v, ground arith, lt)
step-IsMarked key n _ s st le room m = m

step-pending_seq-le :
    (op : Op) (n : ℕ) (s : ReconciliationStatus)
    → s.pending_seq + marks_made (op ∷ []) < 2 ^ 64
    → n ≤ s.pending_seq
    → n ≤ (step op s).pending_seq
step-pending_seq-le op n s room le = omega (arith, step_counter op s room)

run-IsMarked :
    (key : Text) (n : ℕ) (ops : List Op) (s : ReconciliationStatus)
    → All (IsStale key n) ops
    → n ≤ s.pending_seq
    → s.pending_seq + marks_made ops < 2 ^ 64
    → IsMarked key n s
    → IsMarked key n (run ops s)
unfolding run
run-IsMarked key n [] s st le room m = m
run-IsMarked key n (op ∷ ops) s st le room m =
    let split = marks_made-cons op ops in
    let here : s.pending_seq + marks_made (op ∷ []) < 2 ^ 64 = omega (arith, split) in
    run-IsMarked key n ops (step op s) st.1 (step-pending_seq-le op n s here le)
      (omega (arith, split, step_counter op s here)) (step-IsMarked key n op s st.0 le here m)

mark-IsMarked :
    (key : Text) (n : ℕ) (op : Op) (s : ReconciliationStatus)
    → marks key ≡ op
    → n ≤ s.pending_seq
    → s.pending_seq + marks_made (op ∷ []) < 2 ^ 64
    → IsMarked key n (step op s)
unfolding step
mark-IsMarked key n op s e le room =
    subst (λ o. s.pending_seq + marks_made (o ∷ []) < 2 ^ 64 → IsMarked key n (step o s)) e
      (λ fits. (
        s.pending_seq + 1,
        ground (
          arith,
          lookup-insert key key ((s.pending_seq + 1) % 2 ^ 64) s.pending_listeners,
          beq_of_eq key key refl,
        ),
        omega arith,
      ))
      room

run_mark-IsMarked :
    (key : Text) (n : ℕ) (ops : List Op) (s : ReconciliationStatus)
    → All (IsStale key n) ops
    → n ≤ s.pending_seq
    → s.pending_seq + marks_made ops < 2 ^ 64
    → Memᴰ (marks key) ops
    → IsMarked key n (run ops s)
unfolding run
run_mark-IsMarked key n [] s st le room m = elim m [ ]
run_mark-IsMarked key n (op ∷ ops) s st le room m =
    let split = marks_made-cons op ops in
    let here : s.pending_seq + marks_made (op ∷ []) < 2 ^ 64 = omega (arith, split) in
    let later : (step op s).pending_seq + marks_made ops < 2 ^ 64 =
      omega (arith, split, step_counter op s here) in
    let le' = step-pending_seq-le op n s here le in
    elim m [
      | Memᴰ.head e ↦
          run-IsMarked key n ops (step op s) st.1 le' later (mark-IsMarked key n op s e le here)
      | Memᴰ.tail m' ↦ run_mark-IsMarked key n ops (step op s) st.1 le' later m'
    ]

token-le :
    (key : Text) (s : ReconciliationStatus)
    → IsBounded s
    → listener_pending_seq key s ≤ s.pending_seq
unfolding listener_pending_seq
token-le key s b = elim (Option-cases (lookup key s.pending_listeners)) [
  | inl e ↦ rw e (omega arith)
  | inr (v, e) ↦ rw e (b key v e)
]

clear-IsMarked :
    (key : Text) (n seq : ℕ) (s : ReconciliationStatus)
    → seq ≤ n
    → IsMarked key n s
    → IsMarked key n (clear_listener_pending key seq s)
unfolding clear_listener_pending
clear-IsMarked key n seq s le (v, p, lt) = (v, ground arith, lt)

pending_of-IsMarked :
    (key : Text) (n : ℕ) (s : ReconciliationStatus)
    → IsMarked key n s
    → (has_pending_listeners s ≡ true) × (all_reconciled s ≡ false)
unfolding all_reconciled
pending_of-IsMarked key n s (v, p, lt) =
    let nonempty = is_empty-of_lookup key s.pending_listeners p in (ground arith, ground arith)

-- A rebuild of a listener takes its token, runs, and clears the mark with the token. When a route
-- marks the listener during the rebuild, and all other clears of that listener in the meantime use
-- tokens taken before it, then after the rebuild's clear some listener is still pending, and
-- AllReconciled is false. No mark is above the counter, and the counter, a uint64, does not wrap on the way.
pub clear_keeps_new_mark :
    (key : Text) (ops : List Op) (s : ReconciliationStatus)
    → IsBounded s
    → s.pending_seq + marks_made ops < 2 ^ 64
    → All (IsStale key s.pending_seq) ops
    → Memᴰ (marks key) ops
    → let done = clear_listener_pending key (listener_pending_seq key s) (run ops s) in
      (has_pending_listeners done ≡ true) × (all_reconciled done ≡ false)
clear_keeps_new_mark key ops s b room st m =
    let n = s.pending_seq in
    pending_of-IsMarked key n _ (
      clear-IsMarked key n (listener_pending_seq key s) (run ops s) (token-le key s b)
        (run_mark-IsMarked key n ops s st (omega arith) room m))

-- No call marks `key`.
abbrev pub Unmarked : Text → Op → Type 0
Unmarked key (marks j) = j ≢ key
Unmarked key (sets_has k b) = Unit
Unmarked key _ = Unit

abbrev Settled : Text → ReconciliationStatus → ReconciliationStatus → Type 0
Settled key s t =
    (lookup key t.pending_listeners ≡ none)
    ⊎ (lookup key t.pending_listeners ≡ lookup key s.pending_listeners)

step-Settled :
    (key : Text) (op : Op) (s t : ReconciliationStatus)
    → Unmarked key op
    → Settled key s t
    → Settled key s (step op t)
unfolding step
step-Settled key (marks j) s t u h = ground (
  arith,
  lookup-insert j key ((t.pending_seq + 1) % 2 ^ 64) t.pending_listeners,
  eq_of_beq j key,
  u,
)
step-Settled key (clears j seq) s t u h = ground (arith, lookup-delete j key t.pending_listeners)
step-Settled key (sets_has k b) s t u h = ground arith
step-Settled key _ s t u h = h

run-Settled :
    (key : Text) (ops : List Op) (s t : ReconciliationStatus)
    → All (Unmarked key) ops
    → Settled key s t
    → Settled key s (run ops t)
unfolding run
run-Settled key [] s t u h = h
run-Settled key (op ∷ ops) s t u h =
    run-Settled key ops s (step op t) u.1 (step-Settled key op s t u.0 h)

-- When nothing marks the listener during its rebuild, the clear with the rebuild's token leaves no
-- mark of it, and leaves the marks of all other listeners as they are.
clear_after_quiet_rebuild :
    (key j : Text) (ops : List Op) (s : ReconciliationStatus)
    → All (Unmarked key) ops
    → let done = clear_listener_pending key (listener_pending_seq key s) (run ops s) in
      lookup j done.pending_listeners
      ≡ (if key == j then none else lookup j (run ops s).pending_listeners)
unfolding clear_listener_pending
clear_after_quiet_rebuild key j ops s u = ground (
  arith,
  run-Settled key ops s s u (inr refl),
  eq_of_beq key j,
  lookup-delete key j (run ops s).pending_listeners,
)
