-- ===== src/Snapshot/Memo.antt =====
-- pkg/xds/hash.go: passMemo, which keeps values between passes by the address of a message. A nil
-- memo, which only computes, is left out.
use xds_controller.Prelude.{
  ℕ, none, some, Map, lookup, insert, lookup-insert, nat_eq, [], ◌≡◌, refl, arith, Option-cases,
  inl, inr, eq_of_beq,
}

pub record PassMemo (V : Type 0) : Type 0 where
  pub cur : Map ℕ V
  pub prev : Map ℕ V

-- endPass
unfoldable pub end_pass : {V : Type 0} → PassMemo V → PassMemo V
end_pass p = record { cur = []; prev = p.cur }

-- get, with the value that `compute` would return
unfoldable pub get : {V : Type 0} → ℕ → V → PassMemo V → V × PassMemo V
get m v p = elim (lookup m p.cur) [
  | some w ↦ (w, p)
  | none ↦ elim (lookup m p.prev) [
    | some w ↦ (w, record p { cur = insert m w p.cur })
    | none ↦ (v, record p { cur = insert m v p.cur })
  ]
]

module _ {V : Type 0} (f : ℕ → V) where
  -- Every value of the memo is what the computation gives for its message.
  pub record IsFresh (p : PassMemo V) : Type 0 where
    pub cur_fresh : (m : ℕ) (v : V) → lookup m p.cur ≡ some v → v ≡ f m
    pub prev_fresh : (m : ℕ) (v : V) → lookup m p.prev ≡ some v → v ≡ f m

  pub end_pass-IsFresh : (p : PassMemo V) → IsFresh p → IsFresh (end_pass p)
  unfolding end_pass lookup
  end_pass-IsFresh p h = record { cur_fresh = λ m v e. cc; prev_fresh = h.cur_fresh }

  insert-IsFresh :
      (p : PassMemo V) (m : ℕ) → IsFresh p → IsFresh (record p { cur = insert m (f m) p.cur })
  insert-IsFresh p m h = record {
    cur_fresh =
        λ n v e. ground (arith, lookup-insert m n (f m) p.cur, eq_of_beq m n, h.cur_fresh n v);
    prev_fresh = h.prev_fresh;
  }

  -- A fresh memo answers as the computation would, and stays fresh.
  pub get_lem :
      (m : ℕ) (p : PassMemo V) → IsFresh p → ((get m (f m) p).0 ≡ f m) × IsFresh (get m (f m) p).1
  unfolding get
  get_lem m p h = elim (Option-cases (lookup m p.cur)) [
    | inr (w, e) ↦ rw (e, get) (h.cur_fresh m w e, h)
    | inl e ↦ elim (Option-cases (lookup m p.prev)) [
      | inr (w, d) ↦ rw (e, d, get, h.prev_fresh m w d) (refl, insert-IsFresh p m h)
      | inl d ↦ rw (e, d, get) (refl, insert-IsFresh p m h)
    ]
  ]
