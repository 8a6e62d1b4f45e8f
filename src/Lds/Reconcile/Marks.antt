-- ===== src/Lds/Reconcile/Marks.antt =====
-- controllers/lds/listener_controller.go: the mark of a listener that waits for a rebuild.
use xds_controller.Prelude.{
  true, not, ◌&&◌, if_cases, Text, lookup-delete, nat_eq, list_eq, List, [], ◌∷◌, contains, keep,
  is_empty, ◌≡◌, refl, arith, Bool-cases, Option-cases, inl, inr, beq_of_eq, sym, subst, ◌∙◌,
}
use xds_controller.Status.{
  listeners, set_has, clear_listener_pending, listener_pending_seq, ReconciliationStatus,
}
use xds_controller.Lds.Reconcile.{
  ListenerObject, ListenerState, Setting, found, remove_listener_from_nodes, update_listener_config,
  previous_nodes, recast, rebuild, rebuild_all, get_nodes_for_listener, has_routes_for,
  get_routes_for_node, serve, is_due, prune_chains, reconcile_listener,
}

remove-status :
    {Filter : Type 0} (name : Text) (nodes : List Text) (s : ListenerState Filter)
    → (remove_listener_from_nodes name nodes s).status ≡ s.status
unfolding remove_listener_from_nodes
remove-status name [] s = refl
remove-status name (node ∷ nodes) s = remove-status name nodes _

module _ {Filter : Type 0} (x : Setting Filter) where
  rebuild-status :
      (l : ListenerObject Filter) (node : Text) (s : ListenerState Filter)
      → (rebuild x l node s).status ≡ s.status
  unfolding rebuild update_listener_config
  rebuild-status l node s =
      let rs = get_routes_for_node x l.name node in
      elim (Bool-cases (not l.has_filter_chains && is_empty rs)) [
        | inl e ↦ rw (e, rebuild) (remove-status l.name (node ∷ []) s)
        | inr e ↦ elim (Option-cases (recast x l rs s.chains)) [
          | inl f ↦ rw (e, f, rebuild) refl
          | inr (p, f) ↦ rw (e, f, rebuild) refl
        ]
      ]

  rebuild_all-status :
      (l : ListenerObject Filter) (nodes : List Text) (s : ListenerState Filter)
      → (rebuild_all x l nodes s).status ≡ s.status
  unfolding rebuild_all
  rebuild_all-status l [] s = refl
  rebuild_all-status l (node ∷ nodes) s =
      rebuild_all-status l nodes (rebuild x l node s) ∙ rebuild-status l node s

  serve-status :
      (l : ListenerObject Filter) (s : ListenerState Filter) → (serve x l s).status ≡ s.status
  unfolding serve
  serve-status l s =
      let previous = previous_nodes l.name s.listener_configs in
      let current = get_nodes_for_listener x l in
      let gone = keep (λ n. not (contains current n)) previous in
      if_cases (λ (t : ListenerState Filter). t.status ≡ s.status)
        (not l.has_filter_chains && not (has_routes_for x l.name current))
        (λ e. remove-status l.name previous s)
        (λ e.
          rebuild_all-status l current (remove_listener_from_nodes l.name gone s)
          ∙ remove-status l.name gone s)

  cleared :
      (key : Text) (s : ReconciliationStatus)
      → listener_pending_seq key (clear_listener_pending key (listener_pending_seq key s) s) ≡ 0
  unfolding clear_listener_pending listener_pending_seq
  cleared key s =
      rw
        (
          beq_of_eq (listener_pending_seq key s) (listener_pending_seq key s) refl,
          clear_listener_pending,
        )
        (ground (arith, lookup-delete key key s.pending_listeners, beq_of_eq key key refl))

  -- Once the routes are placed, a reconcile of a listener that is found leaves the listener without a
  -- mark, also if it could not be rebuilt on any of its nodes.
  pub reconcile_listener-clears :
      (l : ListenerObject Filter) (name key : Text) (s : ListenerState Filter)
      → is_due x (set_has listeners true s.status) ≡ true
      → listener_pending_seq key (reconcile_listener x (found l) name key s).status ≡ 0
  unfolding reconcile_listener prune_chains
  reconcile_listener-clears l name key s due =
      let t = record s { status = set_has listeners true s.status } in
      let seq = listener_pending_seq key t.status in
      if_cases (λ (u : ListenerState Filter). listener_pending_seq key u.status ≡ 0)
        (not (is_due x t.status)) (λ e. ground arith)
        (λ e.
          subst (λ st. listener_pending_seq key (clear_listener_pending key seq st) ≡ 0)
            (sym (serve-status l t)) (cleared key t.status))
