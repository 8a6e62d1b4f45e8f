-- ===== src/Lds/Reconcile/Settling.antt =====
-- controllers/lds/listener_controller.go: the outcome of Reconcile for a listener that is found.
use xds_controller.Prelude.{
  true, false, not, ◌&&◌, if_cases, none, Text, Map, lookup, ◌==◌, nat_eq, list_eq, List, [], ◌∷◌,
  contains, contains-keep, keep, ◌≡◌, refl, arith, eq_of_beq, beq_of_eq, ◌∙◌,
}
use xds_controller.Snapshot.{items}
use xds_controller.Registry.{named}
use xds_controller.Registry.View.{named-eq-find}
use xds_controller.Status.{listeners, set_has}
use xds_controller.Lds.{Listener}
use xds_controller.Lds.Reconcile.{
  ListenerObject, ListenerState, Setting, found, listener_name, remove_listener_from_nodes,
  previous_nodes, get_nodes_for_listener, has_routes_for, serve, is_due, prune_chains,
  reconcile_listener,
}
use xds_controller.Lds.Reconcile.Confined.{serves, AreDistinct, serves-remove, remove-Confined}
use xds_controller.Lds.Reconcile.Rebuild.{rebuild_all-elsewhere, rebuild_all-distinct}

module _ {Filter : Type 0} where
  previous_nodes-contains :
      (name node : Text) (configs : Map Text (List (Listener Filter)))
      → named listener_name name (items node configs) ≡ true
      → contains (previous_nodes name configs) node ≡ true
  unfolding previous_nodes contains lookup
  previous_nodes-contains name node [] h = cc
  previous_nodes-contains name node ((k, ls) ∷ rest) h =
      ground (arith, previous_nodes-contains name node rest, eq_of_beq k node, beq_of_eq node k)

module _ {Filter : Type 0} (x : Setting Filter) where
  -- The listener is on its own nodes only, and nothing else has changed.
  pub record Settled (l : ListenerObject Filter) (s t : ListenerState Filter) : Type 0 where
    pub distinct : AreDistinct t
    pub others : (node n : Text) → (l.name == n) ≡ false → serves t node n ≡ serves s node n
    pub only :
        (node : Text)
        → contains (get_nodes_for_listener x l) node ≡ false
        → serves t node l.name ≡ none

  serve-Settled :
      (l : ListenerObject Filter) (s : ListenerState Filter)
      → AreDistinct s
      → Settled l s (serve x l s)
  unfolding serve
  serve-Settled l s d =
      let previous = previous_nodes l.name s.listener_configs in
      let current = get_nodes_for_listener x l in
      let gone = keep (λ n. not (contains current n)) previous in
      let swept = remove_listener_from_nodes l.name gone s in
      if_cases (Settled l s) (not l.has_filter_chains && not (has_routes_for x l.name current))
        (λ e. record {
          distinct = (remove-Confined l.name previous s).distinct d;
          others = (remove-Confined l.name previous s).others;
          only = λ node away. ground (
            arith,
            serves-remove l.name previous s node l.name,
            beq_of_eq l.name l.name refl,
            previous_nodes-contains l.name node s.listener_configs,
            named-eq-find listener_name l.name (items node s.listener_configs),
          );
        })
        (λ e. record {
          distinct =
              rebuild_all-distinct x l current swept ((remove-Confined l.name gone s).distinct d);
          others = λ node n ne.
              rebuild_all-elsewhere x l current swept node n (ground arith)
              ∙ (remove-Confined l.name gone s).others node n ne;
          only = λ node away.
              rebuild_all-elsewhere x l current swept node l.name (ground arith)
              ∙ ground (
                arith,
                serves-remove l.name gone s node l.name,
                beq_of_eq l.name l.name refl,
                contains-keep (λ n. not (contains current n)) node previous,
                previous_nodes-contains l.name node s.listener_configs,
                named-eq-find listener_name l.name (items node s.listener_configs),
              );
        })

  -- Once the routes are placed, the reconcile of a listener that is found leaves it on the nodes of
  -- its annotations only, changes no other listener of any node, and no node has two listeners of one
  -- name if none had before.
  pub reconcile_listener-Settled :
      (l : ListenerObject Filter) (name key : Text) (s : ListenerState Filter)
      → is_due x (set_has listeners true s.status) ≡ true
      → AreDistinct s
      → Settled l s (reconcile_listener x (found l) name key s)
  unfolding reconcile_listener prune_chains
  reconcile_listener-Settled l name key s due d =
      if_cases (Settled l s) (not (is_due x (set_has listeners true s.status))) (λ e. ground arith)
        (λ e.
          let r = serve-Settled l (record s { status = set_has listeners true s.status }) d in
          record { distinct = r.distinct; others = r.others; only = r.only })
