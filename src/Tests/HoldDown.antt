-- ===== src/Tests/HoldDown.antt =====
-- The laptop is coordinator while the desk comes and goes.
use multi_controller.Prelude.{
  ◌≡◌, ◌≢◌, refl, ◌⊎◌, true, false, some, [], ◌∷◌, eq_iff, arith, keep, any,
}
use multi_controller.Prelude.Text.{text_of}
use multi_controller.Prelude.Dict
use multi_controller.Context.{get_node, find_node}
use multi_controller.Coordination.Election.{
  online_nodes, online, values, key_leb, coordinator_sort_key, coordinator_priority_sort_value,
  min_node,
}
use multi_controller.Coordination.HoldDown.{
  Election, current_among, pick, is_healthy, sync_online_tracking, on_registry_event, best,
  clear_challenger, set_current, set_default,
}
use multi_controller.Coordination.HoldDown.Rules.{HasWaited, pick-HasWaited}
use multi_controller.Coordination.HoldDown.Flapping.{reconnected, pick-reconnected}
use multi_controller.Tests.Samples.{desk, laptop, context_of, laptop_registry}

-- The desk has been the challenger since 1000.
abbrev election : Election
election = record {
  health_grace_ms = 1000;
  hold_down_ms = 3000;
  online_since = ("laptop", 0) ∷ ("desk", 1000) ∷ [];
  current_coordinator_id = some "laptop";
  challenger_id = some "desk";
  challenger_since = 1000;
}

pick-HasWaited_example :
    ((pick election (context_of laptop) laptop_registry 4000).1 ≡ laptop)
    ⊎ (HasWaited election 4000 (pick election (context_of laptop) laptop_registry 4000).1
        × (is_healthy
              (sync_online_tracking election (context_of laptop) laptop_registry 4000)
              (context_of laptop)
              4000
              (pick election (context_of laptop) laptop_registry 4000).1.node_id
            ≡ true)
        × (key_leb
              (coordinator_sort_key laptop)
              (coordinator_sort_key (pick election (context_of laptop) laptop_registry 4000).1)
            ≡ false))
unfolding current_among online_nodes values online get_node Dict.set Dict.get text_of
pick-HasWaited_example =
    pick-HasWaited election (context_of laptop) laptop_registry 4000 laptop refl

-- After the hold-down the desk takes over.
desk-takes_over : (pick election (context_of laptop) laptop_registry 4000).1 ≡ desk
unfolding pick best online_nodes values online get_node Dict.set current_among Dict.get text_of
    sync_online_tracking key_leb coordinator_sort_key coordinator_priority_sort_value keep
    is_healthy min_node Dict.retain find_node clear_challenger set_current set_default any
desk-takes_over = refl

-- It has come back at 3500, so not yet at 4000.
pick-reconnected_example :
    (pick
      (reconnected election (context_of laptop) "desk" 3000 3500)
      (context_of laptop)
      laptop_registry
      4000).1.node_id
    ≢ "desk"
unfolding current_among online_nodes values online get_node Dict.set Dict.get text_of
    on_registry_event
pick-reconnected_example =
    pick-reconnected election (context_of laptop) laptop_registry "desk" 3000 3500 4000 desk laptop
      (refl, (refl, tt)) (λ h. ground (arith, eq_iff "desk" "laptop")) refl refl
      (λ h. ground (arith, eq_iff "laptop" "desk")) (ground arith)
