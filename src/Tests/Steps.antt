-- ===== src/Tests/Steps.antt =====
-- Two steps of the service: the tower claims the laptop, then the desk releases it.
use multi_controller.Prelude.{◌≡◌, refl, [], ◌∷◌}
use multi_controller.Prelude.Text.{given, given_or}
use multi_controller.Prelude.Dict
use multi_controller.Registry
use multi_controller.Coordination.Service.{holder, target_is_online}
use multi_controller.Context.{get_node}
use multi_controller.Coordination.Service.Leases.{on_claim, on_release}
use multi_controller.Coordination.Service.Leases.View.{view, reaches}
use multi_controller.Coordination.Service.Step.{step, run, History, claims, releases}
use multi_controller.Coordination.Service.Step.Leases.{step-holder_kept, run-synced, StaysReached}
use multi_controller.Tests.Samples.{desk_registry, leased, bare_frame, lease_of}

step-holder_kept_example :
    (lease_of "desk" 5000).controller_id ≡ (lease_of "desk" 5000).controller_id
unfolding Dict.get holder step on_claim given get_node target_is_online Registry.get given_or
step-holder_kept_example =
    step-holder_kept leased desk_registry (claims 100 "tower" (bare_frame "laptop")) "laptop" "desk"
      "desk" (refl, tt) refl refl

abbrev pub history : History
history =
    (desk_registry, releases "desk" (bare_frame "laptop"))
    ∷ (desk_registry, claims 100 "tower" (bare_frame "laptop"))
    ∷ []

pub history-StaysReached : StaysReached "laptop" leased history
unfolding StaysReached step reaches Registry.get on_release holder Dict.get given given_or
history-StaysReached = (refl, (refl, tt))

run-synced_example :
    view "laptop" (holder leased "laptop") (run leased history).1
    ≡ holder (run leased history).0 "laptop"
unfolding given given_or
run-synced_example =
    run-synced "laptop" leased history (unfold Dict.get in (refl, tt)) history-StaysReached
