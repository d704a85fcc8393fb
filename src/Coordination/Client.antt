-- ===== src/Coordination/Client.antt =====
-- control/coordination/client.py: the state of `CoordinatorClient`, and how it sends to the coordinator and
-- accepts its frames. The session gives the client a router and a sink, which are part of its state. A
-- handler is a function to the new state and what it does outside, in order; a frame that the client sends
-- to its own node is taken by the service in a later step.
pub mod Calm
pub mod Requests
pub mod Targets
pub mod Layouts
pub mod Nodes
pub mod Updates
pub mod Tick
pub mod Step
use multi_controller.Prelude.{
  ℕ, Bool, true, false, not, ◌&&◌, ◌||◌, Option, none, some, List, [], ◌∷◌, ◌++◌, map, String, ◌==◌,
  if◌then◌else◌, eqb,
}
use multi_controller.Prelude.Int.{ℤ, pos, negsuc, ltb_ℤ, eqb_ℤ}
use multi_controller.Prelude.Text.{given, split_at}
use multi_controller.Prelude.Dict
use multi_controller.Prelude.Dict.{Dict}
use multi_controller.Context.{Context, NodeInfo}
use multi_controller.Registry
use multi_controller.Registry.{Registry, Conn}
use multi_controller.Display.Layout.{LayoutConfig}
use multi_controller.Display.Inventory.{MonitorInventorySnapshot}
use multi_controller.Routing.Sink.{Sink, Injection, set_authorized_controller}
use multi_controller.Routing.Router.{Router, Remote, Sent}
use multi_controller.Coordination.Protocol.{Request, Share}

pub record OneShot : Type 0 where
  pub kind : String
  pub target_id : String
  pub started_at : ℕ

pub record Client : Type 0 where
  pub ctx : Context
  pub router : Router
  pub sink : Sink
  pub requested_target_id : Option String
  pub requested_target_source : Option String
  pub last_coordinator_id : Option String
  pub coordinator_epoch : Option String
  pub layout_editor_id : Option String
  pub layout_edit_requested : Bool
  pub layout_edit_requested_at : ℕ
  pub layout_last_deny_reason : Option String
  pub layout_last_update_revision : ℤ
  pub node_list_revision : ℤ
  pub latest_monitor_inventory : Option MonitorInventorySnapshot
  pub monitor_inventory_refresh_states : Dict (String × String)
  pub local_override_pending_controller_id : Option String
  pub pending_one_shot_requests : Dict OneShot

abbrev pub client_id : Client → String
client_id c = c.ctx.self_node.node_id

-- What a step meets: the coordinator that the resolver names, the connections, the time in milliseconds, the
-- id that is drawn for a new request, and what `int()` makes of a text.
pub record Around : Type 0 where
  pub coordinator : Option NodeInfo
  pub registry : Registry
  pub now : ℕ
  pub fresh : String
  pub int_of : String → Option ℤ

-- What a step does outside of the client: frames, input for the operating system, and the calls of its
-- listeners and handlers.
pub data Effect : Type 0 where
  to_coordinator : Request → Effect
  to_target : String → Remote → Effect
  injects : Injection → Effect
  target_result : (status target : String) → (reason source : Option String) → Effect
  node_list_change :
      (added : List String) → (revision : ℤ) → (reject_reason request : String) → Effect
  remote_update_status :
      (target status reason detail request event session current_version latest_version : String)
      → Effect
  remote_update_command :
      (target : String) → (requester : Option String) → (request : String) → Effect
  update_check_command : (job : String) → Effect
  update_check_status :
      (status reason detail request : String)
      → (result : Option String) → (source : String) → Effect
  update_download_command : (job installer_url tag_name : String) → Effect
  update_download_status : (status reason detail request : String) → Share → Effect
  auto_switch_change : (enabled : Bool) → (requester : String) → Effect
  timeout_message : (kind target : String) → Effect
  refreshes_monitors : Effect

abbrev pub Outcome : Type 0
Outcome = Client × List Effect

infixl 5 ◌then_do◌
abbrev pub ◌then_do◌ : Outcome → (Client → Outcome) → Outcome
◌then_do◌ (c, did) next = let (c', more) = next c in (c', did ++ more)

abbrev pub nothing : Client → Outcome
nothing c = (c, [])

abbrev pub with_router : Client → Router × Sent → Outcome
with_router c (router, sent) = (record c { router = router }, map (λ f. to_target f.0 f.1) sent)

abbrev pub with_sink : Client → Sink × List Injection → Outcome
with_sink c (sink, calls) = (record c { sink = sink }, map injects calls)

abbrev pub id_of : Option NodeInfo → Option String
id_of none = none
id_of (some n) = some n.node_id

-- The field names the node.
abbrev pub names : Option String → String → Bool
names none k = false
names (some j) k = j == k

abbrev conn_accepts : Option Conn → Bool
conn_accepts none = false
conn_accepts (some conn) = conn.accepts

-- Whether `_send` gets a frame to the coordinator.
unfoldable pub reaches_coordinator : Client → Around → Bool
reaches_coordinator c env = elim env.coordinator [
  | none ↦ false
  | some n ↦
      if n.node_id == client_id c then true else conn_accepts (Registry.get env.registry n.node_id)
]

unfoldable pub send : Client → Around → Request → List Effect
send c env request = if reaches_coordinator c env then to_coordinator request ∷ [] else []

pub data Comparison : Type 0 where
  below same above : Comparison

abbrev compare_counters : Option ℤ → Option ℤ → Comparison
compare_counters (some m) (some n) = if ltb_ℤ n m then above else if ltb_ℤ m n then below else same
compare_counters _ _ = above

abbrev compare_tokens :
    (String → Option ℤ) → Option (String × String) → Option (String × String) → Comparison
compare_tokens int_of (some (n, m)) (some (j, k)) =
    if n == j then compare_counters (int_of m) (int_of k) else above
compare_tokens int_of _ _ = above

-- `_compare_epoch_tokens`: what `except` catches counts as a new epoch.
unfoldable pub compare_epoch_tokens : (String → Option ℤ) → String → String → Comparison
compare_epoch_tokens int_of new current =
    if new == current
    then same
    else compare_tokens int_of (split_at 0x3a new) (split_at 0x3a current)

abbrev pub new_epoch : Client → Around → String → Outcome
new_epoch c env epoch =
    with_sink
      (record c {
        coordinator_epoch = some epoch;
        layout_editor_id = none;
        layout_last_update_revision = negsuc 0;
      })
      (set_authorized_controller c.sink env.now none)

-- Once the frame is from the coordinator and names an epoch: the new state, or none if it is refused.
unfoldable pub accept_epoch : Client → Around → String → Option String → Option Outcome
accept_epoch c env epoch none = some (record c { coordinator_epoch = some epoch }, [])
accept_epoch c env epoch (some current) = elim (compare_epoch_tokens env.int_of epoch current) [
  | below ↦ none
  | same ↦ some (c, [])
  | above ↦ some (new_epoch c env epoch)
]

unfoldable pub accept_coordinator_frame : Client → Around → String → Option String → Option Outcome
unfolding accept_epoch
accept_coordinator_frame c env peer epoch =
    if names (id_of env.coordinator) peer
    then elim (given epoch) [ none ↦ none | some e ↦ accept_epoch c env e c.coordinator_epoch ]
    else none

-- What follows a frame that is accepted.
abbrev pub after_accepting : Client → Option Outcome → (Client → Outcome) → Outcome
after_accepting c none next = (c, [])
after_accepting c (some o) next = o then_do next

unfoldable pub accepting : Client → Around → String → Option String → (Client → Outcome) → Outcome
accepting c env peer epoch next = after_accepting c (accept_coordinator_frame c env peer epoch) next

unfoldable pub track_one_shot_request : Client → Around → String → String → Client
track_one_shot_request c env kind target = if env.fresh == "" then c else record c {
  pending_one_shot_requests =
      Dict.set env.fresh (record { kind = kind; target_id = target; started_at = env.now })
        c.pending_one_shot_requests;
}

-- A request with a new id that is tracked once it is sent.
unfoldable pub send_tracked : Client → Around → String → String → Request → Outcome
unfolding track_one_shot_request
send_tracked c env kind target request =
    if reaches_coordinator c env
    then (track_one_shot_request c env kind target, to_coordinator request ∷ [])
    else (c, [])

unfoldable pub notify_target_result : String → String → Option String → Option String → List Effect
notify_target_result status target reason source = target_result status target reason source ∷ []
