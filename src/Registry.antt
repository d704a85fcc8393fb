-- ===== src/Registry.antt =====
-- transport/peer/peer_registry.py: the live connection of each peer. A connection is known by a
-- serial number, for the identity of the object; `closed` is its flag, and `accepts` is what its `send_frame` returns.
-- It returns false here where the thread that receives on the connection closes it at that moment: send_frame then
-- closes nothing itself, and the unbind is a later event, of that thread.
pub mod Tracking
use multi_controller.Prelude.{
  ℕ, Bool, true, false, not, ◌&&◌, Option, none, some, List, [], ◌∷◌, String, if◌then◌else◌, eqb,
}
use multi_controller.Prelude.Dict.{Dict}
use multi_controller.Prelude.Dict

pub record Conn : Type 0 where
  pub serial : ℕ
  pub closed : Bool
  pub accepts : Bool

pub data Notice : Type 0 where
  bound unbound : String → Notice

abbrev pub Registry : Type 0
Registry = Dict Conn

abbrev pub live : Option Conn → Option Conn
live none = none
live (some c) = if c.closed then none else some c

-- Two connections are the same object.
abbrev pub is_same : Conn → Conn → Bool
is_same c d = eqb c.serial d.serial

-- `get`: a closed connection counts as none.
unfoldable pub get : Registry → String → Option Conn
get r k = live (Dict.get k r)

unfoldable pub has : Registry → String → Bool
unfolding get
has r k = elim (get r k) [ none ↦ false | some c ↦ true ]

-- `bind`: the result, the new registry and what the listeners hear.
unfoldable pub bind : Registry → String → Conn → Bool → Bool × Registry × List Notice
bind r k conn notify = elim (live (Dict.get k r)) [
  | none ↦ (true, Dict.set k conn r, if notify then bound k ∷ [] else [])
  | some c ↦ (false, r, [])
]

unfoldable pub notify_bound_ready : Registry → String → Conn → Bool × List Notice
notify_bound_ready r k conn = elim (Dict.get k r) [
  | none ↦ (false, [])
  | some c ↦ if is_same c conn && not conn.closed then (true, bound k ∷ []) else (false, [])
]

unfoldable pub unbind : Registry → String → Conn → Bool × Registry × List Notice
unbind r k conn = elim (Dict.get k r) [
  | none ↦ (false, r, [])
  | some c ↦ if is_same c conn then (true, Dict.delete k r, unbound k ∷ []) else (false, r, [])
]
