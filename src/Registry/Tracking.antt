-- ===== src/Registry/Tracking.antt =====
-- What the registry of connections promises: the first live connection to a node stays, only the
-- connection itself takes its entry away, and the listeners hear of both.
use multi_controller.Prelude.{
  ◌≡◌, Bool, false, not, Option, none, some, String, ◌==◌, eq_iff, arith, if◌then◌else◌,
}
use multi_controller.Prelude.Dict.{get-set, get-delete}
use multi_controller.Prelude.Dict
use multi_controller.Registry
use multi_controller.Registry.{
  Registry, Conn, Notice, bound, unbound, live, is_same, has, bind, unbind,
}

-- The entry of one node: a live connection keeps its place, and only itself gives it up.
abbrev pub first_live : Option Conn → Conn → Option Conn
first_live none conn = live (some conn)
first_live (some c) conn = some c

abbrev pub without : Option Conn → Conn → Option Conn
without none conn = none
without (some c) conn = if is_same c conn then none else some c

-- A connection is bound exactly if the node has no live one; then it is what `get` answers, if it is live
-- itself. A node with a live connection keeps it, and no other node is touched.
pub bind-first_live :
    (r : Registry) (k t : String) (conn : Conn) (notify : Bool)
    → ((bind r k conn notify).0 ≡ not (has r k))
      × (Registry.get (bind r k conn notify).1 t
          ≡ (if k == t then first_live (Registry.get r t) conn else Registry.get r t))
unfolding bind has Registry.get
bind-first_live r k t conn notify = ground (arith, eq_iff k t, get-set k t conn r)

-- Unbinding takes the entry away exactly if it is the connection of the call: one that lost the race, or
-- that was replaced, does not take away the one in use. It says whether it did.
pub unbind-without :
    (r : Registry) (k t : String) (conn : Conn)
    → (Dict.get t (unbind r k conn).1
        ≡ (if k == t then without (Dict.get t r) conn else Dict.get t r))
      × ((unbind r k conn).0 ≡ elim (Dict.get k r) [ none ↦ false | some c ↦ is_same c conn ])
unfolding unbind
unbind-without r k t conn = ground (arith, eq_iff k t, get-delete k t r)
