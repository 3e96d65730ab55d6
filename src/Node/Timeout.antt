-- ===== src/Node/Timeout.antt =====
-- uwifi_nodes_timeout of core/node.c, on the nodes with their access points and networks.
pub mod Delete
pub mod Expire
use libuwifi.Base.{
  ℕ, ◌*◌, ◌≡◌, Bool, true, false, Option, none, some, List, [], ◌∷◌, ◌>>=◌, if◌then◌else◌, ltb, u32,
  sub32,
}
use libuwifi.Store.{Lists, update}
use libuwifi.Node.Info.{Info}
use libuwifi.Node.Table.{Table, IsTable, Unique}
use libuwifi.Node.Ap.{Aps, IsAps, leave_ap, clear_ap}
use libuwifi.Essid.Networks.{Networks, IsNetworks, no_empty, essids_remove_node}

-- The nodes, their links to access points, and their networks.
pub record State : Type 0 where
  pub table : Table
  pub aps : Aps
  pub networks : Networks

-- The body of the loop for a node whose time is over. The loop has saved the next element, which the
-- body does not free.
unfoldable pub delete_node : Lists → ℕ → State → Option State
delete_node lists n s = lists.del_from s.table.nodes n >>= λ rest.
    leave_ap lists s.table.node n (s.aps.ap_node n) s.aps >>= λ left.
    essids_remove_node lists s.table.node n s.networks >>= λ networks.
    clear_ap lists s.table.node n (left.ap_nodes n) left >>= λ cleared. some (record {
      table = record s.table { nodes = rest; node = update s.table.node n none };
      aps = cleared;
      networks = networks;
    })

-- The time since the node was last seen is above the limit, in microseconds.
abbrev pub is_over : ℕ → ℕ → Info → Bool
is_over limit now i = ltb limit (sub32 now i.last_seen)

-- The loop, over the elements of the list.
unfoldable pub timeout_loop : Lists → ℕ → ℕ → List ℕ → State → Option State
timeout_loop lists limit now [] s = some s
timeout_loop lists limit now (n ∷ ns) s = s.table.node n >>= λ i.
    (if is_over limit now i then delete_node lists n s else some s) >>= λ rest.
    timeout_loop lists limit now ns rest

-- `timeout_sec * 1000000`, of unsigned ints.
abbrev pub limit_of : ℕ → ℕ
limit_of timeout_sec = u32 (timeout_sec * 1000000)

-- uwifi_nodes_timeout at the time `now`: the state and `*last_nodetimeout` behind it.
unfoldable pub nodes_timeout : Lists → ℕ → ℕ → ℕ → State → Option (State × ℕ)
nodes_timeout lists timeout_sec now last s =
    if ltb (sub32 now last) (limit_of timeout_sec)
    then some (s, last)
    else (timeout_loop lists (limit_of timeout_sec) now s.table.nodes s >>= λ rest.
        some (rest, now))

-- Every list has exactly the elements that point back to it, every pointer leads to allocated memory, and
-- no two nodes have the same address.
pub record IsState (s : State) : Type 0 where
  pub table : IsTable s.table
  pub unique : Unique s.table
  pub aps : IsAps s.table.node s.aps
  pub networks : IsNetworks s.table.node no_empty s.networks
