-- ===== src/Node/Ap.antt =====
-- Stations and their access points: uwifi_nodes_find_ap of core/node.c, and the parts of
-- uwifi_nodes_timeout that undo it.
pub mod Leave
pub mod Join
use libuwifi.Base.{
  ℕ, Bool, true, false, ◌&&◌, not, Option, none, some, List, [], ◌∷◌, ◌>>=◌, if◌then◌else◌, ◌≡◌,
}
use libuwifi.Store.{Lists, Links, update, points, is_some}
use libuwifi.Node.Mac.{eq_mac, mac_empty, starts_ff}
use libuwifi.Node.Info.{Info}
use libuwifi.Node.Copy.{is_station}
use libuwifi.Node.Table.{Table, find}

-- The fields `ap_node` and `ap_nodes` of the nodes.
pub record Aps : Type 0 where
  pub ap_node : ℕ → Option ℕ
  pub ap_nodes : ℕ → List ℕ

-- The access point is NULL or has another address than `mac`.
abbrev pub is_other : (ℕ → Option Info) → List ℕ → Option ℕ → Option Bool
is_other node mac none = some true
is_other node mac (some a) = node a >>= λ i. some (not (eq_mac mac i.wlan_src))

-- The node leaves the list of its access point, if it has one.
abbrev pub leave_ap : Lists → (ℕ → Option Info) → ℕ → Option ℕ → Aps → Option Aps
leave_ap lists node n none s = some s
leave_ap lists node n (some a) s = node a >>= λ i. lists.del_from (s.ap_nodes a) n >>= λ rest.
    some (record { ap_node = update s.ap_node n none; ap_nodes = update s.ap_nodes a rest })

-- The node joins the access point that was found.
abbrev pub join_ap : Lists → ℕ → Option ℕ → Aps → Aps
join_ap lists n none s = s
join_ap lists n (some a) s = record {
  ap_node = update s.ap_node n (some a);
  ap_nodes = update s.ap_nodes a (lists.add_tail (s.ap_nodes a) n);
}

-- The body of the condition of uwifi_nodes_find_ap.
abbrev pub change_ap : Lists → Table → ℕ → List ℕ → Aps → Option Aps
change_ap lists t n bssid s = leave_ap lists t.node n (s.ap_node n) s >>= λ left.
    find t.node bssid t.nodes >>= λ found. some (join_ap lists n found left)

-- The node is a station with a BSSID that an access point may have.
abbrev pub seeks_ap : Info → Bool
seeks_ap i =
    is_station i.wlan_mode && (not (starts_ff i.wlan_bssid) && not (mac_empty i.wlan_bssid))

-- uwifi_nodes_find_ap for the node `n`.
unfoldable pub nodes_find_ap : Lists → Table → ℕ → Aps → Option Aps
nodes_find_ap lists t n s = t.node n >>= λ i.
    if seeks_ap i
    then (is_other t.node i.wlan_bssid (s.ap_node n) >>= λ other.
        if other then change_ap lists t n i.wlan_bssid s else some s)
    else some s

-- The loop of uwifi_nodes_timeout that takes the stations `ms` off the list of the node `n`.
abbrev pub clear_ap : Lists → (ℕ → Option Info) → ℕ → List ℕ → Aps → Option Aps
clear_ap lists node n [] s = some s
clear_ap lists node n (m ∷ ms) s = node m >>= λ i. lists.del_from (s.ap_nodes n) m >>= λ rest.
    clear_ap lists node n ms
      (record { ap_node = update s.ap_node m none; ap_nodes = update s.ap_nodes n rest })

-- A node points to an access point exactly when it is in its list, and both are allocated.
pub record IsAps (node : ℕ → Option Info) (s : Aps) : Type 0 where
  pub links : Links s.ap_node s.ap_nodes
  pub station_alive : (n a : ℕ) → points (s.ap_node n) a ≡ true → is_some (node n) ≡ true
  pub ap_alive : (n a : ℕ) → points (s.ap_node n) a ≡ true → is_some (node a) ≡ true

-- The links stay in order where every node stays allocated.
pub IsAps-mono :
    (node node' : ℕ → Option Info) (s : Aps)
    → IsAps node s
    → ((m : ℕ) → is_some (node m) ≡ true → is_some (node' m) ≡ true)
    → IsAps node' s
IsAps-mono node node' s valid keeps = record {
  links = valid.links;
  station_alive = λ n a p. keeps n (valid.station_alive n a p);
  ap_alive = λ n a p. keeps a (valid.ap_alive n a p);
}
