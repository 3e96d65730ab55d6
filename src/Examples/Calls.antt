-- ===== src/Examples/Calls.antt =====
-- Calls of core/node.c and core/essid.c on the nodes and networks of Examples/Nodes.
use Prim.{tt}
use libuwifi.Base.{
  inl, u32, ◌*◌, ℕ, ◌≡◌, refl, true, false, not, none, some, [], ◌∷◌, ◌∙◌, Succeeds, arith,
}
use libuwifi.Store.{update}
use libuwifi.Node.Info.{Info, zero_info, node_average, new_info_runs}
use libuwifi.Node.Copy.{copy_nodeinfo, copy_rx_nodeinfo}
use libuwifi.Node.Table.{Table, node_update, node_update_receiver}
use libuwifi.Node.Table.Content.{content}
use libuwifi.Node.Table.Change.{prior}
use libuwifi.Node.Table.Update.{channel_at, Puts, node_update-Puts, node_update_receiver-Puts}
use libuwifi.Node.Ap.{Aps, nodes_find_ap}
use libuwifi.Node.Ap.Join.{Joins, nodes_find_ap-Joins}
use libuwifi.Essid.Networks.{
  Networks, no_empty, essids_update, essids_remove_node, update_essid_split_status,
}
use libuwifi.Essid.Networks.Split.{bssids, all_same, update_essid_split_status_lem}
use libuwifi.Essid.Networks.Leave.{Leaves, essids_remove_node-Leaves}
use libuwifi.Essid.Networks.Update.{Recorded, essids_update-Recorded}
use libuwifi.Node.Timeout.{State, IsState, nodes_timeout}
use libuwifi.Node.Timeout.Expire.{expire, nodes_timeout-expire}
use libuwifi.Node.Reach.{
  expire_nodes, update_node, find_ap, run, Reach, reached_start, reached_by, allowed_call,
  empty_state, run-IsState, Reach-Succeeds,
}
use libuwifi.Examples.Nodes.{
  access_mac, station_mac, station_info, net_name, links, networks, links-IsAps,
  networks-IsNetworks, seen, seen-IsState, data_packet, beacon_packet, table, table-IsTable,
  checked_lists, checked_laws,
}

node_update-Puts_example :
    (n : ℕ) × (i : Info) × (t' : Table) × (node_update checked_lists links.ap_node 10000000
        data_packet table
      ≡ some (
        t',
        (copy_nodeinfo i (channel_at table.node (links.ap_node n)) 10000000 data_packet).1,
        some n,
      ))
    × (prior false (content table.node table.nodes station_mac) ≡ some i)
    × Puts station_mac n
        (copy_nodeinfo i (channel_at table.node (links.ap_node n)) 10000000 data_packet).0
        table
        t'
node_update-Puts_example =
    node_update-Puts checked_laws links 10000000 data_packet table table-IsTable links-IsAps refl

node_update_receiver-Puts_example :
    (n : ℕ) × (i : Info) × (t' : Table) × (node_update_receiver checked_lists links.ap_node 10000000
        data_packet table
      ≡ some (t', some n))
    × (prior true (content table.node table.nodes access_mac) ≡ some i)
    × Puts access_mac n
        (copy_rx_nodeinfo i (channel_at table.node (links.ap_node n)) 10000000 data_packet)
        table
        t'
node_update_receiver-Puts_example =
    node_update_receiver-Puts checked_laws links 10000000 data_packet table table-IsTable
      links-IsAps refl

-- The station is 9 seconds old, the access point one.
nodes_timeout-expire_example :
    (s' : State) × (nodes_timeout checked_lists 5 10000000 0 seen ≡ some (s', 10000000))
    × IsState s'
    × ((m : ℕ) → s'.table.node m ≡ expire (u32 (5 * 1000000)) 10000000 (seen.table.node m))
nodes_timeout-expire_example = nodes_timeout-expire checked_laws 5 10000000 0 seen seen-IsState refl

nodes_find_ap-Joins_example :
    (s' : Aps) × (nodes_find_ap checked_lists table 1 links ≡ some s')
    × Joins table 1 access_mac links s'
nodes_find_ap-Joins_example =
    nodes_find_ap-Joins checked_laws table (λ m c. table-IsTable.listed m ∙ c) links 1 station_info
      links-IsAps refl refl

essids_update-Recorded_example :
    (e : ℕ) × (s' : Networks) × (essids_update checked_lists table.node beacon_packet 0 networks
      ≡ some s')
    × Recorded table.node net_name 0 e networks s'
essids_update-Recorded_example =
    essids_update-Recorded checked_laws networks beacon_packet 0 networks-IsNetworks refl
      (λ x. ground arith) refl (inl refl) (omega arith) refl

essids_remove_node-Leaves_example :
    Leaves table.node no_empty networks 0 (essids_remove_node checked_lists table.node 0 networks)
essids_remove_node-Leaves_example =
    essids_remove_node-Leaves checked_laws networks 0 networks-IsNetworks

update_essid_split_status_lem_example :
    update_essid_split_status table.node 0 networks
    ≡ some (record networks {
      split = update networks.split 0 (not (all_same (bssids table.node (networks.essid_nodes 0))));
    })
update_essid_split_status_lem_example =
    update_essid_split_status_lem table.node no_empty networks 0 networks-IsNetworks refl

run-IsState_example : (s' : State) × (run checked_lists (find_ap 1) seen ≡ some s') × IsState s'
run-IsState_example = run-IsState checked_laws (find_ap 1) seen seen-IsState refl

-- The empty lists behind a first beacon.
abbrev after_beacon : State
after_beacon = record empty_state {
  table = record {
    nodes = 0 ∷ [];
    node =
        update (update (λ n. none) 0 (some (zero_info node_average))) 0
          (some (copy_nodeinfo (zero_info node_average) none 5 beacon_packet).0);
    next = 1;
  };
}

beacon_runs : run checked_lists (update_node 5 beacon_packet) empty_state ≡ some after_beacon
unfolding run node_update
beacon_runs = rw new_info_runs refl

beacon_Reach : Reach checked_lists empty_state after_beacon
beacon_Reach = reached_by reached_start (allowed_call (update_node 5 beacon_packet) tt beacon_runs)

Reach-Succeeds_example : Succeeds (run checked_lists (expire_nodes 5 10000000 0) after_beacon)
Reach-Succeeds_example =
    Reach-Succeeds checked_laws after_beacon (expire_nodes 5 10000000 0) beacon_Reach tt
