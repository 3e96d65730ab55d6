-- ===== src/Node/Table.antt =====
-- The list of nodes and their memory, and the functions of core/node.c that find, add and change a node.
pub mod Find
pub mod Content
pub mod Change
pub mod Update
pub mod Free
use libuwifi.Base.{
  ℕ, suc, Bool, true, false, ◌||◌, Option, none, some, List, [], ◌∷◌, ◌>>=◌, if◌then◌else◌,
  test_bit, ◌≡◌, ◌<◌,
}
use libuwifi.Store.{Lists, update, contains, Distinct, is_some}
use libuwifi.Parser.Packet.{Packet}
use libuwifi.Node.Mac.{eq_mac, mac_empty, mac_bcast}
use libuwifi.Node.Info.{Info, new_info}
use libuwifi.Node.Copy.{copy_nodeinfo, copy_rx_nodeinfo}

-- The elements of the list `nodes`, the memory of the nodes (`none` if not allocated), and the next
-- pointer that malloc gives, which is never NULL or a pointer that was given before.
pub record Table : Type 0 where
  pub nodes : List ℕ
  pub node : ℕ → Option Info
  pub next : ℕ

-- The first node of the list with the address, by cc_list_for_each.
abbrev pub find : (ℕ → Option Info) → List ℕ → List ℕ → Option (Option ℕ)
find node mac [] = some none
find node mac (n ∷ ns) =
    let rest = find node mac ns in
    node n >>= λ i. if eq_mac mac i.wlan_src then some (some n) else rest

-- The channel of the access point that a node points to. The code reads it only for a station.
abbrev pub ap_channel : (ℕ → Option Info) → Option ℕ → Option (Option ℕ)
ap_channel node none = some none
ap_channel node (some a) = node a >>= λ i. some (some i.wlan_channel)

-- The node behind malloc, memset, ewma_init and cc_list_add_tail.
abbrev pub add_node : Lists → Bool → Table → Option (ℕ × Table)
add_node lists rx_only t = new_info >>= λ i. some (
  t.next,
  record {
    nodes = lists.add_tail t.nodes t.next;
    node = update t.node t.next (some (record i { rx_only = rx_only }));
    next = suc t.next;
  },
)

-- The node that was found, or a new one.
abbrev pub or_add : Lists → Bool → Table → Option ℕ → Option (ℕ × Table)
or_add lists rx_only t none = add_node lists rx_only t
or_add lists rx_only t (some n) = some (n, t)

-- copy_nodeinfo at a pointer.
abbrev pub write_nodeinfo : (ℕ → Option ℕ) → ℕ → Packet → ℕ → Table → Option (Table × Packet)
write_nodeinfo ap_node now p n t = t.node n >>= λ i. ap_channel t.node (ap_node n) >>= λ channel.
    let written = copy_nodeinfo i channel now p in
    some (record t { node = update t.node n (some written.0) }, written.1)

-- copy_rx_nodeinfo at a pointer.
abbrev pub write_rx_nodeinfo : (ℕ → Option ℕ) → ℕ → Packet → ℕ → Table → Option Table
write_rx_nodeinfo ap_node now p n t = t.node n >>= λ i. ap_channel t.node (ap_node n) >>= λ channel.
    some (record t { node = update t.node n (some (copy_rx_nodeinfo i channel now p)) })

-- uwifi_node_update, with the pointers to access points and the time: the nodes and the packet behind
-- it, and the pointer it returns (`none` for NULL).
unfoldable pub node_update :
    Lists → (ℕ → Option ℕ) → ℕ → Packet → Table → Option (Table × Packet × Option ℕ)
node_update lists ap_node now p t =
    if test_bit p.phy_flags 1 || mac_empty p.wlan_ta
    then some (t, p, none)
    else (find t.node p.wlan_ta t.nodes >>= λ found. or_add lists false t found >>= λ r.
        write_nodeinfo ap_node now p r.0 r.1 >>= λ w. some (w.0, w.1, some r.0))

-- uwifi_node_update_receiver
unfoldable pub node_update_receiver :
    Lists → (ℕ → Option ℕ) → ℕ → Packet → Table → Option (Table × Option ℕ)
node_update_receiver lists ap_node now p t =
    if test_bit p.phy_flags 1 || (mac_empty p.wlan_ra || mac_bcast p.wlan_ra)
    then some (t, none)
    else (find t.node p.wlan_ra t.nodes >>= λ found. or_add lists true t found >>= λ r.
        write_rx_nodeinfo ap_node now p r.0 r.1 >>= λ w. some (w, some r.0))

-- The loop of uwifi_nodes_free.
abbrev pub free_loop : Lists → List ℕ → Table → Option Table
free_loop lists [] t = some t
free_loop lists (n ∷ ns) t = t.node n >>= λ i. lists.del_from t.nodes n >>= λ rest.
    free_loop lists ns (record t { nodes = rest; node = update t.node n none })

-- uwifi_nodes_free. A list that was never initialised has `next` NULL.
unfoldable pub nodes_free : Lists → Bool → Table → Option Table
nodes_free lists initialized t = if initialized then free_loop lists t.nodes t else some t

-- The list has the nodes that are allocated, each once, and no pointer that malloc may still give.
pub record IsTable (t : Table) : Type 0 where
  pub distinct : Distinct t.nodes
  pub listed : (n : ℕ) → is_some (t.node n) ≡ contains n t.nodes
  pub unused : (n : ℕ) → contains n t.nodes ≡ true → n < t.next

-- No two nodes have the same address.
pub record Unique (t : Table) : Type 0 where
  pub same :
      (m n : ℕ) (i j : Info)
      → t.node m ≡ some i
      → t.node n ≡ some j
      → i.wlan_src ≡ j.wlan_src
      → m ≡ n
