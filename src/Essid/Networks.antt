-- ===== src/Essid/Networks.antt =====
-- `struct essid_info` of include/uwifi/essid.h and the functions of core/essid.c.
pub mod Split
pub mod Leave
pub mod Find
pub mod Update
pub mod Free
use libuwifi.Base.{
  ℕ, suc, ◌+◌, ◌<◌, ◌^◌, ◌≡◌, Bool, true, false, ◌&&◌, ◌||◌, not, Option, none, some, List, [], ◌∷◌,
  ◌==◌, leb, ◌>>=◌, if◌then◌else◌, test_bit, u32, sub32, length,
}
use libuwifi.Store.{Lists, Links, update, points, is_some, contains, Distinct}
use libuwifi.Parser.Packet.{Packet}
use libuwifi.Node.Mac.{eq_mac}
use libuwifi.Node.Info.{Info}
use libuwifi.Node.Copy.{is_announcement}
use libuwifi.Essid.Strings.{strncmp_eq, copy_name}

-- The field `essid` of the nodes; the list `essids`; of each `struct essid_info` its name (`none` if it is
-- not allocated), its list of nodes, their number and whether it is split; the next pointer of malloc.
pub record Networks : Type 0 where
  pub node_essid : ℕ → Option ℕ
  pub essids : List ℕ
  pub essid : ℕ → Option (List ℕ)
  pub essid_nodes : ℕ → List ℕ
  pub num_nodes : ℕ → ℕ
  pub split : ℕ → Bool
  pub next : ℕ

-- The BSSID that was seen last differs.
abbrev pub differs : Option (List ℕ) → List ℕ → Bool
differs none bssid = false
differs (some last) bssid = not (eq_mac last bssid)

-- Nodes that the check for a split skips.
abbrev pub is_skipped : Info → Bool
is_skipped i = test_bit i.wlan_mode 0 || test_bit i.wlan_mode 3

-- The loop of update_essid_split_status, with the last BSSID and the value of `split`.
abbrev pub split_loop : (ℕ → Option Info) → Option (List ℕ) → Bool → List ℕ → Option Bool
split_loop node last split [] = some split
split_loop node last split (n ∷ ns) = node n >>= λ i.
    if is_skipped i
    then split_loop node last split ns
    else split_loop node (some i.wlan_bssid) (split || differs last i.wlan_bssid) ns

-- update_essid_split_status
unfoldable pub update_essid_split_status : (ℕ → Option Info) → ℕ → Networks → Option Networks
update_essid_split_status node e s = s.essid e >>= λ name.
    (if leb (s.num_nodes e) 1 then some false else split_loop node none false (s.essid_nodes e))
    >>= λ split. some (record s { split = update s.split e split })

-- The end of uwifi_essids_remove_node, behind the node's removal.
abbrev pub drop_essid : Lists → (ℕ → Option Info) → ℕ → Networks → Option Networks
drop_essid lists node e s =
    if s.num_nodes e == 0
    then (lists.del_from s.essids e >>= λ rest.
        some (record s { essids = rest; essid = update s.essid e none }))
    else update_essid_split_status node e s

-- uwifi_essids_remove_node, of the node `n` that points to the given network.
abbrev pub leave_essid : Lists → (ℕ → Option Info) → ℕ → Option ℕ → Networks → Option Networks
leave_essid lists node n none s = some s
leave_essid lists node n (some e) s = s.essid e >>= λ name.
    lists.del_from (s.essid_nodes e) n >>= λ rest. drop_essid lists node e (record s {
      node_essid = update s.node_essid n none;
      essid_nodes = update s.essid_nodes e rest;
      num_nodes = update s.num_nodes e (sub32 (s.num_nodes e) 1);
    })

unfoldable pub essids_remove_node : Lists → (ℕ → Option Info) → ℕ → Networks → Option Networks
essids_remove_node lists node n s = leave_essid lists node n (s.node_essid n) s

-- The first network of the list with the name, by cc_list_for_each.
abbrev pub find_essid : (ℕ → Option (List ℕ)) → List ℕ → List ℕ → Option (Option ℕ)
find_essid essid name [] = some none
find_essid essid name (e ∷ es) =
    let rest = find_essid essid name es in
    essid e >>= λ other. if strncmp_eq 34 other name then some (some e) else rest

-- The network that was found, or a new one.
abbrev pub or_new_essid : Lists → List ℕ → Networks → Option ℕ → ℕ × Networks
or_new_essid lists name s (some e) = (e, s)
or_new_essid lists name s none = (
  s.next,
  record s {
    essids = lists.add_tail s.essids s.next;
    essid = update s.essid s.next (some (copy_name name));
    essid_nodes = update s.essid_nodes s.next [];
    num_nodes = update s.num_nodes s.next 0;
    split = update s.split s.next false;
    next = suc s.next;
  },
)

-- `n->essid != NULL && n->essid != e`
abbrev pub is_elsewhere : Option ℕ → ℕ → Bool
is_elsewhere none e = false
is_elsewhere (some x) e = not (x == e)

-- The node joins the network, if it has none.
abbrev pub join_essid : Lists → ℕ → ℕ → Networks → Networks
join_essid lists n e s = if is_some (s.node_essid n) then s else record s {
  node_essid = update s.node_essid n (some e);
  essid_nodes = update s.essid_nodes e (lists.add_tail (s.essid_nodes e) n);
  num_nodes = update s.num_nodes e (u32 (s.num_nodes e + 1));
}

-- `p->wlan_essid[0] == '\0'`
abbrev pub is_unnamed : List ℕ → Bool
is_unnamed [] = true
is_unnamed (x ∷ xs) = x == 0

-- The packet says nothing of a network.
abbrev pub is_ignored : Packet → Bool
is_ignored p =
    test_bit p.phy_flags 1 || (is_unnamed p.wlan_essid || not (is_announcement p.wlan_type))

-- The node `n` moves to the network `e`.
abbrev pub move_essid : Lists → (ℕ → Option Info) → ℕ → ℕ → Networks → Option Networks
move_essid lists node n e s =
    (if is_elsewhere (s.node_essid n) e then essids_remove_node lists node n s else some s)
    >>= λ left. update_essid_split_status node e (join_essid lists n e left)

-- uwifi_essids_update for a node `n` and a packet that are not NULL.
unfoldable pub essids_update : Lists → (ℕ → Option Info) → Packet → ℕ → Networks → Option Networks
essids_update lists node p n s =
    if is_ignored p
    then some s
    else (find_essid s.essid p.wlan_essid s.essids >>= λ found.
        let r = or_new_essid lists p.wlan_essid s found in move_essid lists node n r.0 r.1)

-- uwifi_essids_free
abbrev pub free_essids : Lists → List ℕ → Networks → Option Networks
free_essids lists [] s = some s
free_essids lists (e ∷ es) s = s.essid e >>= λ name. lists.del_from s.essids e >>= λ rest.
    free_essids lists es (record s { essids = rest; essid = update s.essid e none })

unfoldable pub essids_free : Lists → Networks → Option Networks
essids_free lists s = free_essids lists s.essids s

-- A node points to a network exactly when it is in its list; the list of networks has those that are
-- allocated, each once; a network counts its nodes, and only those marked by `empty` may be without any.
pub record IsNetworks (node : ℕ → Option Info) (empty : ℕ → Bool) (s : Networks) : Type 0 where
  pub links : Links s.node_essid s.essid_nodes
  pub node_alive : (n e : ℕ) → points (s.node_essid n) e ≡ true → is_some (node n) ≡ true
  pub essid_alive : (n e : ℕ) → points (s.node_essid n) e ≡ true → contains e s.essids ≡ true
  pub distinct : Distinct s.essids
  pub listed : (e : ℕ) → is_some (s.essid e) ≡ contains e s.essids
  pub unused : (e : ℕ) → contains e s.essids ≡ true → e < s.next
  pub counted : (e : ℕ) → s.num_nodes e ≡ length (s.essid_nodes e)
  pub used : (e : ℕ) → contains e s.essids ≡ true → empty e ≡ false → 0 < s.num_nodes e
  pub fits : (e : ℕ) → s.num_nodes e < 2 ^ 32

-- Every network has a node.
abbrev pub no_empty : ℕ → Bool
no_empty e = false

-- The invariant says nothing of the split status, and does not depend on where nodes are allocated
-- besides.
pub keep_networks :
    (node node' : ℕ → Option Info) (empty : ℕ → Bool) (s : Networks) (split : ℕ → Bool)
    → IsNetworks node empty s
    → ((m : ℕ) → is_some (node m) ≡ true → is_some (node' m) ≡ true)
    → IsNetworks node' empty (record s { split = split })
keep_networks node node' empty s split valid keeps = record {
  links = valid.links;
  node_alive = λ n e p. keeps n (valid.node_alive n e p);
  essid_alive = valid.essid_alive;
  distinct = valid.distinct;
  listed = valid.listed;
  unused = valid.unused;
  counted = valid.counted;
  used = valid.used;
  fits = valid.fits;
}
