-- ===== src/Examples/Nodes.antt =====
-- An access point with a network, and its station, in the lists of core/node.c and core/essid.c.
use Prim.{tt, ⊥}
use libuwifi.Base.{
  sym, ap, ◌⊎◌, ℕ, ◌≡◌, refl, false, none, some, List, [], ◌∷◌, ◌++◌, if◌then◌else◌, ◌∙◌,
  Bool-cases, inl, inr, ◌==◌, arith,
}
use libuwifi.Node.Mac.{eq_mac_clash}
use libuwifi.Store.{some_inj, Lists, ListLaws, contains, remove, update}
use libuwifi.Parser.Packet.{Packet}
use libuwifi.Node.Info.{Info, zero_info, node_average}
use libuwifi.Node.Table.{Table, IsTable, Unique}
use libuwifi.Node.Ap.{Aps, IsAps}
use libuwifi.Essid.Networks.{Networks, IsNetworks, no_empty}
use libuwifi.Node.Timeout.{State, IsState}
use libuwifi.Examples.Frames.{no_packet}

-- Lists that check what they are asked to remove.
abbrev pub checked_lists : Lists
checked_lists = record {
  add_tail = λ xs n. xs ++ n ∷ [];
  del_from = λ xs n. if contains n xs then some (remove n xs) else none;
}

pub checked_laws : ListLaws checked_lists
checked_laws = record { appends = λ n xs. refl; removes = λ n xs distinct inside. rw inside refl }

abbrev pub access_mac : List ℕ
access_mac = 2 ∷ 0 ∷ 0 ∷ 0 ∷ 0 ∷ 1 ∷ []

abbrev pub station_mac : List ℕ
station_mac = 2 ∷ 0 ∷ 0 ∷ 0 ∷ 0 ∷ 2 ∷ []

abbrev ap_info : Info
ap_info = record (zero_info node_average) {
  wlan_src = access_mac;
  wlan_bssid = access_mac;
  wlan_mode = 1;
  last_seen = 9000000;
}

abbrev pub station_info : Info
station_info = record (zero_info node_average) {
  wlan_src = station_mac;
  wlan_bssid = access_mac;
  wlan_mode = 4;
  last_seen = 1000000;
}

abbrev pub net_name : List ℕ
net_name = 110 ∷ 101 ∷ 116 ∷ 0 ∷ []

abbrev pub table : Table
table = record {
  nodes = 0 ∷ 1 ∷ [];
  node = update (update (λ n. none) 0 (some ap_info)) 1 (some station_info);
  next = 2;
}

abbrev pub links : Aps
links = record { ap_node = update (λ n. none) 1 (some 0); ap_nodes = update (λ a. []) 0 (1 ∷ []) }

abbrev pub networks : Networks
networks = record {
  node_essid = update (λ n. none) 0 (some 0);
  essids = 0 ∷ [];
  essid = update (λ e. none) 0 (some net_name);
  essid_nodes = update (λ e. []) 0 (0 ∷ []);
  num_nodes = update (λ e. 0) 0 1;
  split = λ e. false;
  next = 1;
}

pub table-IsTable : IsTable table
table-IsTable = record {
  distinct = (refl, (refl, tt));
  listed = λ n. ground arith;
  unused = λ n c. ground arith;
}

pub links-IsAps : IsAps table.node links
links-IsAps = record {
  links = record {
    linked = λ n o. ground arith;
    unique = λ o. elim (Bool-cases (o == 0)) [ inl e ↦ rw e (refl, tt) | inr e ↦ rw e tt ];
  };
  station_alive = λ n a p. ground arith;
  ap_alive = λ n a p. ground arith;
}

pub networks-IsNetworks : IsNetworks table.node no_empty networks
networks-IsNetworks = record {
  links = record {
    linked = λ n o. ground arith;
    unique = λ o. elim (Bool-cases (o == 0)) [ inl e ↦ rw e (refl, tt) | inr e ↦ rw e tt ];
  };
  node_alive = λ n e p. ground arith;
  essid_alive = λ n e p. ground arith;
  distinct = (refl, tt);
  listed = λ e. ground arith;
  unused = λ e c. ground arith;
  counted = λ e. ground arith;
  used = λ e c p. ground arith;
  fits = λ e. ground arith;
}

abbrev pub seen : State
seen = record { table = table; aps = links; networks = networks }

-- Which node a pointer leads to.
two_nodes :
    (m : ℕ) (i : Info)
    → table.node m ≡ some i
    → ((m ≡ 1) × (station_info ≡ i)) ⊎ ((m ≡ 0) × (ap_info ≡ i))
two_nodes m i e = elim (Bool-cases (m == 1)) [
  | inl one ↦
      let self : table.node m ≡ some station_info = rw one refl in
      inl (ground arith, some_inj (sym self ∙ e))
  | inr other ↦ elim (Bool-cases (m == 0)) [
    | inl zero ↦
        let self : table.node m ≡ some ap_info = rw (other, zero) refl in
        inr (ground arith, some_inj (sym self ∙ e))
    | inr neither ↦
        let self : table.node m ≡ none = rw (other, neither) refl in
        let clash : none ≡ some i = sym self ∙ e in absurd (cc)
  ]
]

-- The two addresses differ in their last byte.
addresses_differ : station_mac ≡ access_mac → ⊥
addresses_differ e = eq_mac_clash station_mac access_mac refl e

table-Unique : Unique table
table-Unique = record {
  same = λ m n i j at_m at_n e. elim (two_nodes m i at_m) [
    | inl (m1, i1) ↦ elim (two_nodes n j at_n) [
      | inl (n1, j1) ↦ m1 ∙ sym n1
      | inr (n0, j0) ↦
          absurd (addresses_differ (ap (λ x. x.wlan_src) i1 ∙ e ∙ sym (ap (λ x. x.wlan_src) j0)))
    ]
    | inr (m0, i0) ↦ elim (two_nodes n j at_n) [
      | inl (n1, j1) ↦
          absurd
            (addresses_differ (ap (λ x. x.wlan_src) j1 ∙ sym e ∙ sym (ap (λ x. x.wlan_src) i0)))
      | inr (n0, j0) ↦ m0 ∙ sym n0
    ]
  ];
}

pub seen-IsState : IsState seen
seen-IsState = record {
  table = table-IsTable;
  unique = table-Unique;
  aps = links-IsAps;
  networks = networks-IsNetworks;
}

-- A data frame of the station, and a beacon of the access point.
abbrev pub data_packet : Packet
data_packet = record no_packet {
  wlan_ta = station_mac;
  wlan_ra = access_mac;
  wlan_bssid = access_mac;
  wlan_mode = 4;
  wlan_type = 8;
}

abbrev pub beacon_packet : Packet
beacon_packet = record no_packet {
  wlan_ta = access_mac;
  wlan_ra = 255 ∷ 255 ∷ 255 ∷ 255 ∷ 255 ∷ 255 ∷ [];
  wlan_bssid = access_mac;
  wlan_mode = 1;
  wlan_type = 128;
  wlan_essid = net_name;
}
