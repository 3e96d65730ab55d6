-- ===== src/Node/Table/Update.antt =====
-- uwifi_node_update and uwifi_node_update_receiver of core/node.c implement changes of a finite map from
-- addresses to the fields of nodes.
use libuwifi.Base.{
  ◌>>=◌, ◌⊎◌, ℕ, ◌≡◌, refl, Bool, true, false, ◌||◌, Option, none, some, List, ◌==◌, Bool-cases,
  inl, inr, arith, ap, sym, ◌∙◌, if◌then◌else◌, test_bit,
}
use libuwifi.Store.{Lists, ListLaws, update, contains, is_some, is_some-some, points, some_inj}
use libuwifi.Parser.Packet.{Packet}
use libuwifi.Node.Mac.{eq_mac, mac_empty, mac_bcast, eq_mac_clash}
use libuwifi.Node.Info.{Info}
use libuwifi.Node.Copy.{
  copy_nodeinfo, copy_rx_nodeinfo, copy_general, copy_announced, copy_signal, copy_retries,
  copy_width, copy_wep, is_announcement,
}
use libuwifi.Node.Table.{Table, IsTable, Unique, ap_channel, node_update, node_update_receiver}
use libuwifi.Node.Table.Content.{content}
use libuwifi.Node.Table.Change.{prior, Ready, ready_lem}
use libuwifi.Node.Ap.{Aps, IsAps}

-- The table `t'` is valid and has the nodes of `t`; as a map from addresses it is that of `t`, but that
-- the address `addr` has the fields `i'`, which are those of the node `n`.
pub record Puts (addr : List ℕ) (n : ℕ) (i' : Info) (t t' : Table) : Type 0 where
  pub valid : IsTable t'
  pub keeps : (m : ℕ) → is_some (t.node m) ≡ true → is_some (t'.node m) ≡ true
  pub at : t'.node n ≡ some i'
  pub unique : Unique t → Unique t'
  pub map :
      (mac : List ℕ)
      → content t'.node t'.nodes mac
        ≡ (if eq_mac mac addr then some i' else content t.node t.nodes mac)

-- The fields of a node behind the change of the node `n`.
changed_at :
    (node : ℕ → Option Info) (n m : ℕ) (i' i : Info)
    → update node n (some i') m ≡ some i
    → ((m ≡ n) × (i' ≡ i)) ⊎ (((m == n) ≡ false) × (node m ≡ some i))
changed_at node n m i' i e = elim (Bool-cases (m == n)) [
  | inl here ↦
      let self : update node n (some i') m ≡ some i' = rw here refl in
      inl (ground arith, some_inj (sym self ∙ e))
  | inr there ↦
      let self : update node n (some i') m ≡ node m = rw there refl in inr (there, sym self ∙ e)
]

-- No other node has the address that is written.
put-Unique :
    {lists : Lists} {rx_only : Bool} (addr : List ℕ) (t : Table) (found : Option ℕ)
    (r : Ready lists rx_only addr t found) (i' : Info)
    → i'.wlan_src ≡ addr
    → Unique t
    → Unique (record r.ready { node = update r.ready.node r.n (some i') })
put-Unique addr t found r i' src unique = record {
  same = λ m k i j at_m at_k e. elim (changed_at r.ready.node r.n m i' i at_m) [
    | inl (m_n, is_i) ↦ elim (changed_at r.ready.node r.n k i' j at_k) [
      | inl (k_n, is_j) ↦ m_n ∙ sym k_n
      | inr (other, old) ↦ absurd (
          eq_mac_clash addr j.wlan_src (r.apart unique k j other (sym (r.others k other) ∙ old))
            (sym src ∙ ap (λ x. x.wlan_src) is_i ∙ e))
    ]
    | inr (other, old) ↦ elim (changed_at r.ready.node r.n k i' j at_k) [
      | inl (k_n, is_j) ↦ absurd (
          eq_mac_clash addr i.wlan_src (r.apart unique m i other (sym (r.others m other) ∙ old))
            (sym src ∙ ap (λ x. x.wlan_src) is_j ∙ sym e))
      | inr (other', old') ↦
          unique.same m k i j (sym (r.others m other) ∙ old) (sym (r.others k other') ∙ old') e
    ]
  ];
}

-- Writing the fields of a node that is ready.
puts_lem :
    {lists : Lists} {rx_only : Bool} (addr : List ℕ) (t : Table) (found : Option ℕ)
    (r : Ready lists rx_only addr t found) (i' : Info)
    → i'.wlan_src ≡ addr
    → Puts addr r.n i' t (record r.ready { node = update r.ready.node r.n (some i') })
puts_lem addr t found r i' src = record {
  valid = record {
    distinct = r.valid.distinct;
    listed = λ m. elim (Bool-cases (m == r.n)) [
      | inl same ↦
          let here : m ≡ r.n = ground arith in
          rw same (
            sym (ap is_some r.at)
            ∙ r.valid.listed r.n
            ∙ ap (λ k. contains k r.ready.nodes) (sym here))
      | inr other ↦ rw other (r.valid.listed m)
    ];
    unused = r.valid.unused;
  };
  keeps = λ m a. elim (Bool-cases (m == r.n)) [
    | inl same ↦ rw same refl
    | inr other ↦ rw other (r.keeps m a)
  ];
  at = ground arith;
  unique = put-Unique addr t found r i' src;
  map = r.written i' src;
}

-- The channel of an access point that a pointer leads to.
abbrev pub channel_at : (ℕ → Option Info) → Option ℕ → Option ℕ
channel_at node none = none
channel_at node (some a) = node a >>= λ i. some i.wlan_channel

-- The channel of the access point is read without a fault behind the change of the list.
ap_channel-channel_at :
    (node ready : ℕ → Option Info) (o : Option ℕ)
    → ((a : ℕ) → points o a ≡ true → is_some (node a) ≡ true)
    → ((a : ℕ) → is_some (node a) ≡ true → ready a ≡ node a)
    → ap_channel ready o ≡ some (channel_at node o)
ap_channel-channel_at node ready none alive same = refl
ap_channel-channel_at node ready (some a) alive same =
    let allocated = alive a (ground arith) in
    let (i, at) = is_some-some (node a) allocated in rw (same a allocated, at) refl

copy_retries-src : (i : Info) (p : Packet) → (copy_retries i p).wlan_src ≡ i.wlan_src
unfolding copy_retries
copy_retries-src i p = elim (Bool-cases (p.wlan_seqno == 0)) [
  | inl e ↦ rw e refl
  | inr e ↦ rw e refl
]

copy_announced-src :
    (i : Info) (channel : Option ℕ) (p : Packet)
    → (copy_announced i channel p).wlan_src ≡ i.wlan_src
unfolding copy_announced
copy_announced-src i channel p = elim (Bool-cases (is_announcement p.wlan_type)) [
  | inl e ↦ rw e refl
  | inr e ↦ rw e refl
]

copy_nodeinfo-src :
    (i : Info) (channel : Option ℕ) (now : ℕ) (p : Packet)
    → (copy_nodeinfo i channel now p).0.wlan_src ≡ p.wlan_ta
unfolding copy_nodeinfo copy_general copy_signal copy_width copy_wep
copy_nodeinfo-src i channel now p =
    let announced = copy_announced (copy_general i now p) channel p in
    copy_retries-src (copy_wep (copy_signal announced p) p) p
    ∙ copy_announced-src (copy_general i now p) channel p

copy_rx_nodeinfo-src :
    (i : Info) (channel : Option ℕ) (now : ℕ) (p : Packet)
    → (copy_rx_nodeinfo i channel now p).wlan_src ≡ p.wlan_ra
unfolding copy_rx_nodeinfo copy_wep
copy_rx_nodeinfo-src i channel now p = refl

module _ {lists : Lists} (laws : ListLaws lists) (s : Aps) (now : ℕ) (p : Packet) (t : Table) where
  -- For a valid table whose links to access points are in order and a packet with a right FCS and a
  -- transmitter, uwifi_node_update meets no fault, returns a node, and implements a change of the
  -- finite map from addresses to fields: the address of the transmitter gets the fields that
  -- copy_nodeinfo makes of those it had, or of those of a new node, with the channel of the access
  -- point that the node points to, if any; other addresses keep theirs, the table stays valid, no
  -- node is freed, and no two nodes have the same address if none had before.
  pub node_update-Puts :
      IsTable t
      → IsAps t.node s
      → (test_bit p.phy_flags 1 || mac_empty p.wlan_ta) ≡ false
      → (n : ℕ) × (i : Info) × (t' : Table) × (node_update lists s.ap_node now p t
          ≡ some (t', (copy_nodeinfo i (channel_at t.node (s.ap_node n)) now p).1, some n))
        × (prior false (content t.node t.nodes p.wlan_ta) ≡ some i)
        × Puts p.wlan_ta n (copy_nodeinfo i (channel_at t.node (s.ap_node n)) now p).0 t t'
  unfolding node_update
  node_update-Puts valid aps shown =
      let (found, e, r) = ready_lem laws t valid p.wlan_ta false in
      let channel = channel_at t.node (s.ap_node r.n) in
      let reads : ap_channel r.ready.node (s.ap_node r.n) ≡ some channel =
        ap_channel-channel_at t.node r.ready.node (s.ap_node r.n) (aps.ap_alive r.n) r.same in
      (
        r.n,
        r.i,
        record r.ready {
          node = update r.ready.node r.n (some (copy_nodeinfo r.i channel now p).0);
        },
        rw (shown, e, r.runs, r.at, reads) refl,
        r.before,
        puts_lem p.wlan_ta t found r (copy_nodeinfo r.i channel now p).0
            (copy_nodeinfo-src r.i channel now p),
      )

  -- For a valid table whose links to access points are in order and a packet with a right FCS and a
  -- receiver that is neither empty nor the broadcast address, uwifi_node_update_receiver meets no
  -- fault, returns a node, and implements a change of the finite map from addresses to fields: the
  -- address of the receiver gets the fields that copy_rx_nodeinfo makes of those it had, or of
  -- those of a new node marked as receiving only, with the channel of the access point that the
  -- node points to, if any; other addresses keep theirs, the table stays valid, no node is freed,
  -- and no two nodes have the same address if none had before.
  pub node_update_receiver-Puts :
      IsTable t
      → IsAps t.node s
      → (test_bit p.phy_flags 1 || (mac_empty p.wlan_ra || mac_bcast p.wlan_ra)) ≡ false
      → (n : ℕ) × (i : Info) × (t' : Table) × (node_update_receiver lists s.ap_node now p t
          ≡ some (t', some n))
        × (prior true (content t.node t.nodes p.wlan_ra) ≡ some i)
        × Puts p.wlan_ra n (copy_rx_nodeinfo i (channel_at t.node (s.ap_node n)) now p) t t'
  unfolding node_update_receiver
  node_update_receiver-Puts valid aps shown =
      let (found, e, r) = ready_lem laws t valid p.wlan_ra true in
      let channel = channel_at t.node (s.ap_node r.n) in
      let reads : ap_channel r.ready.node (s.ap_node r.n) ≡ some channel =
        ap_channel-channel_at t.node r.ready.node (s.ap_node r.n) (aps.ap_alive r.n) r.same in
      (
        r.n,
        r.i,
        record r.ready {
          node = update r.ready.node r.n (some (copy_rx_nodeinfo r.i channel now p));
        },
        rw (shown, e, r.runs, r.at, reads) refl,
        r.before,
        puts_lem p.wlan_ra t found r (copy_rx_nodeinfo r.i channel now p)
            (copy_rx_nodeinfo-src r.i channel now p),
      )

  -- Another packet changes nothing.
  pub node_update-hidden :
      (test_bit p.phy_flags 1 || mac_empty p.wlan_ta) ≡ true
      → node_update lists s.ap_node now p t ≡ some (t, p, none)
  unfolding node_update
  node_update-hidden hidden = rw hidden refl

  pub node_update_receiver-hidden :
      (test_bit p.phy_flags 1 || (mac_empty p.wlan_ra || mac_bcast p.wlan_ra)) ≡ true
      → node_update_receiver lists s.ap_node now p t ≡ some (t, none)
  unfolding node_update_receiver
  node_update_receiver-hidden hidden = rw hidden refl
