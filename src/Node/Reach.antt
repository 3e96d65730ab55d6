-- ===== src/Node/Reach.antt =====
-- Sequences of calls of core/node.c and core/essid.c from the empty lists on.
use Prim.{Unit, tt}
use libuwifi.Base.{
  ℕ, ◌+◌, ◌<◌, ◌^◌, ◌≡◌, refl, ◌∙◌, sym, subst, true, false, ◌||◌, Option, none, some, [],
  Bool-cases, inl, inr, arith, ltb, sub32, test_bit, ◌>>=◌, Succeeds,
}
use libuwifi.Store.{Lists, ListLaws, contains, is_some, is_some-some, some_inj}
use libuwifi.Parser.Packet.{Packet}
use libuwifi.Node.Mac.{mac_empty, mac_bcast}
use libuwifi.Node.Table.{Table, IsTable, Unique, node_update, node_update_receiver}
use libuwifi.Node.Table.Update.{
  node_update-Puts, node_update_receiver-Puts, node_update-hidden, node_update_receiver-hidden,
}
use libuwifi.Node.Ap.{IsAps-mono, seeks_ap, nodes_find_ap}
use libuwifi.Node.Ap.Join.{nodes_find_ap-Joins, nodes_find_ap-idle}
use libuwifi.Essid.Strings.{ends_within}
use libuwifi.Essid.Networks.{no_empty, keep_networks, is_ignored, essids_update}
use libuwifi.Essid.Networks.Update.{essids_update_records, essids_update-ignored}
use libuwifi.Node.Timeout.{State, IsState, limit_of, nodes_timeout}
use libuwifi.Node.Timeout.Expire.{nodes_timeout-expire, nodes_timeout-early}

-- A call of the library: a packet at a time, for its transmitter or its receiver; the search for the
-- access point of a node; the network that a packet of a node announces; a timeout.
pub data Call : Type 0 where
  update_node : ℕ → Packet → Call
  update_receiver : ℕ → Packet → Call
  find_ap : ℕ → Call
  update_essids : Packet → ℕ → Call
  expire_nodes : ℕ → ℕ → ℕ → Call

-- The state behind a call.
unfoldable pub run : Lists → Call → State → Option State
run lists (update_node now p) s =
    node_update lists s.aps.ap_node now p s.table >>= λ r. some (record s { table = r.0 })
run lists (update_receiver now p) s =
    node_update_receiver lists s.aps.ap_node now p s.table >>= λ r. some (record s { table = r.0 })
run lists (find_ap n) s = nodes_find_ap lists s.table n s.aps >>= λ r. some (record s { aps = r })
run lists (update_essids p n) s =
    essids_update lists s.table.node p n s.networks >>= λ r. some (record s { networks = r })
run lists (expire_nodes sec now last) s = nodes_timeout lists sec now last s >>= λ r. some r.0

-- What a caller has to see to: a node that it passes is allocated, the name in a packet ends within its
-- array, and no network has 2^32 - 1 nodes.
abbrev pub IsAllowed : Call → State → Type 0
IsAllowed (update_node now p) s = Unit {0}
IsAllowed (update_receiver now p) s = Unit {0}
IsAllowed (find_ap n) s = is_some (s.table.node n) ≡ true
IsAllowed (update_essids p n) s =
    (is_some (s.table.node n) ≡ true)
    × (ends_within 34 p.wlan_essid ≡ true)
    × ((e : ℕ) → s.networks.num_nodes e + 1 < 2 ^ 32)
IsAllowed (expire_nodes sec now last) s = Unit {0}

-- One allowed call that returns.
pub data Step (lists : Lists) (s s' : State) : Type 0 where
  allowed_call : (call : Call) → IsAllowed call s → run lists call s ≡ some s' → Step lists s s'

-- Any number of allowed calls.
pub data Reach (lists : Lists) (s : State) : State → Type 0 where
  reached_start : Reach lists s s
  reached_by : {s' s'' : State} → Reach lists s s' → Step lists s' s'' → Reach lists s s''

-- The lists behind cc_list_head_init.
abbrev pub empty_state : State
empty_state = record {
  table = record { nodes = []; node = λ n. none; next = 0 };
  aps = record { ap_node = λ n. none; ap_nodes = λ n. [] };
  networks = record {
    node_essid = λ n. none;
    essids = [];
    essid = λ e. none;
    essid_nodes = λ e. [];
    num_nodes = λ e. 0;
    split = λ e. false;
    next = 0;
  };
}

empty-IsState : IsState empty_state
empty-IsState = record {
  table = record { distinct = tt; listed = λ n. refl; unused = λ n c. absurd (cc) };
  unique = record { same = λ m n i j at_m at_n e. absurd (cc) };
  aps = record {
    links = record { linked = λ n o. refl; unique = λ o. tt };
    station_alive = λ n a p. absurd (cc);
    ap_alive = λ n a p. absurd (cc);
  };
  networks = record {
    links = record { linked = λ n o. refl; unique = λ o. tt };
    node_alive = λ n e p. absurd (cc);
    essid_alive = λ n e p. absurd (cc);
    distinct = tt;
    listed = λ e. refl;
    unused = λ e c. absurd (cc);
    counted = λ e. refl;
    used = λ e c p. absurd (cc);
    fits = λ e. omega arith;
  };
}

-- A changed table under the same links.
put-IsState :
    (s : State) (t' : Table)
    → IsState s
    → IsTable t'
    → Unique t'
    → ((m : ℕ) → is_some (s.table.node m) ≡ true → is_some (t'.node m) ≡ true)
    → IsState (record s { table = t' })
put-IsState s t' valid table unique keeps = record {
  table = table;
  unique = unique;
  aps = IsAps-mono s.table.node t'.node s.aps valid.aps keeps;
  networks =
      keep_networks s.table.node t'.node no_empty s.networks s.networks.split valid.networks keeps;
}

module _ {lists : Lists} (laws : ListLaws lists) where
  -- In a state in order, an allowed call of an update, an access point search, a network update or
  -- a timeout returns a state in order: every list has exactly the allocated elements that point to
  -- its owner, each once, no two nodes have the same address, and networks count their nodes and
  -- have one at least.
  pub run-IsState :
      (call : Call) (s : State)
      → IsState s
      → IsAllowed call s
      → (s' : State) × (run lists call s ≡ some s') × IsState s'
  unfolding run
  run-IsState (update_node now p) s valid allowed =
      elim (Bool-cases (test_bit p.phy_flags 1 || mac_empty p.wlan_ta)) [
        | inl hidden ↦ (s, rw (node_update-hidden laws s.aps now p s.table hidden) refl, valid)
        | inr shown ↦
            let (n, i, t', runs, before, puts) =
              node_update-Puts laws s.aps now p s.table valid.table valid.aps shown in
            (
              record s { table = t' },
              rw runs refl,
              put-IsState s t' valid puts.valid (puts.unique valid.unique) puts.keeps,
            )
      ]
  run-IsState (update_receiver now p) s valid allowed =
      elim (Bool-cases (test_bit p.phy_flags 1 || (mac_empty p.wlan_ra || mac_bcast p.wlan_ra))) [
        | inl hidden ↦
            (s, rw (node_update_receiver-hidden laws s.aps now p s.table hidden) refl, valid)
        | inr shown ↦
            let (n, i, t', runs, before, puts) =
              node_update_receiver-Puts laws s.aps now p s.table valid.table valid.aps shown in
            (
              record s { table = t' },
              rw runs refl,
              put-IsState s t' valid puts.valid (puts.unique valid.unique) puts.keeps,
            )
      ]
  run-IsState (find_ap n) s valid allowed =
      let (i, at) = is_some-some (s.table.node n) allowed in
      let alive = λ (m : ℕ) (c : contains m s.table.nodes ≡ true). valid.table.listed m ∙ c in
      elim (Bool-cases (seeks_ap i)) [
        | inl seeks ↦
            let (aps, runs, joins) =
              nodes_find_ap-Joins laws s.table alive s.aps n i valid.aps at seeks in
            (
              record s { aps = aps },
              rw runs refl,
              record {
                table = valid.table;
                unique = valid.unique;
                aps = joins.valid;
                networks = valid.networks;
              },
            )
        | inr idle ↦ (s, rw (nodes_find_ap-idle laws s.table alive s.aps n i at idle) refl, valid)
      ]
  run-IsState (update_essids p n) s valid allowed = elim (Bool-cases (is_ignored p)) [
    | inl ignored ↦
        (s, rw (essids_update-ignored lists s.table.node s.networks p n ignored) refl, valid)
    | inr shown ↦
        let (e, networks, runs, recorded) =
          essids_update_records laws s.networks p n valid.networks allowed.0 allowed.2 shown
            allowed.1 in
        (
          record s { networks = networks },
          rw runs refl,
          record {
            table = valid.table;
            unique = valid.unique;
            aps = valid.aps;
            networks = recorded.valid;
          },
        )
  ]
  run-IsState (expire_nodes sec now last) s valid allowed =
      elim (Bool-cases (ltb (sub32 now last) (limit_of sec))) [
        | inl early ↦ (s, rw (nodes_timeout-early lists sec now last s early) refl, valid)
        | inr due ↦
            let (s', runs, valid', left) = nodes_timeout-expire laws sec now last s valid due in
            (s', rw runs refl, valid')
      ]

  -- Every state that the calls reach is in order.
  pub Reach-IsState : (s s' : State) → IsState s → Reach lists s s' → IsState s'
  Reach-IsState s s' valid reached_start = valid
  Reach-IsState s s'' valid (reached_by {s'} reach (allowed_call call allowed runs)) =
      let (s3, runs', valid') = run-IsState call s' (Reach-IsState s s' valid reach) allowed in
      subst IsState (some_inj (sym runs' ∙ runs)) valid'

  -- In every state that allowed calls of updates, access point searches, network updates and
  -- timeouts reach from the empty lists, an allowed call meets no fault: no freed node or network
  -- is used, and no element is removed from a list that it is not in.
  pub Reach-Succeeds :
      (s : State) (call : Call)
      → Reach lists empty_state s
      → IsAllowed call s
      → Succeeds (run lists call s)
  Reach-Succeeds s call reach allowed =
      let valid = Reach-IsState empty_state s empty-IsState reach in
      let (s', runs, valid') = run-IsState call s valid allowed in
      record { result = s'; runs = runs }
