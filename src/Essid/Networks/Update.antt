-- ===== src/Essid/Networks/Update.antt =====
-- uwifi_essids_update of core/essid.c: the node that announces a name stands in the network of that name.
use libuwifi.Base.{
  subst, length, ◌⊎◌, test_bit, if◌then◌else◌, ℕ, ◌+◌, ◌<◌, ◌^◌, ◌≡◌, refl, ◌∙◌, sym, ap, true,
  false, ◌||◌, not, Option, none, some, List, [], ◌∷◌, ◌++◌, ◌==◌, Bool-cases, Option-cases, inl,
  inr, arith, u32, length-append,
}
use libuwifi.Store.{
  Lists, ListLaws, contains, update, points, is_some, some-points, add_link, update_self,
}
use libuwifi.Parser.Packet.{Packet}
use libuwifi.Node.Info.{Info}
use libuwifi.Essid.Strings.{ends_within, text, same_bytes, strncmp_eq-same_bytes}
use libuwifi.Essid.Networks.{
  Networks, IsNetworks, no_empty, keep_networks, is_elsewhere, join_essid, move_essid, is_ignored,
  is_unnamed, essids_update, update_essid_split_status,
}
use libuwifi.Essid.Networks.Split.{bssids, all_same, update_essid_split_status_lem}
use libuwifi.Essid.Networks.Find.{first_named_or, ready_lem}
use libuwifi.Essid.Networks.Leave.{essids_remove_node-Leaves, narrow, length_pos}

-- The node `n` is in order in the network `e`, which is the first that had the name, or new if none had it.
-- It has the name, up to its end, and the split status of its nodes; other nodes keep their network.
pub record Recorded (node : ℕ → Option Info) (name : List ℕ) (n e : ℕ) (s s' : Networks)
    : Type 0 where
  pub valid : IsNetworks node no_empty s'
  pub member : s'.node_essid n ≡ some e
  pub place : e ≡ first_named_or s.next s.essid name s.essids
  pub named :
      (own : List ℕ) × (s'.essid e ≡ some own) × (same_bytes (text 34 own) (text 34 name) ≡ true)
  pub status : s'.split e ≡ not (all_same (bssids node (s'.essid_nodes e)))
  pub others : (m : ℕ) → (m == n) ≡ false → s'.node_essid m ≡ s.node_essid m

elsewhere_apart : (o : Option ℕ) (e : ℕ) → is_elsewhere o e ≡ true → points o e ≡ false
elsewhere_apart none e p = refl
elsewhere_apart (some x) e p = ground arith

-- A packet that names no network changes nothing.
pub essids_update-ignored :
    (lists : Lists) (node : ℕ → Option Info) (s : Networks) (p : Packet) (n : ℕ)
    → is_ignored p ≡ true
    → essids_update lists node p n s ≡ some s
unfolding essids_update
essids_update-ignored lists node s p n ignored = rw ignored refl

is_unnamed-text : (name : List ℕ) → 0 < length (text 34 name) → is_unnamed name ≡ false
is_unnamed-text [] e = absurd (omega arith)
is_unnamed-text (c ∷ cs) e = elim (Bool-cases (c == 0)) [
  | inl zero ↦
      let none_there : 0 < 0 = subst (λ b. 0 < length (if b then [] else c ∷ text 33 cs)) zero e in
      absurd (omega arith)
  | inr other ↦ other
]

shown_lem :
    (p : Packet)
    → test_bit p.phy_flags 1 ≡ false
    → (p.wlan_type ≡ 0x80) ⊎ (p.wlan_type ≡ 0x50)
    → 0 < length (text 34 p.wlan_essid)
    → is_ignored p ≡ false
shown_lem p fcs type named =
    let unnamed = is_unnamed-text p.wlan_essid named in
    elim type [
      | inl is_beacon ↦ rw (fcs, unnamed, is_beacon) refl
      | inr is_response ↦ rw (fcs, unnamed, is_response) refl
    ]

-- The node is in the network `e` of `s'`, which has the names and the list of networks of `s`.
record Joined (node : ℕ → Option Info) (n e : ℕ) (s s' : Networks) : Type 0 where
  valid : IsNetworks node no_empty s'
  member : s'.node_essid n ≡ some e
  essid : s'.essid ≡ s.essid
  essids : s'.essids ≡ s.essids
  others : (m : ℕ) → (m == n) ≡ false → s'.node_essid m ≡ s.node_essid m

module _ {lists : Lists} (laws : ListLaws lists) {node : ℕ → Option Info} where
  -- A node without a network joins one.
  join_free :
      (s : Networks) (n e : ℕ)
      → IsNetworks node (λ x. no_empty x || x == e) s
      → is_some (node n) ≡ true
      → contains e s.essids ≡ true
      → s.num_nodes e + 1 < 2 ^ 32
      → s.node_essid n ≡ none
      → (s' : Networks) × (join_essid lists n e s ≡ s') × Joined node n e s s'
  join_free s n e valid alive listed room free =
      let appended = laws.appends n (s.essid_nodes e) in
      (
        record s {
          node_essid = update s.node_essid n (some e);
          essid_nodes = update s.essid_nodes e (s.essid_nodes e ++ n ∷ []);
          num_nodes = update s.num_nodes e (u32 (s.num_nodes e + 1));
        },
        rw (free, appended) refl,
        record {
          valid = record {
            links = add_link valid.links n e free;
            node_alive = λ m x p. elim (Bool-cases (m == n)) [
              | inl here ↦ let m_n : m ≡ n = ground arith in rw m_n alive
              | inr there ↦ valid.node_alive m x (ground arith)
            ];
            essid_alive = λ m x p. elim (Bool-cases (m == n)) [
              | inl here ↦ let e_x : e ≡ x = ground arith in rw (← e_x) listed
              | inr there ↦ valid.essid_alive m x (ground arith)
            ];
            distinct = valid.distinct;
            listed = valid.listed;
            unused = valid.unused;
            counted = λ x. elim (Bool-cases (x == e)) [
              | inl here ↦
                  rw here
                    (ground (arith, valid.counted e, length-append {0} (s.essid_nodes e) (n ∷ [])))
              | inr there ↦ rw there (valid.counted x)
            ];
            used = λ x c p. ground (arith, valid.used x);
            fits = λ x. ground (arith, valid.fits x);
          };
          member = ground arith;
          essid = refl;
          essids = refl;
          others = λ m other. rw other refl;
        },
      )

  -- A node that is in no network or in `e` is in `e` behind the join.
  joined :
      (s : Networks) (n e : ℕ)
      → IsNetworks node (λ x. no_empty x || x == e) s
      → is_some (node n) ≡ true
      → contains e s.essids ≡ true
      → s.num_nodes e + 1 < 2 ^ 32
      → is_elsewhere (s.node_essid n) e ≡ false
      → (s' : Networks) × (join_essid lists n e s ≡ s') × Joined node n e s s'
  joined s n e valid alive listed room here = elim (Option-cases (s.node_essid n)) [
    | inl free ↦ join_free s n e valid alive listed room free
    | inr (x, member) ↦
        let at_x : not (x == e) ≡ false = ap (λ o. is_elsewhere o e) (sym member) ∙ here in
        let same : x ≡ e = ground arith in
        let at_e : s.node_essid n ≡ some e = member ∙ ap some same in
        let inside = valid.links.linked n e ∙ some-points (s.node_essid n) e at_e in
        let somebody = length_pos n (s.essid_nodes e) inside in
        (
          s,
          rw member refl,
          record {
            valid = narrow s e valid (ground (arith, valid.counted e, somebody));
            member = at_e;
            essid = refl;
            essids = refl;
            others = λ m other. refl;
          },
        )
  ]

  -- The node leaves another network first.
  moved :
      (s : Networks) (n e : ℕ)
      → IsNetworks node (λ x. no_empty x || x == e) s
      → is_some (node n) ≡ true
      → contains e s.essids ≡ true
      → s.num_nodes e + 1 < 2 ^ 32
      → (s' : Networks) × (move_essid lists node n e s ≡ update_essid_split_status node e s')
        × IsNetworks node no_empty s'
        × (s'.node_essid n ≡ some e)
        × (s'.essid e ≡ s.essid e)
        × (contains e s'.essids ≡ true)
        × ((m : ℕ) → (m == n) ≡ false → s'.node_essid m ≡ s.node_essid m)
  moved s n e valid alive listed room = elim (Bool-cases (is_elsewhere (s.node_essid n) e)) [
    | inl away ↦
        let l = essids_remove_node-Leaves laws s n valid in
        let (still, name, number) = l.stay e (elsewhere_apart (s.node_essid n) e away) in
        let here = ap (λ o. is_elsewhere o e) l.free in
        let (s', runs, j) =
          joined l.left n e l.valid alive (still ∙ listed) (ground (arith, number)) here in
        (
          s',
          rw (away, l.runs, runs) refl,
          j.valid,
          j.member,
          ap (λ f. f e) j.essid ∙ name,
          ap (contains e) j.essids ∙ still ∙ listed,
          λ m other. j.others m other ∙ l.others m other,
        )
    | inr here ↦
        let (s', runs, j) = joined s n e valid alive listed room here in
        (
          s',
          rw (here, runs) refl,
          j.valid,
          j.member,
          ap (λ f. f e) j.essid,
          ap (contains e) j.essids ∙ listed,
          j.others,
        )
  ]

  -- A packet that is not ignored.
  pub essids_update_records :
      (s : Networks) (p : Packet) (n : ℕ)
      → IsNetworks node no_empty s
      → is_some (node n) ≡ true
      → ((x : ℕ) → s.num_nodes x + 1 < 2 ^ 32)
      → is_ignored p ≡ false
      → ends_within 34 p.wlan_essid ≡ true
      → (e : ℕ) × (s' : Networks) × (essids_update lists node p n s ≡ some s')
        × Recorded node p.wlan_essid n e s s'
  unfolding essids_update
  essids_update_records s p n valid alive room shown ends =
      let (found, finds, r) = ready_lem laws p.wlan_essid s valid room ends in
      let (s', runs, valid', member, name, listed, others) =
        moved r.ready n r.e r.valid alive r.listed (r.room r.e) in
      let checked = update_essid_split_status_lem node no_empty s' r.e valid' listed in
      let (own, at, same) = r.named in
      let split = not (all_same (bssids node (s'.essid_nodes r.e))) in
      (
        r.e,
        record s' { split = update s'.split r.e split },
        rw (shown, finds, r.runs, runs) checked,
        record {
          valid = keep_networks node node no_empty s' (update s'.split r.e split) valid' (λ m a. a);
          member = member;
          place = r.place;
          named = (own, name ∙ at, sym (strncmp_eq-same_bytes 34 own p.wlan_essid) ∙ same);
          status = update_self s'.split r.e split;
          others = λ m other. others m other ∙ ap (λ f. f m) r.same;
        },
      )

  -- Where the networks are in order and none has 2^32 - 1 nodes, a beacon or probe response with a
  -- right FCS and a name that is not empty and ends within its array puts its allocated node into
  -- the first network that has that name, or into a new one with it if none has; an old network is
  -- left and freed with its last node, the split status is that of the nodes, other nodes keep
  -- their networks, and the networks stay in order.
  pub essids_update-Recorded :
      (s : Networks) (p : Packet) (n : ℕ)
      → IsNetworks node no_empty s
      → is_some (node n) ≡ true
      → ((x : ℕ) → s.num_nodes x + 1 < 2 ^ 32)
      → test_bit p.phy_flags 1 ≡ false
      → (p.wlan_type ≡ 0x80) ⊎ (p.wlan_type ≡ 0x50)
      → 0 < length (text 34 p.wlan_essid)
      → ends_within 34 p.wlan_essid ≡ true
      → (e : ℕ) × (s' : Networks) × (essids_update lists node p n s ≡ some s')
        × Recorded node p.wlan_essid n e s s'
  essids_update-Recorded s p n valid alive room fcs type named ends =
      essids_update_records s p n valid alive room (shown_lem p fcs type named) ends
