-- ===== src/Examples/Netlink.antt =====
-- Requests to nl80211 over a library that answers every message, on concrete inputs.
use libuwifi.Base.{
  ℕ, zero, suc, ◌≡◌, refl, inl, inr, Bool, true, Option, none, some, List, [], ◌∷◌, ◌++◌, map, pos,
  negsuc, arith,
}
use libuwifi.Nl80211.Events.{EventMsg, event_cb, new_station}
use libuwifi.Nl80211.Events.{disconnect as disconnected}
use libuwifi.Nl80211.Receive.{
  Command, disconnect, Attr, wiphy, mac, Message, Event, valid, ack, Libnl, recv_loop,
}
use libuwifi.Nl80211.Receive.Delivered.{replies, recv_loop-replies}
use libuwifi.Nl80211.Netlink.{Link}
use libuwifi.Nl80211.Netlink.Freed.{Reliable}
use libuwifi.Nl80211.Requests.Prepared.{Observed}
use libuwifi.Nl80211.Requests.Performed.{Works, Performs}
use libuwifi.Nl80211.Groups.{group_id_cb, get_multicast_id}
use libuwifi.Nl80211.Groups.Lookup.{group_attrs, lookup_or, IsText, group_id_cb-lookup_or}
use libuwifi.Nl80211.Groups.Freed.{get_multicast_id-double_free}
use libuwifi.Sys.Process.{Name}

-- The first call brings two messages, the second one more and the acknowledgement.
abbrev coming : ℕ → List (Event ℕ)
coming zero = valid 4 ∷ valid 5 ∷ []
coming (suc n) = valid 6 ∷ ack ∷ []

abbrev two_calls : Libnl ℕ ℕ
two_calls = record {
  msg_alloc = λ w. (true, w);
  genlmsg_put = λ cmd w. (true, w);
  nametoindex = λ name w. (4, w);
  nla_put = λ attrs a w. (true, w);
  cb_alloc = λ w. (true, w);
  ctrl_resolve = λ name w. (pos 27, w);
  send_auto_complete = λ m w. (pos 1, w);
  recvmsgs = λ w. (coming w, suc w);
  syserr2nlerr = λ e. 1;
}

-- The callback keeps what it gets, the last first.
recv_loop-replies_example :
    recv_loop two_calls 2 (λ r s. some (r ∷ s)) (pos 1) [] 0
    ≡ some ((replies two_calls 2 0).1, 6 ∷ 5 ∷ 4 ∷ [], (replies two_calls 2 0).2)
recv_loop-replies_example =
    recv_loop-replies two_calls 2 (λ r s. some (r ∷ s)) [] (6 ∷ 5 ∷ 4 ∷ []) 0 (inr (refl, inl refl))
      refl

-- A library that keeps what is sent, and acknowledges it at once.
abbrev logging : Libnl (List Message) ℕ
logging = record {
  msg_alloc = λ w. (true, w);
  genlmsg_put = λ cmd w. (true, w);
  nametoindex = λ name w. (4, w);
  nla_put = λ attrs a w. (true, w);
  cb_alloc = λ w. (true, w);
  ctrl_resolve = λ name w. (pos 27, w);
  send_auto_complete = λ m w. (pos 1, w ++ m ∷ []);
  recvmsgs = λ w. (ack ∷ [], w);
  syserr2nlerr = λ e. 1;
}

abbrev logging_view : Observed logging
logging_view = record {
  log = λ w. w;
  index = λ name. 4;
  msg_alloc_log = λ w. refl;
  genlmsg_put_log = λ cmd w. refl;
  nametoindex_log = λ name w. refl;
  nametoindex_index = λ name w. refl;
  nla_put_log = λ attrs a w. refl;
  cb_alloc_log = λ w. refl;
  recvmsgs_log = λ w. refl;
  send_failed = λ m w e. absurd (cc);
  send_done = λ m w e. refl;
}

logging-Reliable : Reliable logging 1
logging-Reliable = record { allocates = λ w. refl; answers = λ w. inl refl }

abbrev no_messages : Link (List Message)
no_messages = record { world = []; msgs = []; next = 0; cbs = 0 }

-- "wlan0" and "mon0"
abbrev wlan : Name
wlan = 119 ∷ 108 ∷ 97 ∷ 110 ∷ 48 ∷ []

abbrev mon : Name
mon = 109 ∷ 111 ∷ 110 ∷ 48 ∷ []

logging-Works : Works logging
logging-Works = record {
  allocates = λ w. refl;
  puts = λ cmd w. refl;
  fits = λ attrs a w. refl;
  sends = λ m w. refl;
}

abbrev Performed : Command → Option Name → List Attr → Bool → Link (List Message) → Type 0
Performed cmd interface attrs =
    Performs logging logging_view logging-Reliable logging-Works cmd interface attrs no_messages

-- "scan" and "mlme"
abbrev scan : Name
scan = 115 ∷ 99 ∷ 97 ∷ 110 ∷ []

abbrev mlme : Name
mlme = 109 ∷ 108 ∷ 109 ∷ 101 ∷ []

scan-IsText : IsText scan
scan-IsText = (omega arith, (omega arith, (omega arith, (omega arith, tt))))

mlme-IsText : IsText mlme
mlme-IsText = (omega arith, (omega arith, (omega arith, (omega arith, tt))))

group_id_cb-lookup_or_example :
    group_id_cb mlme (some (map group_attrs ((scan, 3) ∷ (mlme, 5) ∷ []))) (negsuc 1)
    ≡ lookup_or (negsuc 1) mlme ((scan, 3) ∷ (mlme, 5) ∷ [])
group_id_cb-lookup_or_example =
    group_id_cb-lookup_or mlme ((scan, 3) ∷ (mlme, 5) ∷ []) (negsuc 1) mlme-IsText
      (scan-IsText, (mlme-IsText, tt))

-- Nothing can be sent.
abbrev unsendable : Libnl ℕ ℕ
unsendable = record two_calls { send_auto_complete = λ m w. (negsuc 3, w) }

abbrev no_msgs : Link ℕ
no_msgs = record { world = 0; msgs = []; next = 0; cbs = 0 }

get_multicast_id-double_free_example :
    get_multicast_id unsendable 2 (λ r. none) scan mlme no_msgs ≡ none
get_multicast_id-double_free_example =
    get_multicast_id-double_free unsendable 2 (λ r. none) scan mlme no_msgs refl (λ w. refl)
      (λ attrs a w. refl) (λ w. refl) (λ m w. refl)

-- The event of a station that has joined.
abbrev joined : EventMsg
joined = record {
  cmd = new_station;
  ifindex = some 4;
  wiphy = some 0;
  mac = some (2 ∷ 0 ∷ 0 ∷ 0 ∷ 0 ∷ 2 ∷ []);
  status_code = none;
  reason_code = none;
}

event_cb-joined :
    event_cb joined
    ≡ some (record {
      evt = new_station;
      phy = pos 0;
      ifindex = pos 4;
      mac = some (2 ∷ 0 ∷ 0 ∷ 0 ∷ 0 ∷ 2 ∷ []);
      x = negsuc 0;
    })
unfolding event_cb
event_cb-joined = refl

event_cb_without_mac : event_cb (record joined { mac = none }) ≡ none
unfolding event_cb
event_cb_without_mac = refl

event_cb-disconnected :
    event_cb (record joined { cmd = disconnected; mac = none; reason_code = some 3 })
    ≡ some (record { evt = disconnected; phy = pos 0; ifindex = pos 4; mac = none; x = pos 3 })
unfolding event_cb
event_cb-disconnected = refl
