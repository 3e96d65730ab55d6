-- ===== src/Nl80211/Requests/Performed.antt =====
-- What the requests of linux/ifctrl-nl80211.c do where libnl does not fail: the whole sequence of its calls.
use Prim.{Unit}
use libuwifi.Base.{
  ℕ, ◌<◌, ◌≡◌, ℤ, pos, uint32_of, ltb_ℤ, leb_ℤ, ◌==◌, ◌==ℤ◌, Bool, true, false, not, Option, none,
  some, List, [], ◌∷◌, ◌++◌, if◌then◌else◌,
}
use libuwifi.Wlan.Types.{ChanWidth, unspec, noht20, w20, w40, w80, w160, w8080}
use libuwifi.Nl80211.Settings.{NlWidth, nl_20_noht, nl_20, nl_40, nl_80, nl_160, nl_80p80}
use libuwifi.Nl80211.Receive.{Command, Attr, ifindex, wiphy_freq, center_freq1, mac, Message, Libnl}
use libuwifi.Nl80211.Receive.Delivered.{replies}
use libuwifi.Nl80211.Netlink.{Link, Msg, add_attr}
use libuwifi.Nl80211.Netlink.Freed.{Reliable}
use libuwifi.Nl80211.Requests.Prepared.{Observed, message, index_attrs}
use libuwifi.Sys.Process.{Name}

-- The calls that build and send a message do not fail.
pub record Works {W R : Type 0} (nl : Libnl W R) : Type 0 where
  pub allocates : (w : W) → (nl.msg_alloc w).0 ≡ true
  pub puts : (cmd : Command) (w : W) → (nl.genlmsg_put cmd w).0 ≡ true
  pub fits : (attrs : List Attr) (a : Attr) (w : W) → (nl.nla_put attrs a w).0 ≡ true
  pub sends : (m : Message) (w : W) → leb_ℤ (nl.send_auto_complete m w).0 (pos 0) ≡ false

-- The attributes of a connection: the frequency and the BSSID where they are given.
abbrev pub freq_attrs : ℤ → List Attr
freq_attrs freq = if freq ==ℤ pos 0 then [] else wiphy_freq (uint32_of freq) ∷ []

abbrev pub bssid_attrs : Option (List ℕ) → List Attr
bssid_attrs none = []
bssid_attrs (some bssid) = mac bssid ∷ []

-- The width that is sent: 20 MHz without HT for one that is not known.
abbrev pub sent_width : ChanWidth → NlWidth
sent_width unspec = nl_20_noht
sent_width noht20 = nl_20_noht
sent_width w20 = nl_20
sent_width w40 = nl_40
sent_width w80 = nl_80
sent_width w160 = nl_160
sent_width w8080 = nl_80p80

-- The centre frequency, where it is given.
abbrev pub center_attrs : ℕ → List Attr
center_attrs center = if center == 0 then [] else center_freq1 center ∷ []

module _ {W R : Type 0} (nl : Libnl W R) (seen : Observed nl) where
  -- The world behind NLA_PUT for attributes that follow others.
  abbrev pub put_all : List Attr → List Attr → W → W
  put_all before [] w = w
  put_all before (a ∷ rest) w = put_all (before ++ a ∷ []) rest (nl.nla_put before a w).1

  abbrev pub put_interface : Option Name → W → W
  put_interface none w = w
  put_interface (some name) w =
      (nl.nla_put [] (ifindex (seen.index name)) (nl.nametoindex name w).1).1

  -- The world in which the message has been sent: it was allocated, got its header and its attributes, and the
  -- callback structure was allocated.
  abbrev pub sent_world : Command → Option Name → List Attr → W → W
  sent_world cmd interface attrs w =
      let header = put_interface interface (nl.genlmsg_put cmd (nl.msg_alloc w).1).1 in
      let filled = put_all (index_attrs nl seen interface) attrs header in
      (nl.send_auto_complete (message nl seen cmd interface false attrs) (nl.cb_alloc filled).1).1

  abbrev pub Known : Option Name → Type 0
  Known none = Unit {0}
  Known (some name) = 0 < seen.index name

  -- The attributes one behind the other.
  abbrev add_all : Msg → List Attr → Msg
  add_all m [] = m
  add_all m (a ∷ rest) = add_all (add_attr nl m a) rest

  module _ {fuel : ℕ} (reliable : Reliable nl fuel) (works : Works nl) where
    -- The message is sent in the world behind the calls that build it, and it is the one message that is sent. The
    -- result is that of the answers that come then, which are waited for, and the message is freed.
    pub record Performs (cmd : Command) (interface : Option Name) (attrs : List Attr) (l : Link W)
        (ok : Bool) (l' : Link W) : Type 0 where
      pub result :
          ok ≡ not (ltb_ℤ (replies nl fuel (sent_world cmd interface attrs l.world)).1 (pos 0))
      pub end : l'.world ≡ (replies nl fuel (sent_world cmd interface attrs l.world)).2
      pub sent :
          seen.log l'.world ≡ seen.log l.world ++ message nl seen cmd interface false attrs ∷ []
      pub freed : l'.msgs ≡ l.msgs
      pub closed : l'.cbs ≡ l.cbs
