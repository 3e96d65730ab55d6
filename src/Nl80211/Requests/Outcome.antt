-- ===== src/Nl80211/Requests/Outcome.antt =====
-- The requests of linux/ifctrl-nl80211.c: what each sends, and that its message is freed.
use libuwifi.Base.{ℕ, ◌≡◌, ℤ, uint32_of, Bool, false, Option, none, some, List, [], ◌∷◌, ◌++◌, ◌⊎◌}
use libuwifi.Base.Run.{pure, Returns, Yields-bind, Returns-and}
use libuwifi.Wlan.Types.{ChanWidth}
use libuwifi.Nl80211.Receive.{
  Command, new_interface, del_interface, set_interface, connect, disconnect, set_channel, Attr,
  wiphy, ifname, iftype, Libnl,
}
use libuwifi.Nl80211.Receive.Delivered.{replies}
use libuwifi.Nl80211.Netlink.{Link}
use libuwifi.Nl80211.Netlink.Freed.{Reliable}
use libuwifi.Nl80211.Requests.{
  connect_attrs, set_freq_attrs, query, request, iwadd_sta, iwadd_monitor, iwdel, iwset_monitor,
  iw_disconnect, iw_connect, iwset_freq,
}
use libuwifi.Nl80211.Requests.Prepared.{Observed, message}
use libuwifi.Nl80211.Requests.Safe.{fold_cb-total, request-Frees}
use libuwifi.Nl80211.Requests.Sent.{IsAnswered, Sends, query-Sends}
use libuwifi.Sys.Process.{Name}

module _ {W R : Type 0} (nl : Libnl W R) (seen : Observed nl) {fuel : ℕ}
    (reliable : Reliable nl fuel) where
  -- The message is the one of this request, and it is sent and answered or the result is false; no message
  -- stays allocated.
  abbrev pub Asks : Command → Option Name → List Attr → Link W → Bool → Link W → Type 0
  Asks cmd interface attrs l ok l' =
      (l'.msgs ≡ l.msgs)
      × ((seen.log l'.world ≡ seen.log l.world) × (ok ≡ false)
          ⊎ IsAnswered nl seen fuel
              (seen.log l.world ++ message nl seen cmd interface false attrs ∷ []) ok l')

  request-Asks :
      (cmd : Command) (interface : Option Name) (attrs : List Attr) (l : Link W)
      → Returns (Asks cmd interface attrs l) (request nl fuel cmd interface attrs l)
  request-Asks cmd interface attrs l =
      let m = message nl seen cmd interface false attrs in
      let old = seen.log l.world in
      let cb = λ (r : R) (s : Unit {0}). some s in
      let handles = λ (w : W). fold_cb-total (λ r s. s) (replies nl fuel w).0 tt in
      let result = λ (ok : Bool) (l' : Link W).
        (seen.log l'.world ≡ old) × (ok ≡ false) ⊎ IsAnswered nl seen fuel (old ++ m ∷ []) ok l' in
      Returns-and result (request-Frees nl reliable cmd interface attrs l) (
        Yields-bind (Sends nl seen fuel old m) result
          (query nl fuel cmd interface false attrs cb tt l) (λ r. pure r.0)
          (query-Sends nl seen reliable cb tt handles cmd interface false attrs l)
          (λ r l' sends. sends))

  -- Over a library as documented, whose indexes of interfaces do not change, where callback
  -- structures can be allocated and every wait is answered, each of the seven requests without an
  -- answer returns; nothing stays allocated of its message, and either nothing is sent and the
  -- result is false, or the message with exactly its command, interface and attributes is sent and
  -- the result is true exactly where the last answer that is waited for is no error.
  pub requests-Ask :
      (name other : Name) (phy freq : ℤ) (essid : List ℕ) (bssid : Option (List ℕ)) (chan : ℕ)
      (width : ChanWidth) (center : ℕ) (l : Link W)
      → Returns
          (Asks new_interface none (wiphy (uint32_of phy) ∷ ifname name ∷ iftype 2 ∷ []) l)
          (iwadd_sta nl fuel phy name l)
        × Returns
            (Asks new_interface (some name) (ifname other ∷ iftype 6 ∷ []) l)
            (iwadd_monitor nl fuel name other l)
        × Returns (Asks del_interface (some name) [] l) (iwdel nl fuel name l)
        × Returns (Asks set_interface (some name) (iftype 6 ∷ []) l) (iwset_monitor nl fuel name l)
        × Returns (Asks disconnect (some name) [] l) (iw_disconnect nl fuel name l)
        × Returns
            (Asks connect (some name) (connect_attrs essid freq bssid) l)
            (iw_connect nl fuel name essid freq bssid l)
        × Returns
            (Asks set_channel (some name) (set_freq_attrs chan width center) l)
            (iwset_freq nl fuel name chan width center l)
  unfolding iwadd_sta iwadd_monitor iwdel iwset_monitor iw_disconnect iw_connect iwset_freq
  requests-Ask name other phy freq essid bssid chan width center l = (
    request-Asks new_interface none (wiphy (uint32_of phy) ∷ ifname name ∷ iftype 2 ∷ []) l,
    request-Asks new_interface (some name) (ifname other ∷ iftype 6 ∷ []) l,
    request-Asks del_interface (some name) [] l,
    request-Asks set_interface (some name) (iftype 6 ∷ []) l,
    request-Asks disconnect (some name) [] l,
    request-Asks connect (some name) (connect_attrs essid freq bssid) l,
    request-Asks set_channel (some name) (set_freq_attrs chan width center) l,
  )
