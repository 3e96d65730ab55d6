-- ===== src/Nl80211/Requests/Safe.antt =====
-- Messages of the requests of linux/ifctrl-nl80211.c: each is freed once, on every path.
use libuwifi.Base.{
  ℕ, ◌≡◌, refl, uint32_of, sym, subst, ℤ, Bool, true, false, Option, none, some, List, [], ◌∷◌,
}
use libuwifi.Base.Run.{Run, Returns, returns, Returns-bind}
use libuwifi.Wlan.Types.{ChanWidth}
use libuwifi.Nl80211.Settings.{IfInfo, get_interface_info_cb}
use libuwifi.Nl80211.Receive.{
  Command, new_interface, del_interface, set_interface, get_interface, connect, disconnect,
  set_channel, Attr, wiphy, ifname, iftype, Libnl, fold_cb,
}
use libuwifi.Nl80211.Receive.Delivered.{replies}
use libuwifi.Nl80211.Netlink.{Link, Msg}
use libuwifi.Nl80211.Netlink.Freed.{
  Holds, Stays, Reliable, Handles, give_up-Returns, put_attrs-Stays, msg_prepare-Holds,
  send_recv-Frees,
}
use libuwifi.Nl80211.Requests.{
  Parsers, connect_attrs, set_freq_attrs, iftype_station, iftype_monitor, set_dump, send_or_free,
  fill_and_send, query, request, iwadd_sta, iwadd_monitor, iwdel, iwset_monitor, iw_disconnect,
  iw_connect, iwset_freq, iwget_interface_info,
}
use libuwifi.Sys.Process.{Name}

-- The run meets no fault, and the same messages are allocated as before.
abbrev pub Frees : {W A : Type 0} → Run (Link W) A → Link W → Type 0
Frees m l = Returns (λ _ l'. l'.msgs ≡ l.msgs) (m l)

-- A callback that meets no fault.
pub fold_cb-total :
    {R S : Type 0} (cb : R → S → S) (rs : List R) (s : S)
    → (t : S) × (fold_cb (λ r x. some (cb r x)) rs s ≡ some t)
fold_cb-total cb [] s = (s, refl)
fold_cb-total cb (r ∷ rs) s = fold_cb-total cb rs (cb r s)

module _ {W R : Type 0} (nl : Libnl W R) {fuel : ℕ} (reliable : Reliable nl fuel) where
  module _ {S : Type 0} (cb : R → S → Option S) (s : S) (handles : Handles nl fuel cb s) where
    send_or_free-Frees :
        (ptr : ℕ) (o : Option Msg) (l : Link W) (old : List ℕ)
        → Stays (ptr ∷ old) ptr o l
        → Returns (λ _ l'. l'.msgs ≡ old) (send_or_free nl fuel cb s ptr o l)
    send_or_free-Frees ptr none l old e = give_up-Returns nl ptr (false, s) l old e refl
    send_or_free-Frees ptr (some m) l old (same, e) =
        send_recv-Frees nl reliable cb s handles m l old
          (subst (λ p. l.msgs ≡ p ∷ old) (sym same) e)

    fill_and_send-Frees :
        (dump : Bool) (attrs : List Attr) (o : Option Msg) (l : Link W) (old : List ℕ)
        → Holds old o l
        → Returns (λ _ l'. l'.msgs ≡ old) (fill_and_send nl fuel cb s dump attrs o l)
    fill_and_send-Frees dump attrs none l old e = returns e
    fill_and_send-Frees false attrs (some m) l old e =
        Returns-bind (put_attrs-Stays nl attrs m l) (λ o l' stays.
          send_or_free-Frees m.ptr o l' old (subst (λ x. Stays x m.ptr o l') e stays))
    fill_and_send-Frees true attrs (some m) l old e =
        Returns-bind (put_attrs-Stays nl attrs (set_dump m) l) (λ o l' stays.
          send_or_free-Frees m.ptr o l' old (subst (λ x. Stays x m.ptr o l') e stays))

    -- A request with a callback.
    pub query-Frees :
        (cmd : Command) (interface : Option Name) (dump : Bool) (attrs : List Attr) (l : Link W)
        → Frees (query nl fuel cmd interface dump attrs cb s) l
    query-Frees cmd interface dump attrs l =
        Returns-bind (msg_prepare-Holds nl cmd interface l)
          (λ o l' holds. fill_and_send-Frees dump attrs o l' l.msgs holds)

  pub request-Frees :
      (cmd : Command) (interface : Option Name) (attrs : List Attr) (l : Link W)
      → Frees (request nl fuel cmd interface attrs) l
  request-Frees cmd interface attrs l =
      Returns-bind
        (query-Frees (λ r s. some s) tt (λ w. fold_cb-total (λ r s. s) (replies nl fuel w).0 tt) cmd
          interface false attrs l)
        (λ r l' e. returns e)

  -- The requests whose answers cannot be at fault.
  pub requests-Frees :
      (parsers : Parsers R) (name other : Name) (phy freq : ℤ) (essid : List ℕ)
      (bssid : Option (List ℕ)) (chan : ℕ) (width : ChanWidth) (center : ℕ) (intf : IfInfo)
      (l : Link W)
      → Frees (iwadd_sta nl fuel phy name) l
        × Frees (iwadd_monitor nl fuel name other) l
        × Frees (iwdel nl fuel name) l
        × Frees (iwset_monitor nl fuel name) l
        × Frees (iw_disconnect nl fuel name) l
        × Frees (iw_connect nl fuel name essid freq bssid) l
        × Frees (iwset_freq nl fuel name chan width center) l
        × Frees (iwget_interface_info nl fuel parsers name intf) l
  unfolding iwadd_sta iwadd_monitor iwdel iwset_monitor iw_disconnect iw_connect iwset_freq
      iwget_interface_info
  requests-Frees parsers name other phy freq essid bssid chan width center intf l = (
    request-Frees new_interface none
        (wiphy (uint32_of phy) ∷ ifname name ∷ iftype iftype_station ∷ []) l,
    request-Frees new_interface (some name) (ifname other ∷ iftype iftype_monitor ∷ []) l,
    request-Frees del_interface (some name) [] l,
    request-Frees set_interface (some name) (iftype iftype_monitor ∷ []) l,
    request-Frees disconnect (some name) [] l,
    request-Frees connect (some name) (connect_attrs essid freq bssid) l,
    request-Frees set_channel (some name) (set_freq_attrs chan width center) l,
    query-Frees (λ r i. some (get_interface_info_cb (parsers.interface_attrs r) i)) intf
        (λ w.
          fold_cb-total (λ r. get_interface_info_cb (parsers.interface_attrs r))
            (replies nl fuel w).0 intf)
        get_interface (some name) false [] l,
  )
