-- ===== src/Nl80211/Groups/Freed.antt =====
-- nl_get_multicast_id of linux/netl80211.c frees its message twice where its request fails.
use libuwifi.Base.{ℕ, ◌≡◌, refl, pos, leb_ℤ, true, false, Option, none, List}
use libuwifi.Nl80211.Receive.{Attr, Message, Libnl}
use libuwifi.Nl80211.Netlink.{Link, send_recv}
use libuwifi.Nl80211.Groups.{GroupAttrs, get_multicast_id}
use libuwifi.Store.{contains}
use libuwifi.Sys.Process.{Name}
use libuwifi.Sys.Process.Rules.{same_eq}

module _ {W R : Type 0} (nl : Libnl W R) (fuel : ℕ) (groups : R → Option (List GroupAttrs)) where
  -- Where a new message and its callback structure are allocated and filled, and no message can be
  -- sent, nl_get_multicast_id frees its message twice.
  pub get_multicast_id-double_free :
      (family group : Name) (l : Link W)
      → contains l.next l.msgs ≡ false
      → ((w : W) → (nl.msg_alloc w).0 ≡ true)
      → ((attrs : List Attr) (a : Attr) (w : W) → (nl.nla_put attrs a w).0 ≡ true)
      → ((w : W) → (nl.cb_alloc w).0 ≡ true)
      → ((m : Message) (w : W) → leb_ℤ (nl.send_auto_complete m w).0 (pos 0) ≡ true)
      → get_multicast_id nl fuel groups family group l ≡ none
  unfolding get_multicast_id send_recv
  get_multicast_id-double_free family group l fresh allocs room cbs fails =
      rw (allocs, room, cbs, same_eq l.next, same_eq l.next, fails, fresh) refl
