-- ===== src/Nl80211/Groups.antt =====
-- nl_family_group_id_cb and nl_get_multicast_id of linux/netl80211.c: the number of a multicast group.
pub mod Lookup
pub mod Freed
use libuwifi.Base.{
  ℕ, ℤ, pos, negsuc, minus_one, int32, Bool, true, false, ◌&&◌, ◌||◌, Option, none, some, List, [],
  ◌∷◌, ◌==◌, if◌then◌else◌,
}
use libuwifi.Base.Run.{Run, pure, ◌>>=◌, ◌>>◌}
use libuwifi.Nl80211.Receive.{get_family, family_name, Libnl}
use libuwifi.Nl80211.Netlink.{
  Link, Msg, ask_nl, allocated, new_message, put_attrs, give_up, send_recv,
}
use libuwifi.Sys.Process.{Name}

-- The attributes CTRL_ATTR_MCAST_GRP_NAME, with all its bytes, and CTRL_ATTR_MCAST_GRP_ID of a group.
pub record GroupAttrs : Type 0 where
  pub grp_name : Option (List ℕ)
  pub grp_id : Option ℕ

-- strncmp of all the bytes of an attribute with a string, which ends where its bytes do: no difference.
abbrev pub strncmp_same : List ℕ → Name → Bool
strncmp_same [] group = true
strncmp_same (a ∷ attr) [] = a == 0
strncmp_same (a ∷ attr) (b ∷ group) = a == b && (a == 0 || strncmp_same attr group)

-- One round of the loop of nl_family_group_id_cb: the number, or what the other rounds give.
abbrev pub group_step : Name → Option (List ℕ) → Option ℕ → ℤ → ℤ
group_step group none id rest = rest
group_step group (some name) none rest = rest
group_step group (some name) (some id) rest = if strncmp_same name group then int32 id else rest

abbrev pub group_loop : Name → List GroupAttrs → ℤ → ℤ
group_loop group [] id = id
group_loop group (g ∷ gs) id = group_step group g.grp_name g.grp_id (group_loop group gs id)

-- nl_family_group_id_cb, for the attributes of the groups, if CTRL_ATTR_MCAST_GROUPS is there.
unfoldable pub group_id_cb : Name → Option (List GroupAttrs) → ℤ → ℤ
group_id_cb group none id = id
group_id_cb group (some gs) id = group_loop group gs id

-- -ENOENT and -ENOMEM
abbrev pub no_entry : ℤ
no_entry = negsuc 1

abbrev pub no_memory : ℤ
no_memory = negsuc 11

-- "nlctrl"
abbrev pub nlctrl : Name
nlctrl = b'n' ∷ b'l' ∷ b'c' ∷ b't' ∷ b'r' ∷ b'l' ∷ []

module _ {W R : Type 0} (nl : Libnl W R) (fuel : ℕ) (groups : R → Option (List GroupAttrs)) where
  -- The result of the request. Behind a failure the message is freed at nla_put_failure.
  abbrev pub group_received : ℕ → Bool × ℤ → Run (Link W) ℤ
  group_received ptr (ok, id) = if ok then pure id else give_up nl ptr minus_one

  abbrev pub group_request : Name → ℕ → Option Msg → Run (Link W) ℤ
  group_request group ptr none = give_up nl ptr minus_one
  group_request group ptr (some m) =
      send_recv nl fuel (λ r id. some (group_id_cb group (groups r) id)) no_entry m
      >>= group_received ptr

  abbrev pub family_request : Name → Name → Option ℕ → Run (Link W) ℤ
  family_request family group none = pure no_memory
  family_request family group (some ptr) = ask_nl nl (nl.ctrl_resolve nlctrl) >>= λ ctrlid.
      ask_nl nl (nl.genlmsg_put get_family) >>= λ ok.
      put_attrs nl (family_name family ∷ []) (new_message nl get_family ptr)
      >>= group_request group ptr

  -- nl_get_multicast_id
  unfoldable pub get_multicast_id : Name → Name → Run (Link W) ℤ
  get_multicast_id family group =
      ask_nl nl nl.msg_alloc >>= allocated nl >>= family_request family group
