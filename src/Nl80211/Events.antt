-- ===== src/Nl80211/Events.antt =====
-- nl80211_event_cb of linux/ifctrl-nl80211.c: what the user's callback is told of an event.
use libuwifi.Base.{ℕ, ℤ, pos, minus_one, int32, Option, none, some, List, ◌>>=◌}

-- The commands NL80211_CMD_* that the switch names, and all others.
pub data Command : Type 0 where
  new_wiphy trigger_scan new_scan_results scan_aborted start_sched_scan : Command
  sched_scan_stopped sched_scan_results reg_change reg_beacon_hint : Command
  new_station del_station join_ibss : Command
  authenticate associate deauthenticate disassociate : Command
  unprot_deauthenticate unprot_disassociate : Command
  connect roam disconnect : Command
  remain_on_channel cancel_remain_on_channel notify_cqm michael_mic_failure : Command
  frame_tx_status pmksa_candidate set_wowlan probe_client vendor radar_detect del_wiphy : Command
  unlisted : ℕ → Command

-- The attributes NL80211_ATTR_IFINDEX, _WIPHY, _MAC, _STATUS_CODE and _REASON_CODE.
pub record EventMsg : Type 0 where
  pub cmd : Command
  pub ifindex : Option ℕ
  pub wiphy : Option ℕ
  pub mac : Option (List ℕ)
  pub status_code : Option ℕ
  pub reason_code : Option ℕ

-- The arguments of the user's callback; `mac` is `none` for NULL.
pub record Report : Type 0 where
  pub evt : Command
  pub phy : ℤ
  pub ifindex : ℤ
  pub mac : Option (List ℕ)
  pub x : ℤ

-- An u32 attribute in an int that is -1 before.
abbrev pub u32_or : Option ℕ → ℤ
u32_or none = minus_one
u32_or (some n) = int32 n

-- An u16 attribute.
abbrev pub u16_or : Option ℕ → ℤ
u16_or none = minus_one
u16_or (some n) = pos n

-- The address whose attribute the code does not test. Without it nla_data makes an address from NULL, and
-- the callback would be given that; this is a fault.
abbrev pub mac_data : Option (List ℕ) → Option (Option (List ℕ))
mac_data none = none
mac_data (some m) = some (some m)

-- The address and the number `x` behind the switch.
abbrev pub switch : Command → EventMsg → Option (Option (List ℕ) × ℤ)
switch new_station tb = mac_data tb.mac >>= λ m. some (m, minus_one)
switch del_station tb = mac_data tb.mac >>= λ m. some (m, minus_one)
switch join_ibss tb = mac_data tb.mac >>= λ m. some (m, minus_one)
switch connect tb = some (tb.mac, u16_or tb.status_code)
switch roam tb = some (tb.mac, minus_one)
switch disconnect tb = some (none, u16_or tb.reason_code)
switch _ tb = some (none, minus_one)

-- nl80211_event_cb: the one call of the user's callback.
unfoldable pub event_cb : EventMsg → Option Report
event_cb tb = switch tb.cmd tb >>= λ r. some (record {
  evt = tb.cmd;
  phy = u32_or tb.wiphy;
  ifindex = u32_or tb.ifindex;
  mac = r.0;
  x = r.1;
})
