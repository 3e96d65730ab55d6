-- ===== src/Nl80211/Settings.antt =====
-- ifctrl_iwset_freq and nl80211_get_interface_info_cb of linux/ifctrl-nl80211.c: a channel as attributes.
use libuwifi.Base.{ℕ, ◌≡◌, ◌≢◌, refl, Option, none, some, ◌==◌, if◌then◌else◌, Bool-cases, inl, inr}
use libuwifi.Wlan.Types.{ChanWidth, unspec, noht20, w20, w40, w80, w160, w8080}
use libuwifi.Channel.Types.{ChanSpec}

-- NL80211_CHAN_WIDTH_20_NOHT and so on, and all other values.
pub data NlWidth : Type 0 where
  nl_20_noht nl_20 nl_40 nl_80 nl_160 nl_80p80 nl_other : NlWidth

-- The attributes NL80211_ATTR_WIPHY_FREQ, _CHANNEL_WIDTH, _CENTER_FREQ1, _IFTYPE and _WIPHY.
pub record Attrs : Type 0 where
  pub wiphy_freq : Option ℕ
  pub channel_width : Option NlWidth
  pub center_freq1 : Option ℕ
  pub iftype : Option ℕ
  pub wiphy : Option ℕ

-- The switch of ifctrl_iwset_freq.
abbrev pub nl_width : ChanWidth → NlWidth
nl_width unspec = nl_20_noht
nl_width noht20 = nl_20_noht
nl_width w20 = nl_20
nl_width w40 = nl_40
nl_width w80 = nl_80
nl_width w160 = nl_160
nl_width w8080 = nl_80p80

-- The attributes that ifctrl_iwset_freq puts into its message.
unfoldable pub iwset_freq_attrs : ℕ → ChanWidth → ℕ → Attrs
iwset_freq_attrs freq width center1 = record {
  wiphy_freq = some freq;
  channel_width = some (nl_width width);
  center_freq1 = if center1 == 0 then none else some center1;
  iftype = none;
  wiphy = none;
}

-- The fields `channel`, `if_type` and `if_phy` of `struct uwifi_interface`.
pub record IfInfo : Type 0 where
  pub channel : ChanSpec
  pub if_type : ℕ
  pub if_phy : ℕ

-- The switch of nl80211_get_interface_info_cb.
abbrev pub chan_width : NlWidth → ChanWidth
chan_width nl_20_noht = noht20
chan_width nl_20 = w20
chan_width nl_40 = w40
chan_width nl_80 = w80
chan_width nl_160 = w160
chan_width nl_80p80 = w8080
chan_width nl_other = unspec

-- The value of an attribute, or what was there before.
abbrev pub given_or {ℓ} : {A : Type ℓ} → Option A → A → A
given_or none old = old
given_or (some a) old = a

abbrev pub width_or : Option NlWidth → ChanWidth → ChanWidth
width_or none old = old
width_or (some w) old = chan_width w

-- nl80211_get_interface_info_cb
unfoldable pub get_interface_info_cb : Attrs → IfInfo → IfInfo
get_interface_info_cb tb intf = record {
  channel = record {
    freq = given_or tb.wiphy_freq intf.channel.freq;
    width = width_or tb.channel_width intf.channel.width;
    center_freq = given_or tb.center_freq1 intf.channel.center_freq;
  };
  if_type = given_or tb.iftype intf.if_type;
  if_phy = given_or tb.wiphy intf.if_phy;
}

width_back : (w : ChanWidth) → w ≢ unspec → chan_width (nl_width w) ≡ w
width_back unspec known = absurd (known refl)
width_back noht20 known = refl
width_back w20 known = refl
width_back w40 known = refl
width_back w80 known = refl
width_back w160 known = refl
width_back w8080 known = refl

-- A channel with a known width, set by the attributes of ifctrl_iwset_freq, is what
-- nl80211_get_interface_info_cb makes of the same attributes, but that a centre frequency of 0
-- leaves the one that was there; the type and the device of the interface stay.
pub get_interface_info_cb-iwset_freq :
    (spec : ChanSpec) (intf : IfInfo)
    → spec.width ≢ unspec
    → get_interface_info_cb (iwset_freq_attrs spec.freq spec.width spec.center_freq) intf
      ≡ record intf {
        channel = record spec {
          center_freq =
              if spec.center_freq == 0 then intf.channel.center_freq else spec.center_freq;
        };
      }
unfolding get_interface_info_cb iwset_freq_attrs
get_interface_info_cb-iwset_freq spec intf known = elim (Bool-cases (spec.center_freq == 0)) [
  | inl zero ↦ rw (zero, width_back spec.width known) refl
  | inr other ↦ rw (other, width_back spec.width known) refl
]
