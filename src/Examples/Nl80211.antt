-- ===== src/Examples/Nl80211.antt =====
-- Attributes of linux/ifctrl-nl80211.c on concrete inputs.
use libuwifi.Base.{
  ◌≡◌, refl, ◌==◌, negsuc, pos, false, true, none, some, List, [], ◌∷◌, replicate, if◌then◌else◌,
  arith,
}
use libuwifi.Wlan.Types.{w40, unspec}
use libuwifi.Channel.Types.{Channels, ChanSpec}
use libuwifi.Nl80211.Freqlist.{BandAttrs, get_freqlist_cb}
use libuwifi.Nl80211.Freqlist.Listed.{IsListed, get_freqlist_cb-IsListed, get_freqlist_cb-no_band}
use libuwifi.Nl80211.Settings.{
  IfInfo, iwset_freq_attrs, get_interface_info_cb, get_interface_info_cb-iwset_freq,
}
use libuwifi.Nl80211.Stations.{StaInfo, StaMsg, get_station_cb, iwget_stations}
use libuwifi.Examples.Tables.{entry, band}

abbrev no_channels : Channels
no_channels = record {
  chan = replicate 64 (entry 0 0);
  num_channels = 0;
  band0 = band;
  band1 = band;
  num_bands = 0;
}

-- Two channels, of which one is disabled, with HT rates; and a band with one channel.
abbrev two_bands : List BandAttrs
two_bands =
    record {
      ht_capa = some 2;
      ht_mcs_set = some (255 ∷ 255 ∷ replicate 14 0);
      vht_capa = none;
      vht_mcs_set = none;
      freqs = some (
          record { attr_freq = some 2412; attr_disabled = false }
          ∷ record { attr_freq = some 2484; attr_disabled = true }
          ∷ []);
    }
    ∷ record {
      ht_capa = none;
      ht_mcs_set = none;
      vht_capa = some 0;
      vht_mcs_set = some (replicate 8 250);
      freqs = some (record { attr_freq = some 5180; attr_disabled = false } ∷ []);
    }
    ∷ []

get_freqlist_cb-IsListed_example :
    (ch' : Channels) × (get_freqlist_cb (some two_bands) no_channels ≡ some ch')
    × IsListed two_bands ch'
get_freqlist_cb-IsListed_example =
    get_freqlist_cb-IsListed two_bands no_channels refl refl (refl, refl) (omega arith)

-- A band of 64 channels.
abbrev large_band : BandAttrs
large_band = record {
  ht_capa = none;
  ht_mcs_set = none;
  vht_capa = none;
  vht_mcs_set = none;
  freqs = some (replicate 64 (record { attr_freq = some 5180; attr_disabled = false }));
}

get_freqlist_cb-no_band_example :
    (ch' : Channels) × (get_freqlist_cb (some (large_band ∷ [])) no_channels ≡ some ch')
    × (ch'.num_channels ≡ 64)
    × (ch'.num_bands ≡ 0)
get_freqlist_cb-no_band_example = get_freqlist_cb-no_band large_band [] no_channels (omega arith)

abbrev wide : ChanSpec
wide = record { freq = 5180; width = w40; center_freq = 5190 }

abbrev unset : IfInfo
unset = record {
  channel = record { freq = 0; width = unspec; center_freq = 0 };
  if_type = 6;
  if_phy = 1;
}

get_interface_info_cb-iwset_freq_example :
    get_interface_info_cb (iwset_freq_attrs 5180 w40 5190) unset
    ≡ record unset { channel = record wide { center_freq = if 5190 == 0 then 0 else 5190 } }
get_interface_info_cb-iwset_freq_example =
    get_interface_info_cb-iwset_freq wide unset (λ e. absurd (cc))

-- Two stations, and a message without station attributes between them.
abbrev three_messages : List StaMsg
three_messages =
    record {
      attr_mac = some (1 ∷ 2 ∷ 3 ∷ 4 ∷ 5 ∷ 6 ∷ []);
      sta_info = some (record { inactive_time = some 10; signal = some 200; signal_avg = none });
    }
    ∷ record { attr_mac = some (2 ∷ 2 ∷ 2 ∷ 2 ∷ 2 ∷ 2 ∷ []); sta_info = none }
    ∷ record {
      attr_mac = some (6 ∷ 5 ∷ 4 ∷ 3 ∷ 2 ∷ 1 ∷ []);
      sta_info = some (record { inactive_time = none; signal = none; signal_avg = some 20 });
    }
    ∷ []

abbrev no_stations : List StaInfo
no_stations = replicate 2 (record { mac = replicate 6 0; rssi = pos 0; rssi_avg = pos 0; last = 0 })

iwget_stations_signal :
    iwget_stations true 1 three_messages no_stations
    ≡ some (
      1,
      record { mac = 1 ∷ 2 ∷ 3 ∷ 4 ∷ 5 ∷ 6 ∷ []; rssi = negsuc 55; rssi_avg = pos 0; last = 10 }
          ∷ record { mac = replicate 6 0; rssi = pos 0; rssi_avg = pos 0; last = 0 }
          ∷ [],
    )
unfolding iwget_stations get_station_cb
iwget_stations_signal = refl
