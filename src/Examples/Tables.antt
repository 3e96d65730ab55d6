-- ===== src/Examples/Tables.antt =====
-- The tables of channels and the widths of core/channel.c on concrete inputs.
use libuwifi.Base.{ℕ, ◌≡◌, refl, false, ◌∷◌, replicate, pos, arith}
use libuwifi.Wlan.Types.{w20, w80}
use libuwifi.Channel.Types.{ChanFreq, Band, Channels}
use libuwifi.Channel.Table.{scan, idx_from_freq, list_add}
use libuwifi.Channel.Table.Add.{IsAdded, list_add-idx_from_freq}

abbrev pub entry : ℕ → ℕ → ChanFreq
entry chan freq = record {
  chan = pos chan;
  freq = freq;
  max_width = w20;
  ht40plus = false;
  ht40minus = false;
}

abbrev pub band : Band
band = record { num_channels = pos 3; max_chan_width = w80; streams_rx = 2; streams_tx = 2 }

-- Channels 36, 40 and 44 in a table of 64 places.
abbrev pub three_channels : Channels
three_channels = record {
  chan = entry 36 5180 ∷ entry 40 5200 ∷ entry 44 5220 ∷ replicate 61 (entry 0 0);
  num_channels = 3;
  band0 = band;
  band1 = band;
  num_bands = 1;
}

idx_from_freq_5220 : idx_from_freq three_channels 5220 ≡ pos 2
unfolding idx_from_freq scan
idx_from_freq_5220 = refl

list_add-idx_from_freq_example :
    IsAdded three_channels (pos 5240) 5240 (list_add three_channels (pos 5240))
list_add-idx_from_freq_example =
    list_add-idx_from_freq three_channels (pos 5240) 5240 (refl, omega arith)
