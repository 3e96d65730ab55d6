-- ===== src/Examples/Hopping.antt =====
-- Changes of channel of core/channel.c on concrete inputs, on a platform whose state is its clock.
use libuwifi.Base.{
  ℕ, zero, suc, ◌+◌, ◌-◌, ◌*◌, subst, ◌%◌, ◌≡◌, refl, inl, Bool, true, false, some, if◌then◌else◌,
  ℤ, pos, ◌+ℤ◌, ◌-ℤ◌, arith,
}
use libuwifi.Wlan.Types.{w20}
use libuwifi.Channel.Types.{ChanFreq, ChanSpec, Interface}
use libuwifi.Channel.Width.{is_w40}
use libuwifi.Channel.Change.{
  Platform, remaining_dwell_time, uint32_max, channel_change, get_next, from_min, next_idx,
  step_from, auto_change, change_loop, changed,
}
use libuwifi.Channel.Change.Dwell.{remaining_dwell_time-elapsed}
use libuwifi.Channel.Change.Outcome.{Ended, auto_change-Ended}
use libuwifi.Channel.Change.Sweep.{Holds, IsSweep, IsDistinct, IsNarrow, Changes, Changes-IsSweep}
use libuwifi.Channel.Change.Total.{auto_change-total}
use libuwifi.Examples.Tables.{three_channels, entry}

-- The clock stands still; setting a frequency takes a microsecond and succeeds or not as given.
abbrev pub clocked : Bool → Platform ℕ
clocked ok = record {
  time_usec = λ now. (now, now);
  iwset_freq = λ freq width center now. (ok, now + 1);
  iwget_freqlist = λ intf now. (intf, now);
}

abbrev pub spec_36 : ChanSpec
spec_36 = record { freq = 5180; width = w20; center_freq = 0 }

abbrev spec_40 : ChanSpec
spec_40 = record { freq = 5200; width = w20; center_freq = 0 }

-- On channel 36, scanning with a dwell time of 250 ms; the last change was near the end of the clock.
abbrev pub scanning : Interface
scanning = record {
  channel_time = pos 250000;
  channel_min = pos 0;
  channel_max = pos 0;
  channel_scan = true;
  channel_set = spec_36;
  channels = three_channels;
  channel_initialized = true;
  channel_idx = pos 0;
  channel = spec_36;
  last_channelchange = 4294967000;
  max_phy_rate = 1444;
}

remaining_dwell_time-elapsed_example :
    remaining_dwell_time (clocked true) scanning 704
    ≡ (if true then (250000 - 1000, 704) else (uint32_max, 704))
remaining_dwell_time-elapsed_example =
    remaining_dwell_time-elapsed (clocked true) scanning 704 704 250000 1000 refl (omega arith)
      (omega arith) (omega arith) refl

auto_change-total_example :
    (r : ℤ × Interface × ℕ) × (auto_change (clocked false) scanning 300000 ≡ some r)
auto_change-total_example =
    auto_change-total (clocked false) scanning 0 300000 ((refl, omega arith), refl, omega arith)
      (inl refl)

auto_change-Ended_example :
    Ended (clocked true) scanning (pos 1, changed scanning spec_40 300000, 300001)
unfolding auto_change change_loop remaining_dwell_time channel_change get_next from_min next_idx
    step_from ◌+ℤ◌ ◌-ℤ◌
auto_change-Ended_example =
    auto_change-Ended (clocked true) scanning 300000
      (pos 1, changed scanning spec_40 300000, 300001) refl

-- The channels of the table, by their index.
channel_at :
    (k : ℕ) (c : ChanFreq)
    → Holds three_channels k c
    → (c.freq ≡ 5180 + 20 * k) × (is_w40 c.max_width ≡ false)
channel_at zero c h =
    let q : entry 36 5180 ≡ c = cc in
    subst (λ x. (x.freq ≡ 5180 + 20 * 0) × (is_w40 x.max_width ≡ false)) q (refl, refl)
channel_at (suc zero) c h =
    let q : entry 40 5200 ≡ c = cc in
    subst (λ x. (x.freq ≡ 5180 + 20 * 1) × (is_w40 x.max_width ≡ false)) q (refl, refl)
channel_at (suc (suc zero)) c h =
    let q : entry 44 5220 ≡ c = cc in
    subst (λ x. (x.freq ≡ 5180 + 20 * 2) × (is_w40 x.max_width ≡ false)) q (refl, refl)
channel_at (suc (suc (suc k))) c h = absurd (omega (arith, h.0))

three_channels-IsDistinct : IsDistinct three_channels
three_channels-IsDistinct j k c d h g e = omega (arith, (channel_at j c h).0, (channel_at k d g).0)

three_channels-IsNarrow : IsNarrow three_channels
three_channels-IsNarrow k c h = (channel_at k c h).1

scanning-IsSweep : IsSweep scanning 0
scanning-IsSweep = record {
  on = ((refl, omega arith), refl, omega arith);
  no_min = refl;
  no_max = refl;
  narrow = refl;
  all_narrow = three_channels-IsNarrow;
  distinct = three_channels-IsDistinct;
}

one_change : Changes (clocked true) 1 scanning (changed scanning spec_40 7)
unfolding channel_change get_next from_min next_idx step_from ◌+ℤ◌
one_change = Changes.next scanning spec_36 spec_40 7 8 Changes.done refl refl

Changes-IsSweep_example :
    IsSweep (changed scanning spec_40 7) ((0 + 1) % 3)
    × ((changed scanning spec_40 7).channels ≡ scanning.channels)
Changes-IsSweep_example =
    Changes-IsSweep (clocked true) 1 0 scanning (changed scanning spec_40 7) scanning-IsSweep
      one_change
