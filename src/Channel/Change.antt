-- ===== src/Channel/Change.antt =====
-- Changing the channel: the operations of core/channel.c on `struct uwifi_interface`.
pub mod Dwell
pub mod Outcome
pub mod Next
pub mod Sweep
pub mod Total
pub mod Init
use libuwifi.Base.{
  ℕ, suc, zero, ◌+◌, ◌-◌, ◌*◌, ◌^◌, Bool, true, false, ◌&&◌, ◌||◌, not, Option, none, some, ◌>>=◌,
  if◌then◌else◌, get_elem?, ltb, leb, ◌==◌, ℤ, pos, negsuc, ◌+ℤ◌, ◌-ℤ◌, ◌*ℤ◌, ◌==ℤ◌, ltb_ℤ, leb_ℤ,
  minus_one, uint32_of, sub32,
}
use libuwifi.Wlan.Types.{ChanWidth, unspec, noht20, w20, w40, width_value}
use libuwifi.Wlan.Rates.{max_phy_rate}
use libuwifi.Channel.Types.{ChanFreq, Channels, ChanSpec, Interface, max_channels}
use libuwifi.Channel.Table.{idx_from_chan, idx_from_freq, get_chan, get_band_from_idx, visited}
use libuwifi.Channel.Width.{fix_center_freq, is_ht40plus, is_w40, check_all}

-- What the platform provides, on a state of the world: plat_time_usec, ifctrl_iwset_freq for the
-- interface, and ifctrl_iwget_freqlist.
pub record Platform (W : Type 0) : Type 0 where
  pub time_usec : W → ℕ × W
  pub iwset_freq : ℕ → ChanWidth → ℕ → W → Bool × W
  pub iwget_freqlist : Interface → W → Interface × W

abbrev pub uint32_max : ℕ
uint32_max = 2 ^ 32 - 1

-- The dwell time that is left at the time `now`.
abbrev pub dwell_at : Interface → ℕ → ℕ
dwell_at intf now =
    let ret = intf.channel_time -ℤ pos (sub32 now intf.last_channelchange) in
    if ltb_ℤ ret (pos 0)
    then 0
    else if ltb_ℤ (pos uint32_max) ret
    then uint32_max
    else uint32_of ret

-- The widths that need no centre frequency.
abbrev pub is_20mhz : ChanWidth → Bool
is_20mhz noht20 = true
is_20mhz w20 = true
is_20mhz w = false

-- The interface behind a successful change.
abbrev pub changed : Interface → ChanSpec → ℕ → Interface
changed intf spec time =
    let idx = idx_from_freq intf.channels spec.freq in
    record intf {
      channel_idx = idx;
      channel = spec;
      max_phy_rate =
          uint32_of (max_phy_rate spec.width (get_band_from_idx intf.channels idx).streams_rx);
      last_channelchange = time;
    }

-- `channels.chan[idx]`; an index outside the array is a fault.
abbrev pub chan_at : Interface → ℤ → Option ChanFreq
chan_at intf (negsuc i) = none
chan_at intf (pos i) = get_elem? intf.channels.chan i

abbrev pub is_set : ℤ → Bool
is_set x = not (x ==ℤ pos 0)

-- The first `if` of uwifi_channel_get_next: the interface, the index and the flag for HT40+.
unfoldable pub from_min : Interface → Interface × ℤ × Bool
from_min intf =
    let plus = is_ht40plus intf.channel in
    let idx = idx_from_chan intf.channels intf.channel_min in
    if is_set intf.channel_min && ltb_ℤ (get_chan intf.channels intf.channel_idx) intf.channel_min
    then (if ltb_ℤ idx (pos 0)
        then (record intf { channel_min = pos 0 }, intf.channel_idx, true)
        else (intf, idx, true))
    else (intf, intf.channel_idx, plus)

-- The index behind `idx`, with the wrap around.
unfoldable pub next_idx : Interface → ℤ → ℤ
next_idx intf idx =
    let next = idx +ℤ pos 1 in
    if leb_ℤ (pos intf.channels.num_channels) next
      || leb_ℤ (pos max_channels) next
      || (is_set intf.channel_max && ltb_ℤ intf.channel_max (get_chan intf.channels next))
    then (if is_set intf.channel_min then idx_from_chan intf.channels intf.channel_min else pos 0)
    else next

-- The rest of uwifi_channel_get_next for the channel `ch` and the flag for HT40+.
abbrev pub target : ChanSpec → ChanFreq → Bool → ChanSpec
target new_chan ch plus =
    fix_center_freq (record new_chan { freq = ch.freq; width = ch.max_width }) plus

-- The second half of uwifi_channel_get_next, from the index and the flag on.
unfoldable pub step_from : Interface → ℤ → Bool → ChanSpec → Option ChanSpec
step_from intf idx plus new_chan =
    let again = chan_at intf idx in
    let next = chan_at intf (next_idx intf idx) in
    again >>= λ ch.
    if is_w40 intf.channel.width && (not plus && ch.ht40plus)
    then some (target new_chan ch true)
    else (next >>= λ other. some (target new_chan other (not other.ht40minus)))

-- uwifi_channel_get_next: the interface and `new_chan` behind it.
unfoldable pub get_next : Interface → ChanSpec → Option (Interface × ChanSpec)
get_next intf new_chan =
    let (checked, idx, plus) = from_min intf in
    step_from checked idx plus new_chan >>= λ spec. some (checked, spec)

module _ {W : Type 0} (platform : Platform W) where
  -- uwifi_channel_get_remaining_dwell_time
  unfoldable pub remaining_dwell_time : Interface → W → ℕ × W
  remaining_dwell_time intf w =
      if not intf.channel_scan
      then (uint32_max, w)
      else (let (now, w1) = platform.time_usec w in (dwell_at intf now, w1))

  -- uwifi_channel_change
  unfoldable pub channel_change : Interface → ChanSpec → W → Bool × Interface × W
  channel_change intf spec w =
      let (time, w1) = platform.time_usec w in
      let (ok, w2) = platform.iwset_freq spec.freq spec.width spec.center_freq w1 in
      if (spec.center_freq == 0) && not (is_20mhz spec.width)
      then (false, intf, w)
      else (if ok then (true, changed intf spec time, w2) else (false, intf, w2))

  -- The loop of uwifi_channel_auto_change for `rounds` rounds at most.
  unfoldable pub change_loop : ℕ → Interface → ChanSpec → W → Option (Bool × Interface × W)
  change_loop zero intf spec w = some (false, intf, w)
  change_loop (suc rounds) intf spec w = do
    (intf1, spec1) ← get_next intf spec
    let (ok, intf2, w1) = channel_change intf1 spec1 w
    let rest = change_loop rounds intf2 spec1 w1
    if ok then some (true, intf2, w1) else rest

  -- The number of rounds: `tries` as it is set before the loop, but one at least.
  abbrev pub max_tries : Interface → ℕ
  max_tries intf =
      let from_max = idx_from_chan intf.channels intf.channel_max *ℤ 2 in
      let all = 2 * intf.channels.num_channels in
      let at_least_one : ℤ → ℕ = λ t. if ltb_ℤ t (pos 1) then 1 else uint32_of t in
      if is_set intf.channel_max && not (ltb_ℤ from_max (pos 0))
      then at_least_one from_max
      else at_least_one (pos all)

  abbrev pub empty_spec : ChanSpec
  empty_spec = record { freq = 0; width = unspec; center_freq = 0 }

  -- What uwifi_channel_auto_change does behind the loop.
  abbrev pub after_loop : Bool × Interface × W → ℤ × Interface × W
  after_loop (true, intf, w) = (pos 1, intf, w)
  after_loop (false, intf, w) =
      let (now, w1) = platform.time_usec w in
      (minus_one, record intf { last_channelchange = now }, w1)

  -- uwifi_channel_auto_change
  unfoldable pub auto_change : Interface → W → Option (ℤ × Interface × W)
  auto_change intf w =
      let (dwell, w1) = remaining_dwell_time intf w in
      if not intf.channel_scan
      then some (pos 0, intf, w)
      else if intf.channel_idx ==ℤ minus_one
      then some (pos 0, intf, w)
      else if ltb 0 dwell
      then some (pos 0, intf, w1)
      else (change_loop (max_tries intf) intf empty_spec w1 >>= λ r. some (after_loop r))

  -- The end of uwifi_channel_init: the current channel is set to its widest width.
  widen : Interface → ChanFreq → W → Bool × Interface × W
  widen intf ch w =
      let plus = is_w40 ch.max_width && not ch.ht40minus in
      let spec = fix_center_freq (record intf.channel_set { width = ch.max_width }) plus in
      let (ok, intf1, w1) = channel_change (record intf { channel_set = spec }) spec w in
      if width_value intf.channel.width == width_value ch.max_width
      then (true, intf, w)
      else (true, intf1, w1)

  -- uwifi_channel_init from a known current channel on.
  adopt : Interface → W → Option (Bool × Interface × W)
  unfolding widen
  adopt intf w =
      let idx = idx_from_freq intf.channels intf.channel.freq in
      let band = get_band_from_idx intf.channels idx in
      let tuned = record intf {
        channel_idx = idx;
        channel_set = intf.channel;
        max_phy_rate = uint32_of (max_phy_rate band.max_chan_width band.streams_rx);
      } in
      chan_at intf idx >>= λ ch. some (widen tuned ch w)

  -- The first lines of uwifi_channel_init: the interface with its channels listed and checked.
  abbrev pub listed : Interface → W → Interface × W
  listed intf w =
      let (intf1, w1) = platform.iwget_freqlist intf w in
      let (time, w2) = platform.time_usec w1 in
      (
        record intf1 {
          channel_initialized = true;
          channel_idx = minus_one;
          last_channelchange = time;
          channels = check_all (visited intf1.channels) 0 intf1.channels;
        },
        w2,
      )

  -- uwifi_channel_init
  unfoldable pub channel_init : Interface → W → Option (Bool × Interface × W)
  unfolding adopt
  channel_init intf w =
      let (new, w1) = listed intf w in
      let band = new.channels.band0 in
      if (new.channels.num_bands == 0) || (new.channels.num_channels == 0)
      then some (false, new, w1)
      else if ltb 0 new.channel_set.freq
      then some (channel_change new new.channel_set w1)
      else if new.channel.freq == 0
      then some (
        true,
        record new {
          max_phy_rate = uint32_of (max_phy_rate band.max_chan_width band.streams_rx);
          channel_idx = minus_one;
        },
        w1,
      )
      else adopt new w1
