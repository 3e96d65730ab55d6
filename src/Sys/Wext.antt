-- ===== src/Sys/Wext.antt =====
-- linux/ifctrl-wext.c: the interface control over the wireless extensions.
pub mod Listed
use libuwifi.Base.{
  ℕ, suc, zero, ◌*◌, ◌^◌, min, ℤ, pos, ◌/ℤ◌, uint32_of, ltb_ℤ, ◌==ℤ◌, not, Bool, true, false,
  Option, none, some, List, length, get_elem?, set, ltb, leb, ◌==◌, if◌then◌else◌,
}
use libuwifi.Base.Faults.{◌>>=◌ as bind}
use libuwifi.Base.Run.{Run, pure, ◌>>=◌, ◌>>◌}
use libuwifi.Channel.Types.{ChanFreq, Channels}
use libuwifi.Sys.Process.{Process, Name, open_fd, with_fd, close}
use libuwifi.Sys.Netdev.{ifr_name}

-- `struct iw_freq`: the mantissa, the exponent and the number of the channel.
pub record IwFreq : Type 0 where
  pub m : ℤ
  pub e : ℕ
  pub i : ℕ

-- `struct iw_range`: the version, the number of frequencies and the array of them.
pub record Range : Type 0 where
  pub we_version_compiled : ℕ
  pub num_frequency : ℕ
  pub freq : List IwFreq

-- The socket of the module, and the requests SIOCSIWFREQ, SIOCGIWFREQ and SIOCGIWRANGE of ioctl.
pub record Wireless (W : Type 0) : Type 0 where
  pub socket : W → Option ℕ × W
  pub set_freq : Name → ℤ → ℕ → W → Bool × W
  pub get_freq : Name → W → Option IwFreq × W
  pub get_range : Name → W → Option Range × W

-- A frequency in MHz, or in units of 10 Hz: `m` as an unsigned int.
abbrev pub fix_freq : ℤ → ℕ
fix_freq m = if ltb_ℤ (pos 100000000) m then uint32_of (m /ℤ 100000) else uint32_of m

-- The element that the loop of wext_get_channels writes.
abbrev pub write_chan : IwFreq → ChanFreq → ChanFreq
write_chan f c = record c { chan = pos f.i; freq = fix_freq f.m }

-- The channels written so far, and those of the two bands.
pub record Listing : Type 0 where
  pub chan : List ChanFreq
  pub band0cnt : ℕ
  pub band1cnt : ℕ

abbrev pub add_chan : ℕ → ChanFreq → Listing → Listing
add_chan i c l =
    if leb c.freq 2500
    then record l { chan = set l.chan i c; band0cnt = suc l.band0cnt }
    else record l { chan = set l.chan i c; band1cnt = suc l.band1cnt }

-- The loop from index `i` on, for the rounds that are left. An index outside an array is a fault.
abbrev pub chan_loop : ℕ → ℕ → List IwFreq → Listing → Option Listing
chan_loop zero i freqs l = some l
chan_loop (suc rounds) i freqs l = bind (get_elem? freqs i) (λ f.
    bind (get_elem? l.chan i) (λ c. chan_loop rounds (suc i) freqs (add_chan i (write_chan f c) l)))

-- What wext_get_channels leaves in the table of `n` channels.
abbrev pub listed : Channels → ℕ → Listing → Channels
listed ch n l = record {
  chan = l.chan;
  num_channels = n;
  band0 = record (ch.band0) { num_channels = pos l.band0cnt };
  band1 = record (ch.band1) { num_channels = pos l.band1cnt };
  num_bands = if ltb 0 l.band1cnt then 2 else 1;
}

-- The loop of wext_get_channels for `n` channels, and what it leaves.
abbrev pub fill_table : Channels → List IwFreq → ℕ → Option (ℕ × Channels)
fill_table ch freqs n =
    bind (chan_loop n 0 freqs (record { chan = ch.chan; band0cnt = 0; band1cnt = 0 }))
      (λ l. some (n, listed ch n l))

-- wext_get_channels, for the answer to its request: the result and the table.
unfoldable pub read_range : Channels → Option Range → Option (ℕ × Channels)
read_range ch none = some (0, ch)
read_range ch (some range) =
    if ltb range.we_version_compiled 16
    then some (0, ch)
    else fill_table ch range.freq (min range.num_frequency 64)

-- `freq *= 100000` on an int: an overflow is a fault.
abbrev pub times_100000 : ℕ → Option ℤ
times_100000 freq = if ltb (freq * 100000) (2 ^ 31) then some (pos (freq * 100000)) else none

abbrev pub is_open : Option ℕ → Bool
is_open none = false
is_open (some fd) = true

module _ {W : Type 0} (wext : Wireless W) where
  -- ifctrl_init: the result and `wext_fd`.
  unfoldable pub wext_init : Run (Process W) (Bool × Option ℕ)
  wext_init = open_fd wext.socket >>= λ fd. pure (is_open fd, fd)

  -- ifctrl_finish
  unfoldable pub wext_finish : Option ℕ → Run (Process W) (Unit {0})
  wext_finish none = pure tt
  wext_finish (some fd) = close fd

  abbrev pub mantissa : Option ℤ → (ℤ → Run (Process W) Bool) → Run (Process W) Bool
  mantissa none k p = none
  mantissa (some m) k p = k m p

  -- wext_set_freq, and ifctrl_iwset_freq, which ignores the width.
  unfoldable pub wext_set_freq : ℕ → Name → ℕ → Run (Process W) Bool
  wext_set_freq fd devname freq =
      mantissa (times_100000 freq) (λ m. with_fd fd (wext.set_freq (ifr_name devname) m 1))

  abbrev pub freq_of : Option IwFreq → ℤ
  freq_of none = pos 0
  freq_of (some f) = f.m

  -- wext_get_freq
  unfoldable pub wext_get_freq : ℕ → Name → Run (Process W) ℤ
  wext_get_freq fd devname = with_fd fd (wext.get_freq (ifr_name devname)) >>= λ f. pure (freq_of f)

  -- ifctrl_iwget_interface_info: the result, and the frequency for the field `if_freq`.
  unfoldable pub wext_get_interface_info : ℕ → Name → Run (Process W) (Bool × ℤ)
  wext_get_interface_info fd ifname =
      wext_get_freq fd ifname >>= λ freq. pure (not (freq ==ℤ pos 0), freq)

  abbrev pub answered : Option (ℕ × Channels) → Process W → Option ((Bool × Channels) × Process W)
  answered none p = none
  answered (some (n, ch)) p = some ((ltb 0 n, ch), p)

  -- ifctrl_iwget_freqlist by wext_get_channels: the result and the table.
  unfoldable pub wext_get_freqlist : ℕ → Name → Channels → Run (Process W) (Bool × Channels)
  wext_get_freqlist fd devname ch =
      with_fd fd (wext.get_range (ifr_name devname)) >>= λ range. answered (read_range ch range)
