-- ===== src/Examples/System.antt =====
-- Devices, sockets and the life of an interface on concrete inputs.
use libuwifi.Base.{
  ℕ, zero, suc, ◌≡◌, refl, inl, Bool, true, false, Option, none, some, List, [], ◌∷◌, replicate,
  pos, minus_one, arith,
}
use libuwifi.Base.Run.{Returns, ◌>>=◌}
use libuwifi.Store.{some_inj}
use libuwifi.Channel.Types.{Channels, Interface}
use libuwifi.Channel.Table.{idx_from_freq, scan}
use libuwifi.Channel.Change.{channel_init}
use libuwifi.Channel.Change.Init.{channel_init-absent}
use libuwifi.Sys.Process.{Process, Name}
use libuwifi.Sys.Netdev.{Devices, set_up_promisc}
use libuwifi.Sys.Netdev.Flags.{Sets, set_up_promisc-Sets}
use libuwifi.Sys.Interface.{Device, Services}
use libuwifi.Sys.Interface.Owned.{Ready}
use libuwifi.Sys.Interface.Session.{session, SessionResult, uwifi_fini-init}
use libuwifi.Sys.Wpa.{
  returned, readable, Sockets, Reply, wpa_ctrl_request, wpa_ctrl_open, wpa_ctrl_close,
}
use libuwifi.Sys.Wpa.Request.{
  Comes, rounds, Answered, wpa_ctrl_request-Answered, wpa_ctrl_request-overrun,
}
use libuwifi.Sys.Wpa.Open.{Unlinks, wpa_ctrl_close-open}
use libuwifi.Sys.Wext.{Range, read_range}
use libuwifi.Sys.Wext.Listed.{IsTableOf, read_range-IsTableOf}
use libuwifi.Examples.Tables.{three_channels}
use libuwifi.Examples.Hopping.{clocked, scanning}
use libuwifi.Examples.Nodes.{checked_laws, table, table-IsTable}
use libuwifi.Wlan.Types.{w20}

-- "wlan0"
abbrev name : Name
name = 119 ∷ 108 ∷ 97 ∷ 110 ∷ 48 ∷ []

-- One device, which is the world: its flags.
abbrev one_device : Devices ℕ
one_device = record {
  socket = λ w. (some 5, w);
  get_hwaddr = λ n w. (some (803, 2 ∷ 0 ∷ 0 ∷ 0 ∷ 0 ∷ 1 ∷ []), w);
  get_addr = λ n w. (none, w);
  set_addr = λ n a w. (false, w);
  get_flags = λ n w. (some w, w);
  set_flags = λ n f w. (true, f);
}

abbrev process : Process ℕ
process = record { world = 4098; fds = 3 ∷ [] }

set_up_promisc-Sets_example :
    Returns
      (Sets one_device name true true process)
      (set_up_promisc one_device name true true process)
set_up_promisc-Sets_example = set_up_promisc-Sets one_device name true true process

abbrev services : Services ℕ
services = record {
  sockets = record {
    socket = λ w. (some 4, w);
    nametoindex = λ n w. (2, w);
    bind = λ i w. (true, w);
  };
  devices = one_device;
  platform = clocked true;
  iwget_interface_info = λ n i w. ((true, i), w);
}

abbrev device : Device
device = record {
  ifname = name;
  sock = minus_one;
  has_list = false;
  wlan_nodes = table;
  intf = scanning;
  if_type = 2;
  if_phy = 0;
  arphdr = pos 0;
}

device-Ready : Ready services device
device-Ready = record {
  exists = λ w. omega arith;
  not_zero = λ w fd e. omega (arith, some_inj e);
  known = λ now v w. inl (omega arith);
}

uwifi_fini-init_example :
    Returns
      (SessionResult services checked_laws (3 ∷ []))
      (session services checked_laws device table process)
uwifi_fini-init_example =
    uwifi_fini-init services checked_laws device table process device-Ready table-IsTable

-- No channel is configured, and the current one is not in the table.
abbrev elsewhere : Interface
elsewhere = record scanning {
  channel_set = record { freq = 0; width = w20; center_freq = 0 };
  channel = record { freq = 2412; width = w20; center_freq = 0 };
}

absent_2412 : idx_from_freq three_channels 2412 ≡ minus_one
unfolding idx_from_freq scan
absent_2412 = refl

channel_init-absent_example : channel_init (clocked true) elsewhere 7 ≡ none
channel_init-absent_example =
    channel_init-absent (clocked true) elsewhere 7 (omega arith) (omega arith) refl (omega arith)
      absent_2412

-- The first message is "<3>", and then "OK" comes.
abbrev datagram : ℕ → List ℕ
datagram zero = b'<' ∷ 51 ∷ b'>' ∷ []
datagram (suc n) = 79 ∷ 75 ∷ []

-- The first address is in use, until its file is removed.
abbrev in_use : ℕ → Option Bool
in_use zero = some true
in_use (suc n) = none

abbrev supplicant : Sockets ℕ
supplicant = record {
  socket = λ w. (some 9, w);
  bind = λ w. (in_use w, w);
  unlink = λ w. (tt, 1);
  connect = λ path w. (true, w);
  set_nonblock = λ w. (tt, w);
  send = λ cmd w. (true, w);
  select = λ w. (readable, w);
  recv = λ len w. (some (datagram w), suc w);
}

comes_8 : Comes supplicant 8 0 (datagram 0 ∷ []) (datagram 1) 2
comes_8 = Comes.message refl refl refl (omega arith) (Comes.answer refl refl refl (omega arith))

comes_2 : Comes supplicant 2 1 [] (datagram 1) 2
comes_2 = Comes.answer refl refl refl (omega arith)

abbrev reply_8 : Reply
reply_8 = record { buf = replicate 8 7; given = [] }

abbrev reply_2 : Reply
reply_2 = record { buf = 7 ∷ 7 ∷ []; given = [] }

wpa_ctrl_request-Answered_example :
    (r' : Reply) × (wpa_ctrl_request supplicant
        (rounds supplicant 8 comes_8)
        (80 ∷ [])
        true
        8
        reply_8
        0
      ≡ some (returned (pos 2) r' 2))
    × Answered supplicant 8 (datagram 1) (datagram 0 ∷ []) reply_8 r'
wpa_ctrl_request-Answered_example =
    wpa_ctrl_request-Answered supplicant 8 (80 ∷ []) 0 comes_8 reply_8 refl refl (omega arith)

wpa_ctrl_request-overrun_example :
    wpa_ctrl_request supplicant (rounds supplicant 2 comes_2) (80 ∷ []) true 2 reply_2 1 ≡ none
wpa_ctrl_request-overrun_example =
    wpa_ctrl_request-overrun supplicant 2 (80 ∷ []) 1 comes_2 reply_2 refl refl refl

supplicant-Unlinks : Unlinks supplicant
supplicant-Unlinks w used again = absurd (cc)

wpa_ctrl_close-open_example :
    Returns
      (λ _ q. q.fds ≡ 3 ∷ [])
      ((wpa_ctrl_open supplicant 2 name >>= wpa_ctrl_close supplicant)
        (record { world = 0; fds = 3 ∷ [] }))
wpa_ctrl_close-open_example =
    wpa_ctrl_close-open supplicant 0 name (record { world = 0; fds = 3 ∷ [] }) supplicant-Unlinks

-- Channel 1 in MHz, and channel 36 in units of 10 Hz.
abbrev two_freqs : Range
two_freqs = record {
  we_version_compiled = 22;
  num_frequency = 2;
  freq = record { m = pos 2412; e = 6; i = 1 } ∷ record { m = pos 518000000; e = 1; i = 36 } ∷ [];
}

read_range-IsTableOf_example :
    (ch' : Channels) × (read_range three_channels (some two_freqs) ≡ some (2, ch'))
    × IsTableOf two_freqs three_channels ch'
read_range-IsTableOf_example =
    read_range-IsTableOf two_freqs three_channels (omega arith) (omega arith) (omega arith) refl
