-- ===== src/Lib.antt =====
-- Verification of libuwifi, a library that parses and creates 802.11 frames and changes radio channels.
--
-- The program's parts and the files that model them:
--   core/wlan_util.c, include/uwifi/wlan_util.h and include/uwifi/wlan80211.h: Wlan/Types, Wlan/Frame (frame
--     control values), Wlan/Freq (channel numbers and frequencies), Wlan/Rates, Wlan/Streams, Wlan/Standard
--     and Wlan/Names. A function wlan_x is the definition x.
--   core/wlan_parser.c and include/uwifi/wlan_parser.h: Parser/Packet (struct uwifi_packet), Parser/Elements
--     (uwifi_parse_information_elements), Parser/Header (uwifi_parse_80211_header) and Parser/Peek.
--   core/inject.c and linux/inject_rtap.c: Inject.
--   core/channel.c, include/uwifi/channel.h and the channel fields of struct uwifi_interface in
--     include/uwifi/conf.h: Channel/Types, Channel/Table (look-ups and additions), Channel/Width (centre
--     frequencies, verification, capabilities), Channel/Change (dwell time, change, next channel,
--     automatic change, initialisation) and Channel/Display (names of widths). A function uwifi_channel_x
--     is the definition x.
--   core/node.c and include/uwifi/node.h: Node/Info (struct uwifi_node without its links), Node/Copy (how a
--     packet changes it), Node/Table (the list of nodes), Node/Ap (stations and access points), Node/Timeout
--     and Node/Reach (sequences of calls). A function uwifi_x or uwifi_nodes_x is the definition x or nodes_x.
--   core/essid.c and include/uwifi/essid.h: Essid/Strings and Essid/Networks.
--   linux/raw_parser.c and linux/prism_header.h: Raw/Prism, Raw/Radiotap and Raw/Packets.
--   linux/ifctrl-nl80211.c: Nl80211/Freqlist (the channels of a device), Nl80211/Settings (a channel as
--     attributes), Nl80211/Stations and Nl80211/Survey (lists that a device gives), Nl80211/Requests (all
--     requests), Nl80211/Events and Nl80211/Listener (events and their socket), on the attributes that libnl
--     gives. A function ifctrl_x is the definition x, or request_x where x is the list alone.
--   linux/netl80211.c: Nl80211/Receive (the wait for an answer), Nl80211/Netlink (messages), Nl80211/Groups
--     (multicast groups) and Nl80211/Socket (nl80211_init and nl80211_finish).
--   linux/interface.c, linux/netdev.c and linux/packet_sock.c: Sys/Interface, Sys/Netdev and Sys/Packet, over
--     the open descriptors of Sys/Process.
--   linux/wpa_ctrl.c, linux/ifctrl-wext.c, linux/platform.c and osx/capture-pcap.c: Sys/Wpa, Sys/Wext,
--     Sys/Clock and Sys/Capture. esp8266/esp_promisc.c: Raw/Esp.
--   util/average.c, include/uwifi/average.h and ilog2 of util/util.c: Util/Average and Util/Log.
-- The frame parser uses the stream and width functions of Wlan; the channel code uses its rates and
-- frequencies; created frames are parsed back; raw packets are given to the frame parser behind their
-- headers; parsed packets change nodes and networks; an interface is initialised with a socket, its device,
-- the interface control and the channels, and frees its nodes at the end.
--
-- Memory is a list of bytes; a read behind its end is the result none of Option, so that a theorem about a
-- result says that no such read takes place. Words are native numbers with their wrap around written out, and
-- int is the type ℤ of Base/Int. A function that changes a struct returns it. The clock and the interface
-- control (plat_time_usec, ifctrl_iwset_freq and ifctrl_iwget_freqlist) are the fields of the record Platform,
-- over any type for the state of the world, and take what the functions do as a parameter.
--
-- Nodes and networks live in maps from pointers, of which none is a pointer that is not allocated; a use of
-- such a pointer is a fault too, as is taking an element off a list that it is not in. A linked list is the
-- sequence of its elements; its operations are the record Lists of Store/Pointers, a parameter with the laws
-- that the documentation of the vendored include/uwifi/cc_list.h states. malloc gives a pointer that was never
-- given before, and whose links are NULL, as memset makes them; it does not fail, since the code does not test
-- it. Counters of 32 bits wrap around; a network is taken to have fewer than 2^32 - 1 nodes. The radiotap
-- iterator, another project's code, is the record RadiotapLib, with the laws that it stays in its bounds.
--
-- Code that uses the operating system or libnl is written in the monad Run of Base/Run, over a state that
-- can fail: Process keeps the open descriptors and Link the messages that are allocated, so that a use of a
-- descriptor that is closed, a message freed twice or one sent after it was freed is a fault. What the calls
-- answer is a parameter over any type for the state of the world (Devices, PacketSockets, Sockets, Wireless,
-- Libnl, SocketLib, ListenLib), with its documented behaviour as named hypotheses (Observed, Reliable,
-- Works, Unlinks) where a theorem needs it. exit ends the process, which is a result of its own.
--
-- Loops: the element loop runs on fuel equal to its length, of which each round takes two bytes at least; the
-- verification loop on eight rounds, of which seven are used at most; the automatic change on the number of
-- tries that the code computes; ilog2 on the 32 bits of an int; the look-ups on the number of channels,
-- which is 64 at most; the wait for an answer of nl80211 on the number of calls within which one comes; a
-- request to wpa_supplicant on the number of messages and interruptions before its reply; the binding of its
-- socket on two rounds or more, since the address is free after the file of the socket has been removed.
--
-- The theorems stand in child modules of these files, named for what they prove. Base holds what the
-- parts share, and Examples the tests and the theorems at concrete inputs.
--
-- Not modelled: log output and formatted strings; socket_set_receive_buffer and packet_socket_recv of
-- linux/packet_sock.c, the opening and closing of osx/capture-pcap.c, esp32/platform.c and osx/ifctrl-osx.m,
-- which only pass calls on to libraries; core/ifctrl-dummy.c, which returns constants; the memory of struct
-- wpa_ctrl; core/cc_list.c and include/uwifi/cc_list.h, which are a copy of another project's code.
pub mod Base
pub mod Wlan
pub mod Parser
pub mod Inject
pub mod Channel
pub mod Util
pub mod Store
pub mod Sys
pub mod Node
pub mod Essid
pub mod Raw
pub mod Nl80211
pub mod Examples
