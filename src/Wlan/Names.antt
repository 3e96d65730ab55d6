-- ===== src/Wlan/Names.antt =====
-- The table of frame names and the look-ups in it: core/wlan_util.c.
use Prim.Native.String.{String}
pub mod Lookup
use libuwifi.Base.{
  ◌>>=◌, ℕ, ◌≡◌, Bool, List, [], ◌∷◌, Option, none, some, ◌==◌, if◌then◌else◌, get_elem?,
}
use libuwifi.Wlan.Frame.{frame_fc, frame_type, frame_stype}

-- `struct pkt_name`; the character is its ASCII code.
pub record PktName : Type 0 where
  pub c : ℕ
  pub name : String
  pub fc : ℕ
  pub desc : String

abbrev pkt_name : ℕ → String → ℕ → String → PktName
pkt_name c n f d = record { c = c; name = n; fc = f; desc = d }

-- Management frames, by subtype.
abbrev mgmt_names : List PktName
mgmt_names =
    pkt_name b'a' "ASOCRQ" (frame_fc 0 0) "Association request"
    ∷ pkt_name b'A' "ASOCRP" (frame_fc 0 1) "Association response"
    ∷ pkt_name b'o' "REASRQ" (frame_fc 0 2) "Reassociation request"
    ∷ pkt_name b'O' "REASRP" (frame_fc 0 3) "Reassociation response"
    ∷ pkt_name b'p' "PROBRQ" (frame_fc 0 4) "Probe request"
    ∷ pkt_name b'P' "PROBRP" (frame_fc 0 5) "Probe response"
    ∷ pkt_name b'T' "TIMING" (frame_fc 0 6) "Timing Advertisement"
    ∷ pkt_name b'-' "-RESV-" 0x0070 "RESERVED"
    ∷ pkt_name b'b' "BEACON" (frame_fc 0 8) "Beacon"
    ∷ pkt_name b't' "ATIM" (frame_fc 0 9) "ATIM"
    ∷ pkt_name b'S' "DISASC" (frame_fc 0 10) "Disassociation"
    ∷ pkt_name b'u' "AUTH" (frame_fc 0 11) "Authentication"
    ∷ pkt_name b'U' "DEAUTH" (frame_fc 0 12) "Deauthentication"
    ∷ pkt_name b'X' "ACTION" (frame_fc 0 13) "Action"
    ∷ pkt_name b'x' "ACTNOA" (frame_fc 0 14) "Action No Ack"
    ∷ pkt_name b'-' "-RESV-" 0x0070 "RESERVED"
    ∷ []

-- Control frames, by subtype.
abbrev ctrl_names : List PktName
ctrl_names =
    pkt_name b'-' "-RESV-" 0x0004 "RESERVED"
    ∷ pkt_name b'-' "-RESV-" 0x0014 "RESERVED"
    ∷ pkt_name b'-' "-RESV-" 0x0024 "RESERVED"
    ∷ pkt_name b'-' "-RESV-" 0x0034 "RESERVED"
    ∷ pkt_name b'B' "BEAMRP" (frame_fc 1 4) "Beamforming Report Poll"
    ∷ pkt_name b'v' "VHTNDP" (frame_fc 1 5) "VHT NDP Announcement"
    ∷ pkt_name b'-' "-RESV-" 0x0064 "RESERVED"
    ∷ pkt_name b'w' "CTWRAP" (frame_fc 1 7) "Control Wrapper"
    ∷ pkt_name b'l' "BACKRQ" (frame_fc 1 8) "Block Ack Request"
    ∷ pkt_name b'L' "BACK" (frame_fc 1 9) "Block Ack"
    ∷ pkt_name b's' "PSPOLL" (frame_fc 1 10) "PS-Poll"
    ∷ pkt_name b'R' "RTS" (frame_fc 1 11) "RTS"
    ∷ pkt_name b'C' "CTS" (frame_fc 1 12) "CTS"
    ∷ pkt_name b'k' "ACK" (frame_fc 1 13) "ACK"
    ∷ pkt_name b'e' "CFEND" (frame_fc 1 14) "CF-End"
    ∷ pkt_name b'E' "CFENDK" (frame_fc 1 15) "CF-End + CF-Ack"
    ∷ []

-- Data frames, by subtype.
abbrev data_names : List PktName
data_names =
    pkt_name b'D' "DATA" (frame_fc 2 0) "Data"
    ∷ pkt_name b'F' "DCFACK" (frame_fc 2 1) "Data + CF-Ack"
    ∷ pkt_name b'g' "DCFPLL" (frame_fc 2 2) "Data + CF-Poll"
    ∷ pkt_name b'G' "DCFKPL" (frame_fc 2 3) "Data + CF-Ack + CF-Poll"
    ∷ pkt_name b'n' "NULL" (frame_fc 2 4) "Null (no data)"
    ∷ pkt_name b'h' "CFACK" (frame_fc 2 5) "CF-Ack (no data)"
    ∷ pkt_name b'H' "CFPOLL" (frame_fc 2 6) "CF-Poll (no data)"
    ∷ pkt_name b'j' "CFCKPL" (frame_fc 2 7) "CF-Ack + CF-Poll (no data)"
    ∷ pkt_name b'Q' "QDATA" (frame_fc 2 8) "QoS Data"
    ∷ pkt_name b'q' "QDCFCK" (frame_fc 2 9) "QoS Data + CF-Ack"
    ∷ pkt_name b'K' "QDCFPL" (frame_fc 2 10) "QoS Data + CF-Poll"
    ∷ pkt_name b'y' "QDCFKP" (frame_fc 2 11) "QoS Data + CF-Ack + CF-Poll"
    ∷ pkt_name b'N' "QDNULL" (frame_fc 2 12) "QoS Null (no data)"
    ∷ pkt_name b'-' "-RESV-" 0x00D0 "RESERVED"
    ∷ pkt_name b'Y' "QCFPLL" (frame_fc 2 14) "QoS CF-Poll (no data)"
    ∷ pkt_name b'z' "QCFKPL" (frame_fc 2 15) "QoS CF-Ack + CF-Poll (no data)"
    ∷ []

abbrev pub stype_names : List (List PktName)
stype_names = mgmt_names ∷ ctrl_names ∷ data_names ∷ []

abbrev pub unknow : PktName
unknow = pkt_name b'?' "UNKNOW" 0 "Unknown"

abbrev pub badfcs : PktName
badfcs = pkt_name b'*' "BADFCS" 0 "Bad FCS"

-- `stype_names[t][s]`, none where an index is out of bounds.
abbrev pub stype_name : ℕ → ℕ → Option PktName
stype_name t s = elim (get_elem? stype_names t) [ none ↦ none | some row ↦ get_elem? row s ]

-- wlan_get_packet_struct
pub get_packet_struct : ℕ → Option PktName
get_packet_struct type =
    if type == 1
    then some badfcs
    else if frame_type type == 3
    then some unknow
    else stype_name (frame_type type) (frame_stype type)

-- wlan_get_packet_type_char
pub get_packet_type_char : ℕ → Option ℕ
get_packet_type_char type = get_packet_struct type >>= λ n. some n.c

-- wlan_get_packet_type_name
pub get_packet_type_name : ℕ → Option String
get_packet_type_name type = get_packet_struct type >>= λ n. some n.name
