-- ===== src/Wlan/Frame.antt =====
-- The frame control field and the constants of include/uwifi/wlan80211.h.
use libuwifi.Base.{ℕ, ◌+◌, ◌*◌, ◌%◌, Bool, ◌==◌, field}

abbrev pub frame_type : ℕ → ℕ
frame_type fc = field fc 2 2

abbrev pub frame_stype : ℕ → ℕ
frame_stype fc = field fc 4 4

-- `fc & WLAN_FRAME_FC_MASK`: type and subtype, where they stand in the field.
abbrev pub frame_mask : ℕ → ℕ
frame_mask fc = field fc 2 6 * 4

-- WLAN_FRAME_FC
abbrev pub frame_fc : ℕ → ℕ → ℕ
frame_fc type stype = type % 4 * 4 + stype % 16 * 16

abbrev pub is_mgmt : ℕ → Bool
is_mgmt fc = frame_type fc == 0

abbrev pub is_ctrl : ℕ → Bool
is_ctrl fc = frame_type fc == 1

abbrev pub is_data : ℕ → Bool
is_data fc = frame_type fc == 2

-- WLAN_FRAME_IS_QOS compares the whole subtype with 8.
abbrev pub is_qos : ℕ → Bool
is_qos fc = frame_stype fc == 8

-- The bits of the frame control field.
abbrev pub to_ds_bit : ℕ
to_ds_bit = 8

abbrev pub from_ds_bit : ℕ
from_ds_bit = 9

abbrev pub retry_bit : ℕ
retry_bit = 11

abbrev pub protected_bit : ℕ
protected_bit = 14

abbrev pub order_bit : ℕ
order_bit = 15

abbrev pub assoc_req : ℕ
assoc_req = frame_fc 0 0

abbrev pub probe_req : ℕ
probe_req = frame_fc 0 4

abbrev pub probe_resp : ℕ
probe_resp = frame_fc 0 5

abbrev pub timing : ℕ
timing = frame_fc 0 6

abbrev pub beacon : ℕ
beacon = frame_fc 0 8

abbrev pub auth : ℕ
auth = frame_fc 0 11

abbrev pub action : ℕ
action = frame_fc 0 13

abbrev pub action_noack : ℕ
action_noack = frame_fc 0 14

abbrev pub beam_rep : ℕ
beam_rep = frame_fc 1 4

abbrev pub vht_ndp : ℕ
vht_ndp = frame_fc 1 5

abbrev pub blkack_req : ℕ
blkack_req = frame_fc 1 8

abbrev pub blkack : ℕ
blkack = frame_fc 1 9

abbrev pub pspoll : ℕ
pspoll = frame_fc 1 10

abbrev pub rts : ℕ
rts = frame_fc 1 11

abbrev pub cts : ℕ
cts = frame_fc 1 12

abbrev pub ack : ℕ
ack = frame_fc 1 13

abbrev pub cf_end : ℕ
cf_end = frame_fc 1 14

abbrev pub cf_end_ack : ℕ
cf_end_ack = frame_fc 1 15

abbrev pub plain_data : ℕ
plain_data = frame_fc 2 0

abbrev pub data_cf_ack : ℕ
data_cf_ack = frame_fc 2 1

abbrev pub data_cf_poll : ℕ
data_cf_poll = frame_fc 2 2

abbrev pub data_cf_ackpoll : ℕ
data_cf_ackpoll = frame_fc 2 3

abbrev pub null_data : ℕ
null_data = frame_fc 2 4

abbrev pub qdata : ℕ
qdata = frame_fc 2 8

abbrev pub qdata_cf_ack : ℕ
qdata_cf_ack = frame_fc 2 9

abbrev pub qdata_cf_poll : ℕ
qdata_cf_poll = frame_fc 2 10

abbrev pub qdata_cf_ackpoll : ℕ
qdata_cf_ackpoll = frame_fc 2 11

abbrev pub qos_null : ℕ
qos_null = frame_fc 2 12

-- WLAN_MODE_*
abbrev pub mode_ap : ℕ
mode_ap = 1

abbrev pub mode_ibss : ℕ
mode_ibss = 2

abbrev pub mode_sta : ℕ
mode_sta = 4

abbrev pub mode_probe : ℕ
mode_probe = 8

abbrev pub mode_4addr : ℕ
mode_4addr = 16

abbrev pub mode_unknown : ℕ
mode_unknown = 32
