-- ===== src/Wlan/Streams.antt =====
-- Spatial streams and channel widths out of capability elements: core/wlan_util.c.
pub mod Count
use libuwifi.Base.{
  ℕ, zero, suc, ◌+◌, ◌*◌, Bool, ◌&&◌, not, Option, some, List, ◌==◌, if◌then◌else◌, get_elem?,
  test_bit, field, le16, ◌>>=◌,
}
use libuwifi.Wlan.Types.{ChanWidth, unspec, w80, w160, w8080}

-- wlan_chan_width_from_vht_capab
pub chan_width_from_vht_capab : ℕ → ChanWidth
chan_width_from_vht_capab vht =
    let bits = field vht 2 2 in
    if bits == 0 then w80 else if bits == 1 then w160 else if bits == 2 then w8080 else unspec

-- The first loop of wlan_ht_streams_from_mcs with `left` rounds to go: the index of the first zero byte,
-- or 4.
pub ht_rx_loop : ℕ → ℕ → List ℕ → Option ℕ
ht_rx_loop zero i mcs = some i
ht_rx_loop (suc left) i mcs = do
  m ← get_elem? mcs i
  let rest = ht_rx_loop left (i + 1) mcs
  if m == 0 then some i else rest

-- wlan_ht_streams_from_mcs at the bytes behind `mcs`, and the value that `*tx` has before. The result is
-- `*rx` and `*tx`.
pub ht_streams_from_mcs : List ℕ → ℕ → Option (ℕ × ℕ)
unfolding ht_rx_loop
ht_streams_from_mcs mcs tx = do
  rx ← ht_rx_loop 4 0 mcs
  b ← get_elem? mcs 12
  let tx_mcs_defined = test_bit b 0
  let tx_rx_mcs_not_equal = test_bit b 1
  let tx_max_streams = field b 2 2 + 1
  some (
    rx,
    if tx_mcs_defined && not tx_rx_mcs_not_equal
        then rx
        else if tx_mcs_defined && tx_rx_mcs_not_equal
        then tx_max_streams
        else tx,
  )

-- The loops of wlan_vht_streams_from_mcs: the first of eight two-bit fields that is 3, or 8.
pub vht_loop : ℕ → ℕ → ℕ → ℕ
vht_loop zero i tmp = i
vht_loop (suc left) i tmp =
    let rest = vht_loop left (i + 1) tmp in if field tmp (i * 2) 2 == 3 then i else rest

-- wlan_vht_streams_from_mcs: `*rx` and `*tx`.
pub vht_streams_from_mcs : List ℕ → Option (ℕ × ℕ)
unfolding vht_loop
vht_streams_from_mcs mcs = do
  rx ← le16 mcs 0
  tx ← le16 mcs 4
  some (vht_loop 8 0 rx, vht_loop 8 0 tx)
