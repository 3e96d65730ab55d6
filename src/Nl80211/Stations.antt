-- ===== src/Nl80211/Stations.antt =====
-- nl80211_get_station_cb and ifctrl_iwget_stations of linux/ifctrl-nl80211.c: one element of an array for each
-- message, from the attributes that libnl gives.
pub mod Recorded
use libuwifi.Base.{
  ℕ, suc, ℤ, pos, negsuc, ◌-◌, Bool, false, true, Option, none, some, List, [], ◌∷◌, ◌>>=◌, leb,
  get_elem?, set, if◌then◌else◌,
}
use libuwifi.Nl80211.Settings.{given_or}

-- An array of a caller, and the index of the element that the next message fills.
pub record Filling {ℓ} (A : Type ℓ) : Type ℓ where
  pub items : List A
  pub idx : ℕ

-- The next element is written, unless `maxlen` elements are.
abbrev pub put_next {ℓ} : {A : Type ℓ} → ℕ → (A → Option A) → Filling A → Option (Filling A)
put_next maxlen write s =
    if leb maxlen s.idx
    then some s
    else (get_elem? s.items s.idx >>= λ old.
        write old >>= λ new. some (record { items = set s.items s.idx new; idx = suc s.idx }))

-- `struct sta_info`
pub record StaInfo : Type 0 where
  pub mac : List ℕ
  pub rssi : ℤ
  pub rssi_avg : ℤ
  pub last : ℕ

-- The nested attributes NL80211_STA_INFO_INACTIVE_TIME, _SIGNAL and _SIGNAL_AVG.
pub record StaAttrs : Type 0 where
  pub inactive_time : Option ℕ
  pub signal : Option ℕ
  pub signal_avg : Option ℕ

-- A message: NL80211_ATTR_MAC, and the nested attributes, if they are there and libnl can parse them.
pub record StaMsg : Type 0 where
  pub attr_mac : Option (List ℕ)
  pub sta_info : Option StaAttrs

-- The int8_t of a byte.
abbrev pub signed_byte : ℕ → ℤ
signed_byte b = if leb 128 b then negsuc (255 - b) else pos b

abbrev pub byte_or : Option ℕ → ℤ → ℤ
byte_or none old = old
byte_or (some b) old = signed_byte b

-- The element that a message writes. A message without an address is a fault: NULL is read.
abbrev pub write_sta : StaMsg → StaAttrs → StaInfo → Option StaInfo
write_sta msg a old = msg.attr_mac >>= λ mac. some (record {
  mac = mac;
  rssi = byte_or a.signal old.rssi;
  rssi_avg = byte_or a.signal_avg old.rssi_avg;
  last = given_or a.inactive_time old.last;
})

abbrev pub station_step : ℕ → StaMsg → Option StaAttrs → Filling StaInfo → Option (Filling StaInfo)
station_step maxlen msg none s = some s
station_step maxlen msg (some a) s = put_next maxlen (write_sta msg a) s

-- nl80211_get_station_cb
unfoldable pub get_station_cb : ℕ → StaMsg → Filling StaInfo → Option (Filling StaInfo)
get_station_cb maxlen msg s = station_step maxlen msg msg.sta_info s

-- The messages that nl80211_send_recv gives to the callback, one behind the other.
abbrev pub get_stations : ℕ → List StaMsg → Filling StaInfo → Option (Filling StaInfo)
get_stations maxlen [] s = some s
get_stations maxlen (msg ∷ msgs) s = get_station_cb maxlen msg s >>= λ r. get_stations maxlen msgs r

-- ifctrl_iwget_stations behind the preparation of its message, for the messages that come and the success
-- of the call: the value returned and the array.
unfoldable pub iwget_stations : Bool → ℕ → List StaMsg → List StaInfo → Option (ℕ × List StaInfo)
iwget_stations ok maxlen msgs stas =
    get_stations maxlen msgs (record { items = stas; idx = 0 }) >>= λ r.
    some (if ok then r.idx else 0, r.items)
