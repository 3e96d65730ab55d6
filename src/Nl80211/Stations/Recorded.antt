-- ===== src/Nl80211/Stations/Recorded.antt =====
-- The stations that ifctrl_iwget_stations of linux/ifctrl-nl80211.c returns.
use Prim.{Unit}
use libuwifi.Base.{
  ℕ, zero, suc, ◌<◌, ◌≤◌, ◌≡◌, refl, sym, ◌∙◌, ap, subst, true, Option, none, some, List, [], ◌∷◌,
  ◌++◌, leb, length, length-set, get_elem?_lt, set, take, take-length_append, arith, Option-cases,
  Bool-cases, inl, inr,
}
use libuwifi.Nl80211.Settings.{given_or}
use libuwifi.Nl80211.Stations.{
  Filling, StaInfo, StaAttrs, StaMsg, byte_or, get_station_cb, get_stations, iwget_stations,
}

-- The address of a message with attributes of a station, in front of others.
abbrev pub add_mac : Option StaAttrs → Option (List ℕ) → List (List ℕ) → List (List ℕ)
add_mac none mac rest = rest
add_mac (some a) none rest = rest
add_mac (some a) (some mac) rest = mac ∷ rest

-- The addresses of the messages that tell of stations.
abbrev pub macs : List StaMsg → List (List ℕ)
macs [] = []
macs (msg ∷ msgs) = add_mac msg.sta_info msg.attr_mac (macs msgs)

-- Every message has an address.
abbrev pub AllHaveMac : List StaMsg → Type 0
AllHaveMac [] = Unit {0}
AllHaveMac (msg ∷ msgs) = ((mac : List ℕ) × (msg.attr_mac ≡ some mac)) × AllHaveMac msgs

-- The addresses of the first `n` elements.
abbrev pub macs_of : ℕ → List StaInfo → List (List ℕ)
macs_of zero xs = []
macs_of (suc n) [] = []
macs_of (suc n) (x ∷ xs) = x.mac ∷ macs_of n xs

length-macs_of : (n : ℕ) (xs : List StaInfo) → n ≤ length xs → length (macs_of n xs) ≡ n
length-macs_of zero xs h = refl
length-macs_of (suc n) [] h = absurd (omega arith)
length-macs_of (suc n) (x ∷ xs) h = ap suc (length-macs_of n xs (omega arith))

macs_of-set :
    (n : ℕ) (xs : List StaInfo) (x : StaInfo)
    → n < length xs
    → macs_of (suc n) (set xs n x) ≡ macs_of n xs ++ x.mac ∷ []
macs_of-set n [] x h = absurd (omega arith)
macs_of-set zero (y ∷ xs) x h = refl
macs_of-set (suc n) (y ∷ xs) x h = ap (λ l. y.mac ∷ l) (macs_of-set n xs x (omega arith))

-- The array `s'` keeps its length, and its first elements have the addresses of those of `s` and the new
-- ones, up to the maximal number.
pub record Records (maxlen : ℕ) (new : List (List ℕ)) (s s' : Filling StaInfo) : Type 0 where
  pub size : length s'.items ≡ length s.items
  pub bound : s'.idx ≤ maxlen
  pub first : macs_of s'.idx s'.items ≡ take maxlen (macs_of s.idx s.items ++ new)

append_assoc : (xs ys zs : List (List ℕ)) → (xs ++ ys) ++ zs ≡ xs ++ (ys ++ zs)
append_assoc [] ys zs = refl
append_assoc (x ∷ xs) ys zs = ap (λ l. x ∷ l) (append_assoc xs ys zs)

take_all : (n : ℕ) (xs : List (List ℕ)) → length xs ≤ n → take n (xs ++ []) ≡ xs
take_all zero [] h = refl
take_all (suc n) [] h = refl
take_all zero (x ∷ xs) h = absurd (omega arith)
take_all (suc n) (x ∷ xs) h = ap (λ l. x ∷ l) (take_all n xs (omega arith))

take_exact : (n : ℕ) (xs ys : List (List ℕ)) → length xs ≡ n → take n (xs ++ ys) ≡ xs
take_exact n xs ys e = subst (λ k. take k (xs ++ ys) ≡ xs) e (take-length_append xs ys)

module _ (maxlen : ℕ) where
  -- A full array stays as it is.
  full_lem :
      (msgs : List StaMsg) (s : Filling StaInfo)
      → leb maxlen s.idx ≡ true
      → get_stations maxlen msgs s ≡ some s
  unfolding get_station_cb
  full_lem [] s full = refl
  full_lem (msg ∷ msgs) s full = elim (Option-cases msg.sta_info) [
    | inl missing ↦ rw missing (full_lem msgs s full)
    | inr (a, given) ↦ rw (given, full) (full_lem msgs s full)
  ]

  stations_lem :
      (msgs : List StaMsg) (s : Filling StaInfo)
      → maxlen ≤ length s.items
      → s.idx ≤ maxlen
      → AllHaveMac msgs
      → (s' : Filling StaInfo) × (get_stations maxlen msgs s ≡ some s')
        × Records maxlen (macs msgs) s s'
  unfolding get_station_cb
  stations_lem [] s room below all = (
    s,
    refl,
    record {
      size = refl;
      bound = below;
      first = sym (
          take_all maxlen (macs_of s.idx s.items)
            (omega (arith, length-macs_of s.idx s.items (omega arith))));
    },
  )
  stations_lem (msg ∷ msgs) s room below all = elim (Option-cases msg.sta_info) [
    | inl missing ↦ rw missing (stations_lem msgs s room below all.1)
    | inr (a, given) ↦ elim (Bool-cases (leb maxlen s.idx)) [
      | inl full ↦
          let end : length (macs_of s.idx s.items) ≡ maxlen =
            length-macs_of s.idx s.items (omega arith) ∙ ground arith in
          (
            s,
            full_lem (msg ∷ msgs) s full,
            record {
              size = refl;
              bound = below;
              first = sym (take_exact maxlen (macs_of s.idx s.items) (macs (msg ∷ msgs)) end);
            },
          )
      | inr space ↦
          let inside : s.idx < length s.items = ground arith in
          let (mac, has) = all.0 in
          let (old, at) = get_elem?_lt s.items s.idx inside in
          let new : StaInfo = record {
            mac = mac;
            rssi = byte_or a.signal old.rssi;
            rssi_avg = byte_or a.signal_avg old.rssi_avg;
            last = given_or a.inactive_time old.last;
          } in
          let size = length-set s.items s.idx new in
          let (s', runs, rest) =
            stations_lem msgs (record { items = set s.items s.idx new; idx = suc s.idx })
              (omega (arith, size)) (ground arith) all.1 in
          rw (given, has)
            (
              s',
              rw (space, at) runs,
              record {
                size = rest.size ∙ size;
                bound = rest.bound;
                first =
                    rest.first
                    ∙ ap (λ l. take maxlen (l ++ macs msgs)) (macs_of-set s.idx s.items new inside)
                    ∙ ap (take maxlen)
                        (append_assoc (macs_of s.idx s.items) (mac ∷ []) (macs msgs));
              },
            )
    ]
  ]

-- For messages that all have an address, and an array of maxlen elements or more,
-- ifctrl_iwget_stations meets no fault, keeps the length of the array and returns a number of at
-- most maxlen; the first elements, of that number, have the addresses of the first messages with
-- station attributes, in order, up to maxlen of them.
pub iwget_stations-Records :
    (maxlen : ℕ) (msgs : List StaMsg) (stas : List StaInfo)
    → maxlen ≤ length stas
    → AllHaveMac msgs
    → (n : ℕ) × (stas' : List StaInfo) × (iwget_stations true maxlen msgs stas ≡ some (n, stas'))
      × (n ≤ maxlen)
      × (length stas' ≡ length stas)
      × (macs_of n stas' ≡ take maxlen (macs msgs))
unfolding iwget_stations
iwget_stations-Records maxlen msgs stas room all =
    let (s', runs, records) =
      stations_lem maxlen msgs (record { items = stas; idx = 0 }) room (omega arith) all in
    (s'.idx, s'.items, rw runs refl, records.bound, records.size, records.first)
