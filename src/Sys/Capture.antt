-- ===== src/Sys/Capture.antt =====
-- osx/capture-pcap.c: packets that libpcap captures, copied to the buffer of the caller.
use libuwifi.Base.{
  ℕ, zero, suc, [], ◌∷◌, ◌<◌, ◌≤◌, ◌≡◌, refl, ◌∙◌, ap, ℤ, pos, minus_one, false, Option, none, some,
  List, ◌++◌, ◌>>=◌, length, take, drop, bytes, ltb, if◌then◌else◌, arith, bytes_short,
}

-- What pcap_dispatch reports: no packet, a failure, or a packet of `len` bytes, of which `captured` are there.
pub data Dispatch : Type 0 where
  nothing failure : Dispatch
  packet : (len : ℕ) (captured : List ℕ) → Dispatch

-- The number of bytes that `handler` copies.
abbrev pub copied : ℕ → ℕ → ℕ
copied bufsize len = if ltb bufsize len then bufsize else len

-- `handler`: the number of bytes and the buffer. Bytes behind those that were captured, and places behind the
-- buffer, are a fault.
unfoldable pub handler : ℕ → ℕ → List ℕ → List ℕ → Option (ℕ × List ℕ)
handler bufsize len captured buf =
    let n = copied bufsize len in
    bytes n captured >>= λ copy. if ltb (length buf) n then none else some (n, copy ++ drop n buf)

abbrev pub captured_as : Option (ℕ × List ℕ) → Option (ℤ × List ℕ)
captured_as none = none
captured_as (some (n, buf)) = some (pos n, buf)

-- capture_recv, for what pcap_dispatch reports: the value returned and the buffer.
unfoldable pub capture_recv : Dispatch → ℕ → List ℕ → Option (ℤ × List ℕ)
capture_recv nothing bufsize buf = some (minus_one, buf)
capture_recv failure bufsize buf = some (pos 0, buf)
capture_recv (packet len captured) bufsize buf = captured_as (handler bufsize len captured buf)

-- The link types that pcap_datalink gives, and DLT_IEEE802_11_RADIO and DLT_PRISM_HEADER among them.
pub data LinkType : Type 0 where
  ieee802_11_radio prism_header other_link : LinkType

-- device_get_hwinfo, for the link type of the open device, if there is one.
abbrev pub device_get_hwinfo : Option LinkType → ℤ
device_get_hwinfo none = minus_one
device_get_hwinfo (some ieee802_11_radio) = pos 803
device_get_hwinfo (some prism_header) = pos 802
device_get_hwinfo (some other_link) = pos 801

bytes-take : (n : ℕ) (xs : List ℕ) → n ≤ length xs → bytes n xs ≡ some (take n xs)
bytes-take zero xs h = refl
bytes-take (suc n) [] h = absurd (omega arith)
bytes-take (suc n) (x ∷ xs) h = rw (bytes-take n xs (omega arith)) refl

-- A packet that was captured whole, and a buffer of the size given.
pub capture_recv-copies :
    (len : ℕ) (captured buf : List ℕ)
    → len ≤ length captured
    → let n = copied (length buf) len in
      capture_recv (packet len captured) (length buf) buf
      ≡ some (pos n, take n captured ++ drop n buf)
unfolding capture_recv handler
capture_recv-copies len captured buf whole =
    let n = copied (length buf) len in
    let below : n ≤ length captured = ground arith in
    let inside : ltb (length buf) n ≡ false = ground arith in
    rw (bytes-take n captured below, inside) refl

-- A packet that was cut short by the capture, and a buffer that it would fit.
pub capture_recv-cut :
    (len : ℕ) (captured buf : List ℕ)
    → length captured < len
    → len ≤ length buf
    → capture_recv (packet len captured) (length buf) buf ≡ none
unfolding capture_recv handler
capture_recv-cut len captured buf short fits =
    let all : copied (length buf) len ≡ len = ground arith in
    let missing : bytes (copied (length buf) len) captured ≡ none =
      ap (λ n. bytes n captured) all ∙ bytes_short len captured short in
    rw missing refl
