-- ===== src/Sys/Netdev/Flags.antt =====
-- What netdev_set_up_promisc and netdev_set_ip_address of linux/netdev.c leave in a device.
use libuwifi.Base.{
  take, ℕ, ◌/◌, ◌^◌, ◌≡◌, refl, Bool, true, false, Option, none, some, List, ◌∷◌, test_bit, field,
  arith,
}
use libuwifi.Base.Run.{proceed, pure, Returns, returns, ◌>>=◌}
use libuwifi.Sys.Process.{take_fd, Process, Name, with_fd}
use libuwifi.Sys.Process.Rules.{with_fd-Returns, close-Returns, contains_head}
use libuwifi.Sys.Netdev.{
  Devices, ifr_name, new_flags, socket_cases, store_flags, set_up_promisc, close_with,
}

-- The bits IFF_UP and IFF_PROMISC are as asked for, and all others as they were.
pub record AreSet (up promisc : Bool) (old new : ℕ) : Type 0 where
  pub is_up : test_bit new 0 ≡ up
  pub is_promisc : test_bit new 8 ≡ promisc
  pub between : field new 1 7 ≡ field old 1 7
  pub above : new / 2 ^ 9 ≡ old / 2 ^ 9

pub new_flags-AreSet :
    (up promisc : Bool) (flags : ℕ) → AreSet up promisc flags (new_flags up promisc flags)
new_flags-AreSet true true flags = record {
  is_up = ground arith;
  is_promisc = ground arith;
  between = omega arith;
  above = omega arith;
}
new_flags-AreSet true false flags = record {
  is_up = ground arith;
  is_promisc = ground arith;
  between = omega arith;
  above = omega arith;
}
new_flags-AreSet false true flags = record {
  is_up = ground arith;
  is_promisc = ground arith;
  between = omega arith;
  above = omega arith;
}
new_flags-AreSet false false flags = record {
  is_up = ground arith;
  is_promisc = ground arith;
  between = omega arith;
  above = omega arith;
}

module _ {W : Type 0} (dev : Devices W) (name : Name) (up promisc : Bool) where
  -- What becomes of the flags that SIOCGIFFLAGS gives, if it does: they are given back by SIOCSIFFLAGS, with the
  -- two bits as asked for, and the result is the answer to that.
  abbrev pub Stores : Option ℕ × W → Bool → W → Type 0
  Stores (none, w) ok w' = (ok ≡ false) × (w' ≡ w)
  Stores (some old, w) ok w' =
      (new : ℕ) × AreSet up promisc old new × (dev.set_flags (take 15 name) new w ≡ (ok, w'))

  -- What becomes of the answer to `socket`: the flags are asked for if there is one.
  abbrev pub Asks : Option ℕ × W → Bool → W → Type 0
  Asks (none, w) ok w' = (ok ≡ false) × (w' ≡ w)
  Asks (some fd, w) ok w' = Stores (dev.get_flags (take 15 name) w) ok w'

  -- The descriptors are as they were, and the requests have been made.
  abbrev pub Sets : Process W → Bool → Process W → Type 0
  Sets p ok q = (q.fds ≡ p.fds) × Asks (dev.socket p.world) ok q.world

  store_flags-Stores :
      (o : Option ℕ) (w : W) (fd : ℕ) (fds : List ℕ)
      → Returns
          (λ ok q. (q.fds ≡ fds) × Stores (o, w) ok q.world)
          (store_flags dev name fd up promisc o (record { world = w; fds = fd ∷ fds }))
  store_flags-Stores none w fd fds =
      close-Returns fd (λ _. pure false) fds w (returns (refl, (refl, refl)))
  store_flags-Stores (some old) w fd fds =
      let new = new_flags up promisc old in
      let answer = dev.set_flags (ifr_name name) new in
      with_fd-Returns fd answer (close_with dev fd) (record { world = w; fds = fd ∷ fds })
        (contains_head fd fds)
        (close-Returns fd (λ _. pure (answer w).0) fds (answer w).1
          (returns (refl, (new, new_flags-AreSet up promisc old, refl))))

  socket_cases-Asks :
      (o : Option ℕ) (w : W) (fds : List ℕ)
      → Returns
          (λ ok q. (q.fds ≡ fds) × Asks (o, w) ok q.world)
          (proceed (some (take_fd o w fds)) (
            socket_cases dev false (λ fd.
              with_fd fd (dev.get_flags (ifr_name name)) >>= store_flags dev name fd up promisc)))
  socket_cases-Asks none w fds = returns (refl, (refl, refl))
  socket_cases-Asks (some fd) w fds =
      let (o, v) = dev.get_flags (ifr_name name) w in
      with_fd-Returns fd (dev.get_flags (ifr_name name)) (store_flags dev name fd up promisc)
        (record { world = w; fds = fd ∷ fds }) (contains_head fd fds)
        (store_flags-Stores o v fd fds)

  -- netdev_set_up_promisc returns with the same descriptors open. Without a socket, or without an
  -- answer to the request for the flags, it returns false and makes no further request; else it
  -- requests the flags that it was given with IFF_UP and IFF_PROMISC as asked for and all others as
  -- they were, once, for the name cut to 15 bytes, and returns the answer to that.
  pub set_up_promisc-Sets :
      (p : Process W) → Returns (Sets p) (set_up_promisc dev name up promisc p)
  unfolding set_up_promisc
  set_up_promisc-Sets p = let (o, w) = dev.socket p.world in socket_cases-Asks o w p.fds
