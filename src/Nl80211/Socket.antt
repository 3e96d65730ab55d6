-- ===== src/Nl80211/Socket.antt =====
-- nl80211_init and nl80211_finish of linux/netl80211.c: the netlink socket of the process.
use libuwifi.Base.{
  ℕ, suc, ◌≡◌, refl, ℤ, pos, ltb_ℤ, ◌==ℤ◌, Bool, true, false, Option, none, some, List, ◌∷◌,
  if◌then◌else◌, Bool-cases, inl, inr,
}
use libuwifi.Base.Run.{Run, pure, ◌>>=◌, ◌>>◌, Returns, returns, Returns-bind}
use libuwifi.Store.{contains, remove}
use libuwifi.Sys.Process.Rules.{same_eq}

-- nl_socket_alloc, genl_connect, which is 0 for success, and genl_ctrl_resolve of "nl80211".
pub record SocketLib (W : Type 0) : Type 0 where
  pub socket_alloc : W → Bool × W
  pub genl_connect : ℕ → W → ℤ × W
  pub resolve : ℕ → W → ℤ × W

-- The world, the sockets that are allocated, the next one, and the variables of the module; NULL is `none`.
pub record Module (W : Type 0) : Type 0 where
  pub world : W
  pub socks : List ℕ
  pub next : ℕ
  pub nl_sock : Option ℕ
  pub nl_event : Option ℕ
  pub family_id : ℤ

module _ {W : Type 0} (lib : SocketLib W) where
  -- nl_socket_free: nothing for NULL, and a fault for a socket that is not allocated.
  abbrev pub socket_free : Option ℕ → Run (Module W) (Unit {0})
  socket_free none m = some (tt, m)
  socket_free (some s) m =
      if contains s m.socks then some (tt, record m { socks = remove s m.socks }) else none

  -- The label `out` of nl80211_init.
  abbrev pub out : Run (Module W) Bool
  out m = (socket_free m.nl_sock >> pure false) m

  abbrev pub resolved : ℤ → Run (Module W) Bool
  resolved id m =
      if ltb_ℤ id (pos 0)
      then out (record m { family_id = id })
      else some (true, record m { family_id = id })

  abbrev pub connected : ℕ → ℤ → Run (Module W) Bool
  connected s err m =
      let (id, w) = lib.resolve s m.world in
      if err ==ℤ pos 0 then resolved id (record m { world = w }) else out m

  abbrev pub allocated : Bool → Run (Module W) Bool
  allocated false m = out (record m { nl_sock = none })
  allocated true m =
      let (err, w) = lib.genl_connect m.next m.world in
      connected m.next err
        (record m { world = w; socks = m.next ∷ m.socks; next = suc m.next; nl_sock = some m.next })

  -- nl80211_init
  unfoldable pub nl80211_init : Run (Module W) Bool
  nl80211_init m = let (ok, w) = lib.socket_alloc m.world in allocated ok (record m { world = w })

  -- nl80211_finish
  unfoldable pub nl80211_finish : Run (Module W) (Unit {0})
  nl80211_finish m = (socket_free m.nl_sock >> λ m'. socket_free m'.nl_event m') m

  -- What nl80211_init leaves, from a module without an event socket.
  abbrev pub Inits : List ℕ → Bool → Module W → Type 0
  Inits old false m = m.socks ≡ old
  Inits old true m = (s : ℕ) × (m.nl_sock ≡ some s) × (m.socks ≡ s ∷ old) × (m.nl_event ≡ none)

  out-Inits :
      (m : Module W) (s : ℕ) (old : List ℕ)
      → m.nl_sock ≡ some s
      → m.socks ≡ s ∷ old
      → Returns (Inits old) (out m)
  out-Inits m s old e f = rw (e, f, same_eq s) (returns refl)

  resolved-Inits :
      (m : Module W) (s : ℕ) (old : List ℕ) (id : ℤ)
      → m.nl_sock ≡ some s
      → m.socks ≡ s ∷ old
      → m.nl_event ≡ none
      → Returns (Inits old) (resolved id m)
  resolved-Inits m s old id e f g = elim (Bool-cases (ltb_ℤ id (pos 0))) [
    | inl unknown ↦ rw unknown (out-Inits (record m { family_id = id }) s old e f)
    | inr known ↦ rw known (returns (s, e, f, g))
  ]

  connected-Inits :
      (m : Module W) (s : ℕ) (old : List ℕ) (err : ℤ)
      → m.nl_sock ≡ some s
      → m.socks ≡ s ∷ old
      → m.nl_event ≡ none
      → Returns (Inits old) (connected s err m)
  connected-Inits m s old err e f g = elim (Bool-cases (err ==ℤ pos 0)) [
    | inl ok ↦
        let (id, w) = lib.resolve s m.world in
        rw ok (resolved-Inits (record m { world = w }) s old id e f g)
    | inr failed ↦ rw failed (out-Inits m s old e f)
  ]

  allocated-Inits :
      (m : Module W) (ok : Bool) → m.nl_event ≡ none → Returns (Inits m.socks) (allocated ok m)
  allocated-Inits m false g = returns refl
  allocated-Inits m true g =
      let (err, w) = lib.genl_connect m.next m.world in
      connected-Inits
        (record m { world = w; socks = m.next ∷ m.socks; next = suc m.next; nl_sock = some m.next })
        m.next m.socks err refl refl g

  -- An initialisation frees its socket where it fails, and otherwise keeps it for nl80211_finish.
  nl80211_init-Inits : (m : Module W) → m.nl_event ≡ none → Returns (Inits m.socks) (nl80211_init m)
  unfolding nl80211_init
  nl80211_init-Inits m g =
      allocated-Inits (record m { world = (lib.socket_alloc m.world).1 })
        (lib.socket_alloc m.world).0 g

  pub nl80211_finish-frees :
      (m : Module W) (old : List ℕ)
      → Inits old true m
      → Returns (λ _ m'. m'.socks ≡ old) (nl80211_finish m)
  unfolding nl80211_finish
  nl80211_finish-frees m old (s, e, f, g) = rw (e, f, same_eq s, g) (returns refl)

  -- An initialisation, and nl80211_finish where it has succeeded.
  abbrev pub finish_if : Bool → Run (Module W) (Unit {0})
  finish_if ok = if ok then nl80211_finish else pure tt

  finish_if-frees :
      (m : Module W) (old : List ℕ) (ok : Bool)
      → Inits old ok m
      → Returns (λ _ m'. m'.socks ≡ old) (finish_if ok m)
  finish_if-frees m old false e = returns e
  finish_if-frees m old true e = nl80211_finish-frees m old e

  -- A module without an event socket.
  pub nl80211_finish-init :
      (m : Module W)
      → m.nl_event ≡ none
      → Returns (λ _ m'. m'.socks ≡ m.socks) ((nl80211_init >>= finish_if) m)
  nl80211_finish-init m g =
      Returns-bind (nl80211_init-Inits m g) (λ ok m' e. finish_if-frees m' m.socks ok e)

  -- After an initialisation whose connection fails, nl80211_finish frees the socket again.
  pub nl80211_finish-init_failed :
      (m : Module W)
      → contains m.next m.socks ≡ false
      → ((w : W) → (lib.socket_alloc w).0 ≡ true)
      → ((s : ℕ) (w : W) → ((lib.genl_connect s w).0 ==ℤ pos 0) ≡ false)
      → (nl80211_init >>= λ ok. nl80211_finish) m ≡ none
  unfolding nl80211_init nl80211_finish
  nl80211_finish-init_failed m fresh allocs fails = rw (allocs, fails, same_eq m.next, fresh) refl
