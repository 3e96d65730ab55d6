-- ===== src/Sys/Wpa/Open.antt =====
-- The socket that wpa_ctrl_open of linux/wpa_ctrl.c opens and wpa_ctrl_close closes.
use libuwifi.Base.{ℕ, suc, ◌≡◌, ◌≢◌, refl, Bool, true, false, Option, none, some, List, ◌∷◌}
use libuwifi.Base.Run.{pure, ◌>>=◌, Returns, returns, Returns-bind}
use libuwifi.Sys.Process.{Process, Name}
use libuwifi.Sys.Process.Rules.{open_fd-Returns, with_fd-Returns, contains_head, same_eq}
use libuwifi.Sys.Wpa.{
  Sockets, bind_next, bind_loop, connected, is_bound, open_cases, wpa_ctrl_open, wpa_ctrl_close,
}

-- The descriptor that is returned is open in front of the others; where none is returned, they are all.
abbrev pub Opens : {W : Type 0} → List ℕ → Option ℕ → Process W → Type 0
Opens old none q = q.fds ≡ old
Opens old (some fd) q = q.fds ≡ fd ∷ old

module _ {W : Type 0} (sys : Sockets W) where
  -- Behind `unlink` the address of the socket is no longer in use.
  abbrev pub Unlinks : Type 0
  Unlinks =
      (w : W) → (sys.bind w).0 ≡ some true → (sys.bind (sys.unlink (sys.bind w).1).1).0 ≢ some true

  bind_next-ends :
      (a : Option Bool) (w : W) (fds : List ℕ) (loop : W → Option (Bool × Process W))
      → (a ≡ some true → Returns (λ _ q. q.fds ≡ fds) (loop (sys.unlink w).1))
      → Returns (λ _ q. q.fds ≡ fds) (bind_next sys (a, w) fds loop)
  bind_next-ends none w fds loop h = returns refl
  bind_next-ends (some false) w fds loop h = returns refl
  bind_next-ends (some true) w fds loop h = h refl

  -- Two rounds are enough.
  bind_loop-ends :
      (unlinks : Unlinks) (fuel : ℕ) (p : Process W)
      → Returns (λ _ q. q.fds ≡ p.fds) (bind_loop sys (suc (suc fuel)) p)
  unfolding bind_loop
  bind_loop-ends unlinks fuel p =
      let (a, w) = sys.bind p.world in
      let (b, v) = sys.bind (sys.unlink w).1 in
      bind_next-ends a w p.fds _
        (λ used. bind_next-ends b v p.fds _ (λ again. absurd (unlinks p.world used again)))

  connected-Opens :
      (fd : ℕ) (ok : Bool) (w : W) (old : List ℕ)
      → Returns (Opens old) (connected sys fd ok (record { world = w; fds = fd ∷ old }))
  connected-Opens fd true w old =
      with_fd-Returns fd sys.set_nonblock (λ _. pure (some fd))
        (record { world = w; fds = fd ∷ old }) (contains_head fd old) (returns refl)
  connected-Opens fd false w old = rw (same_eq fd) (returns refl)

  is_bound-Opens :
      (path : Name) (fd : ℕ) (ok : Bool) (q : Process W) (old : List ℕ)
      → q.fds ≡ fd ∷ old
      → Returns (Opens old) (is_bound sys path fd ok q)
  is_bound-Opens path fd true q old e =
      let (ok, w) = sys.connect path q.world in rw (e, same_eq fd) (connected-Opens fd ok w old)
  is_bound-Opens path fd false q old e = rw (e, same_eq fd) (returns refl)

  -- Opening a control socket.
  pub wpa_ctrl_open-Opens :
      (fuel : ℕ) (path : Name) (p : Process W)
      → Unlinks
      → Returns (Opens p.fds) (wpa_ctrl_open sys (suc (suc fuel)) path p)
  unfolding wpa_ctrl_open
  wpa_ctrl_open-Opens fuel path p unlinks =
      let w = (sys.socket p.world).1 in
      open_fd-Returns sys.socket (open_cases sys (suc (suc fuel)) path) p (returns refl) (λ fd.
        Returns-bind (bind_loop-ends unlinks fuel (record { world = w; fds = fd ∷ p.fds }))
          (λ ok q same. is_bound-Opens path fd ok q p.fds same))

  wpa_ctrl_close-Closes :
      (o : Option ℕ) (q : Process W) (old : List ℕ)
      → Opens old o q
      → Returns (λ _ r. r.fds ≡ old) (wpa_ctrl_close sys o q)
  unfolding wpa_ctrl_close
  wpa_ctrl_close-Closes none q old e = returns e
  wpa_ctrl_close-Closes (some fd) q old e = rw (e, same_eq fd) (returns refl)

  -- Where the address of a socket is free once its file has been removed, opening a control socket
  -- ends after at most two rounds of binding, and closing what it returns, a connection or none,
  -- leaves exactly the descriptors that were open before.
  pub wpa_ctrl_close-open :
      (fuel : ℕ) (path : Name) (p : Process W)
      → Unlinks
      → Returns
          (λ _ q. q.fds ≡ p.fds)
          ((wpa_ctrl_open sys (suc (suc fuel)) path >>= wpa_ctrl_close sys) p)
  wpa_ctrl_close-open fuel path p unlinks =
      Returns-bind (wpa_ctrl_open-Opens fuel path p unlinks)
        (λ o q opens. wpa_ctrl_close-Closes o q p.fds opens)
