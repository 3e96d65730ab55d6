-- ===== src/Sys/Wpa.antt =====
-- linux/wpa_ctrl.c: the control socket of wpa_supplicant.
pub mod Request
pub mod Open
use libuwifi.Base.{
  ℕ, suc, zero, ◌-◌, ℤ, pos, minus_one, negsuc, Bool, true, false, ◌&&◌, Option, none, some, List,
  [], ◌∷◌, ◌++◌, length, take, drop, set, get_elem?, ltb, leb, ◌==◌, if◌then◌else◌,
}
use libuwifi.Base.Run.{Run, pure, proceed, ◌>>=◌, ◌>>◌}
use libuwifi.Sys.Process.{Process, Name, open_fd, ask, with_fd, close}

-- What `select` reports: an interruption (EINTR), another failure, a timeout, or that the socket can be read.
pub data Wake : Type 0 where
  interrupted failed timeout readable : Wake

-- The calls of the kernel. `bind` gives `none` where it succeeds, and otherwise whether errno is EADDRINUSE;
-- `send` and `connect` give true where they succeed; `recv` gives the bytes of a datagram, or `none`.
pub record Sockets (W : Type 0) : Type 0 where
  pub socket : W → Option ℕ × W
  pub bind : W → Option Bool × W
  pub unlink : W → Unit {0} × W
  pub connect : Name → W → Bool × W
  pub set_nonblock : W → Unit {0} × W
  pub send : List ℕ → W → Bool × W
  pub select : W → Wake × W
  pub recv : ℕ → W → Option (List ℕ) × W

-- '<'
abbrev pub unsolicited : ℕ
unsolicited = b'<'

-- The `reply` of a caller, of `reply_len` bytes, and the messages given to `msg_cb`, if there is one.
pub record Reply : Type 0 where
  pub buf : List ℕ
  pub given : List (List ℕ)

-- `reply[i] = '\0'`; a write outside the buffer is a fault.
abbrev pub put_zero : ℕ → Reply → Option Reply
put_zero i r = if ltb i (length r.buf) then some (record r { buf = set r.buf i 0 }) else none

-- `recv` into the buffer, of the bytes that fit.
abbrev pub fill : List ℕ → Reply → Reply
fill msg r = record r { buf = msg ++ drop (length msg) r.buf }

-- The number of bytes that are given to the callback: one less if the buffer is full.
abbrev pub cut : ℕ → ℕ → ℕ
cut reply_len res = if res == reply_len then reply_len - 1 else res

-- The callback gets the first `n` bytes.
abbrev pub hand_over : ℕ → Option Reply → Option Reply
hand_over n none = none
hand_over n (some r) = some (record r { given = r.given ++ take n r.buf ∷ [] })

-- What is done with an unsolicited message of `res` bytes.
abbrev pub give : Bool → ℕ → ℕ → Reply → Option Reply
give false reply_len res r = some r
give true reply_len res r = hand_over (cut reply_len res) (put_zero (cut reply_len res) r)

abbrev pub is_unsolicited : List ℕ → Bool
is_unsolicited [] = false
is_unsolicited (c ∷ cs) = c == unsolicited

-- What a round of the loop of wpa_ctrl_request does: it returns, or goes on.
pub data Round : Type 0 where
  done : ℤ → Reply → Round
  again : Reply → Round

abbrev pub replied : ℕ → Option Reply → Option Round
replied res none = none
replied res (some r) = some (done (pos res) r)

abbrev pub go_on : Option Reply → Option Round
go_on none = none
go_on (some r) = some (again r)

-- What is done with the answer of `recv`.
abbrev pub received : Bool → ℕ → Reply → Option (List ℕ) → Option Round
received has_cb reply_len r none = some (done minus_one r)
received has_cb reply_len r (some msg) =
    if is_unsolicited msg
    then go_on (give has_cb reply_len (length msg) (fill msg r))
    else replied (length msg) (put_zero (length msg) (fill msg r))

-- What the answer of `recv` leads to.
abbrev pub recv_round : {W : Type 0} → Bool → ℕ → Reply → Option (List ℕ) × W → Option Round × W
recv_round has_cb reply_len r (msg, w) = (received has_cb reply_len r msg, w)

-- What wpa_ctrl_request comes to: it returns, or its fuel is gone.
pub data Outcome (W : Type 0) : Type 0 where
  returned : ℤ → Reply → W → Outcome W
  unfinished : Outcome W

-- The loop goes on, or ends.
abbrev pub next_round :
    {W : Type 0} → Option Round × W → (Reply → W → Option (Outcome W)) → Option (Outcome W)
next_round (none, w) loop = none
next_round (some (done res r), w) loop = some (returned res r w)
next_round (some (again r), w) loop = loop r w

module _ {W : Type 0} (sys : Sockets W) where
  -- A round of the loop, for what `select` reports.
  abbrev pub round : Bool → ℕ → Reply → Wake × W → Option Round × W
  round has_cb reply_len r (interrupted, w) = (some (again r), w)
  round has_cb reply_len r (failed, w) = (some (done minus_one r), w)
  round has_cb reply_len r (timeout, w) = (some (done (negsuc 1) r), w)
  round has_cb reply_len r (readable, w) = recv_round has_cb reply_len r (sys.recv reply_len w)

  -- The loop of wpa_ctrl_request, on fuel: the result, the reply and the world.
  unfoldable pub request_loop : ℕ → Bool → ℕ → Reply → W → Option (Outcome W)
  request_loop zero has_cb reply_len r w = some unfinished
  request_loop (suc fuel) has_cb reply_len r w =
      next_round (round has_cb reply_len r (sys.select w))
        (λ r' w'. request_loop fuel has_cb reply_len r' w')

  -- wpa_ctrl_request
  unfoldable pub wpa_ctrl_request : ℕ → List ℕ → Bool → ℕ → Reply → W → Option (Outcome W)
  wpa_ctrl_request fuel cmd has_cb reply_len r w =
      let (ok, w') = sys.send cmd w in
      if ok then request_loop fuel has_cb reply_len r w' else some (returned minus_one r w')

  -- What the answer of `bind` leads to: where the address is in use, its file is removed.
  abbrev pub bind_next :
      Option Bool × W → List ℕ → (W → Option (Bool × Process W)) → Option (Bool × Process W)
  bind_next (none, w) fds loop = some (true, record { world = w; fds = fds })
  bind_next (some false, w) fds loop = some (false, record { world = w; fds = fds })
  bind_next (some true, w) fds loop = loop (sys.unlink w).1

  -- The loop at `try_again` of wpa_ctrl_open, on fuel: whether the socket is bound.
  pub bind_loop : ℕ → Run (Process W) Bool
  bind_loop zero p = none
  bind_loop (suc fuel) p =
      bind_next (sys.bind p.world) p.fds (λ w. bind_loop fuel (record { world = w; fds = p.fds }))

  abbrev pub connected : ℕ → Bool → Run (Process W) (Option ℕ)
  connected fd true = with_fd fd sys.set_nonblock >> pure (some fd)
  connected fd false = close fd >> ask sys.unlink >> pure none

  abbrev pub is_bound : Name → ℕ → Bool → Run (Process W) (Option ℕ)
  is_bound ctrl_path fd true = with_fd fd (sys.connect ctrl_path) >>= connected fd
  is_bound ctrl_path fd false = close fd >> pure none

  abbrev pub open_cases : ℕ → Name → Option ℕ → Run (Process W) (Option ℕ)
  open_cases fuel ctrl_path none = pure none
  open_cases fuel ctrl_path (some fd) = bind_loop fuel >>= is_bound ctrl_path fd

  -- wpa_ctrl_open, for a path that is not NULL, where calloc succeeds and the path of the local socket
  -- fits: the descriptor `ctrl->s`, or `none` for NULL.
  unfoldable pub wpa_ctrl_open : ℕ → Name → Run (Process W) (Option ℕ)
  unfolding bind_loop
  wpa_ctrl_open fuel ctrl_path = open_fd sys.socket >>= open_cases fuel ctrl_path

  -- wpa_ctrl_close, for what wpa_ctrl_open returns.
  unfoldable pub wpa_ctrl_close : Option ℕ → Run (Process W) (Unit {0})
  wpa_ctrl_close none = pure tt
  wpa_ctrl_close (some fd) = ask sys.unlink >> close fd
