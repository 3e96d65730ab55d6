-- ===== src/Sys/Process/Rules.antt =====
-- Rules for runs of a process: what holds after a call for each of the kernel's answers.
use libuwifi.Base.{ℕ, ◌≡◌, true, Option, none, some, List, ◌∷◌, ◌==◌, arith}
use libuwifi.Base.Run.{Run, Returns, proceed, ◌>>=◌}
use libuwifi.Store.{contains}
use libuwifi.Sys.Process.{Process, open_fd, take_fd, with_fd, close}

-- The run meets no fault, and the same descriptors are open as before.
abbrev pub Releases : {W A : Type 0} → Run (Process W) A → Process W → Type 0
Releases m p = Returns (λ _ q. q.fds ≡ p.fds) (m p)

pub same_eq : (n : ℕ) → (n == n) ≡ true
same_eq n = ground arith

pub contains_head : (n : ℕ) (xs : List ℕ) → contains n (n ∷ xs) ≡ true
contains_head n xs = rw (same_eq n)

module _ {W A : Type 0} {P : A → Process W → Type 0} where
  opened :
      (fd : Option ℕ) (w : W) (fds : List ℕ) (k : Option ℕ → Run (Process W) A)
      → Returns P (k none (record { world = w; fds = fds }))
      → ((fd : ℕ) → Returns P (k (some fd) (record { world = w; fds = fd ∷ fds })))
      → Returns P (proceed (some (take_fd fd w fds)) k)
  opened none w fds k failed opens = failed
  opened (some fd) w fds k failed opens = opens fd

  pub open_fd-Returns :
      (answer : W → Option ℕ × W) (k : Option ℕ → Run (Process W) A) (p : Process W)
      → Returns P (k none (record p { world = (answer p.world).1 }))
      → ((fd : ℕ)
          → Returns P (k (some fd) (record { world = (answer p.world).1; fds = fd ∷ p.fds })))
      → Returns P ((open_fd answer >>= k) p)
  open_fd-Returns answer k p failed opens =
      opened (answer p.world).0 (answer p.world).1 p.fds k failed opens

  pub with_fd-Returns :
      {B : Type 0} (fd : ℕ) (answer : W → B × W) (k : B → Run (Process W) A) (p : Process W)
      → contains fd p.fds ≡ true
      → Returns P (k (answer p.world).0 (record p { world = (answer p.world).1 }))
      → Returns P ((with_fd fd answer >>= k) p)
  with_fd-Returns fd answer k p is_open next = rw is_open next

  -- Closing the descriptor that was opened last.
  pub close-Returns :
      (fd : ℕ) (k : Unit {0} → Run (Process W) A) (fds : List ℕ) (w : W)
      → Returns P (k tt (record { world = w; fds = fds }))
      → Returns P ((close fd >>= k) (record { world = w; fds = fd ∷ fds }))
  close-Returns fd k fds w next = rw (same_eq fd) next
