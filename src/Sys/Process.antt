-- ===== src/Sys/Process.antt =====
-- The process on its kernel: the descriptors that are open, and the calls that use one.
pub mod Rules
use libuwifi.Base.{ℕ, Option, none, some, List, ◌∷◌, if◌then◌else◌}
use libuwifi.Base.Run.{Run}
use libuwifi.Store.{contains, remove}

-- The world that the kernel keeps, and the open descriptors.
pub record Process (W : Type 0) : Type 0 where
  pub world : W
  pub fds : List ℕ

-- A name of an interface or of a file, without the zero behind it.
abbrev pub Name : Type 0
Name = List ℕ

module _ {W : Type 0} where
  -- `socket` answers with a new descriptor, or `none` for -1.
  abbrev pub take_fd : Option ℕ → W → List ℕ → Option ℕ × Process W
  take_fd none w fds = (none, record { world = w; fds = fds })
  take_fd (some fd) w fds = (some fd, record { world = w; fds = fd ∷ fds })

  abbrev pub open_fd : (W → Option ℕ × W) → Run (Process W) (Option ℕ)
  open_fd answer p = let (fd, w) = answer p.world in some (take_fd fd w p.fds)

  -- A call without a descriptor.
  abbrev pub ask : {A : Type 0} → (W → A × W) → Run (Process W) A
  ask answer p = let (a, w) = answer p.world in some (a, record p { world = w })

  -- A call with a descriptor. One that is not open is a fault.
  abbrev pub with_fd : {A : Type 0} → ℕ → (W → A × W) → Run (Process W) A
  with_fd fd answer p = if contains fd p.fds then ask answer p else none

  -- `close`. Closing what is not open is a fault.
  abbrev pub close : ℕ → Run (Process W) (Unit {0})
  close fd p = if contains fd p.fds then some (tt, record p { fds = remove fd p.fds }) else none
