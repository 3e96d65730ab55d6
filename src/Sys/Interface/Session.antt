-- ===== src/Sys/Interface/Session.antt =====
-- What uwifi_fini of linux/interface.c gives back of what uwifi_init has taken.
use libuwifi.Base.{
  ℕ, suc, ◌≡◌, refl, ◌∙◌, ap, pos, minus_one, Bool, true, false, none, some, List, [], ◌∷◌,
}
use libuwifi.Base.Run.{Run, pure, ◌>>=◌, Returns, returns, Returns-bind}
use libuwifi.Store.{Lists, ListLaws}
use libuwifi.Node.Table.{Table, IsTable, nodes_free}
use libuwifi.Node.Table.Free.{nodes_free-empties}
use libuwifi.Sys.Process.{Process, Name}
use libuwifi.Sys.Process.Rules.{same_eq}
use libuwifi.Sys.Netdev.Released.{set_up_promisc-Releases}
use libuwifi.Sys.Packet.{Exit, exit, goes_on}
use libuwifi.Sys.Interface.{Device, Services, uwifi_init, uwifi_fini, close_sock, nodes_freed}
use libuwifi.Sys.Interface.Owned.{Owns, InitResult, Ready, uwifi_init-Owns}

-- The interface is given back: the socket is closed, and every node is freed.
pub record IsReleased (d : Device) : Type 0 where
  pub sock : d.sock ≡ minus_one
  pub nodes : d.wlan_nodes.nodes ≡ []
  pub freed : (n : ℕ) → d.wlan_nodes.node n ≡ none

module _ {W : Type 0} (services : Services W) {lists : Lists} (laws : ListLaws lists) where
  close_sock-closes :
      (d : Device) (k : ℕ) (q : Process W) (old : List ℕ)
      → q.fds ≡ suc k ∷ old
      → close_sock services d (pos (suc k)) q
        ≡ some (record d { sock = minus_one }, record q { fds = old })
  close_sock-closes d k q old e = rw (e, same_eq (suc k)) refl

  free_nodes :
      (d : Device) (q : Process W) (old : List ℕ)
      → d.sock ≡ minus_one
      → d.has_list ≡ true
      → q.fds ≡ old
      → IsTable d.wlan_nodes
      → Returns
          (λ d' r. (r.fds ≡ old) × IsReleased d')
          (nodes_freed services d (nodes_free lists d.has_list d.wlan_nodes) q)
  free_nodes d q old closed has_list same valid =
      let (t, runs, empty, freed) = nodes_free-empties laws d.wlan_nodes valid in
      rw (has_list, runs) (returns (same, record { sock = closed; nodes = empty; freed = freed }))

  -- What an initialised interface leaves, with the table that it has come to have.
  pub uwifi_fini-Releases :
      (name : Name) (old : List ℕ) (d : Device) (q : Process W)
      → Owns name old d q.fds
      → IsTable d.wlan_nodes
      → Returns (λ d' r. (r.fds ≡ old) × IsReleased d') (uwifi_fini services lists d q)
  unfolding uwifi_fini
  uwifi_fini-Releases name old d q owns valid =
      let (k, e, f) = owns.sock in
      let closed : close_sock services d d.sock q
          ≡ some (record d { sock = minus_one }, record q { fds = old }) =
        ap (λ x. close_sock services d x q) e ∙ close_sock-closes d k q old f in
      rw closed (
        Returns-bind
          (set_up_promisc-Releases services.devices d.ifname true false (record q { fds = old }))
          (λ up r same.
            free_nodes (record d { sock = minus_one }) r old refl owns.has_list same valid))

  -- An interface that is initialised, comes to have the nodes `t`, and is given back.
  abbrev pub give_back : Table → Exit (Bool × Device) → Run (Process W) (Exit Device)
  give_back t exit = pure exit
  give_back t (goes_on (ok, d)) =
      uwifi_fini services lists (record d { wlan_nodes = t }) >>= λ d'. pure (goes_on d')

  abbrev pub session : Device → Table → Run (Process W) (Exit Device)
  session d t = uwifi_init services d >>= give_back t

  abbrev pub SessionResult : List ℕ → Exit Device → Process W → Type 0
  SessionResult old exit r = Unit {0}
  SessionResult old (goes_on d) r = (r.fds ≡ old) × IsReleased d

  give_back-Releases :
      (name : Name) (old : List ℕ) (t : Table) (e : Exit (Bool × Device)) (q : Process W)
      → InitResult name old e q
      → IsTable t
      → Returns (SessionResult old) (give_back t e q)
  give_back-Releases name old t exit q owns valid = returns tt
  give_back-Releases name old t (goes_on (ok, d)) q owns valid =
      Returns-bind
        (uwifi_fini-Releases name old (record d { wlan_nodes = t }) q
          (record { has_list = owns.has_list; sock = owns.sock; ifname = owns.ifname }) valid)
        (λ d' r released. returns released)

  -- Where the interface exists, no descriptor is 0, and the current channel is known after the
  -- listing of channels, an interface that is initialised, comes to have any valid table of nodes,
  -- and is given back, leaves exactly the descriptors that were open before, with its socket closed
  -- and all its nodes freed, whether the initialisation succeeds or not, unless the process has
  -- exited; no fault is met.
  pub uwifi_fini-init :
      (d : Device) (t : Table) (p : Process W)
      → Ready services d
      → IsTable t
      → Returns (SessionResult p.fds) (session d t p)
  uwifi_fini-init d t p ready valid =
      Returns-bind (uwifi_init-Owns services d ready p)
        (λ e q owns. give_back-Releases d.ifname p.fds t e q owns valid)
