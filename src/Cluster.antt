-- ===== src/Cluster.antt =====
-- The master and its three minions together: a request of the block device is run by a command of
-- the master, its datagrams are served by the minions, and their answers come back. The network
-- loses nothing here, and delivers the datagrams of a request in either order.
pub mod Mirror
pub mod Serve
pub mod Delivered
pub mod Writing
pub mod Disk
pub mod Reading
pub mod Session
pub mod Device
pub mod Crossing
pub mod Network
use mathlib.Core.List.{reverse}
use iot_drive.Shared.{ℕ, Bool, true, false, List, [], ◌∷◌, Outcome, ok, bind, ◌==◌, if◌then◌else◌}
use iot_drive.ArgsKey.{ArgsKey}
use iot_drive.Proxy.{Memory}
use iot_drive.Proxy.ResponseProxy
use iot_drive.Proxy.ResponseProxy.{Master}
use iot_drive.Command.{Minion, AiFunc, minion_serve, run_master_task}

pub record Cluster : Type 0 where
  pub master : Master
  pub minions : ℕ → Minion

abbrev pub update {ℓ} : {A : Type ℓ} → (ℕ → A) → ℕ → A → ℕ → A
update f k v j = if j == k then v else f j

-- A datagram is served by its minion, and the answer is taken in by the master.
unfoldable pub deliver : Bool → Memory → ℕ × List ℕ → Cluster → Outcome Cluster
deliver debug mem (k, packet) c = bind (minion_serve debug mem packet (c.minions k)) λ r.
    bind (ResponseProxy.get_args_key debug mem (r.0) c.master)
      λ m. ok (record { master = m.1; minions = update c.minions k (r.1) })

unfoldable pub deliver_all : Bool → Memory → List (ℕ × List ℕ) → Cluster → Outcome Cluster
deliver_all debug mem [] c = ok c
deliver_all debug mem (d ∷ ds) c = bind (deliver debug mem d c) (deliver_all debug mem ds)

-- The order in which the datagrams of a request arrive.
abbrev pub arrive : Bool → List (ℕ × List ℕ) → List (ℕ × List ℕ)
arrive false ds = ds
arrive true ds = reverse ds

unfoldable pub perform : Bool → Memory → Bool → ArgsKey → Cluster → Outcome (AiFunc × Cluster)
perform debug mem swapped args c = bind (run_master_task debug mem args c.master) λ i.
    bind (deliver_all debug mem (arrive swapped i.datagrams) (record c { master = i.master }))
      λ c'. ok (i.ai, c')
