-- ===== src/Node/Tasks/Replies.antt =====
-- What the tasks return, and which of them may panic.
use cpcluster.Prelude.{
  String, Bool, true, false, returned, panicked, ◌≡◌, ◌≢◌, arith, eq_refl, inl, inr, Option-cases,
  is_some,
}
use cpcluster.Prelude.Dict.{get-insert}
use cpcluster.Common.Protocol.{
  Bytes, Task, compute, http_request, tcp, udp, complex_math, store_data, retrieve_data, disk_write,
  disk_read, get_global_ram, get_storage, bytes, stored,
}
use cpcluster.Node.Tasks.{Environment, WorkerState, store_task, retrieve_task, execute_node_task}
use cpcluster.Node.Tasks.Network.{tcp_task, connect_from}
use cpcluster.Node.Memory
use cpcluster.Node.Disk

module _ (env : Environment) where
  -- Data that a worker has stored is what it returns for the same key, from its memory or from its disk.
  pub retrieve_after_store :
      (key : String) (payload : Bytes) (w : WorkerState env)
      → (execute_node_task env (store_data key payload) w).0 ≡ returned stored
      → (execute_node_task env
          (retrieve_data key)
          (execute_node_task env (store_data key payload) w).1).0
        ≡ returned (bytes payload)
  unfolding execute_node_task store_task retrieve_task Memory.store Memory.load Disk.store Disk.load
      Disk.write_file
  retrieve_after_store key payload w h = elim (Option-cases w.disk) [
    | inl e ↦ ground (arith, e, get-insert key key payload w.memory.inner, eq_refl key)
    | inr (d, e) ↦ ground (
      arith,
      e,
      h,
      get-insert (Disk.join d.dir key) (Disk.join d.dir key) payload w.files.contents,
      eq_refl (Disk.join d.dir key),
    )
  ]

  abbrev pub is_parsed : Task → Bool
  is_parsed (tcp addr payload) = is_some (env.network.parse addr)
  is_parsed (disk_write path payload) = false
  is_parsed _ = true

  -- No task but a `DiskWrite`, and a `Tcp` task whose address does not parse, can panic.
  pub execute_node_task-returns :
      (t : Task) (w : WorkerState env)
      → is_parsed t ≡ true
      → (execute_node_task env t w).0 ≢ panicked
  unfolding execute_node_task tcp_task connect_from
  execute_node_task-returns (compute e) w p h = ground (arith, h)
  execute_node_task-returns (http_request e) w p h = ground (arith, h)
  execute_node_task-returns (tcp addr payload) w p h = ground (arith, p, h)
  execute_node_task-returns (udp addr payload) w p h = ground (arith, h)
  execute_node_task-returns (complex_math e) w p h = ground (arith, h)
  execute_node_task-returns (store_data k b) w p h = ground (arith, h)
  execute_node_task-returns (retrieve_data k) w p h = ground (arith, h)
  execute_node_task-returns (disk_write k b) w p h = ground (arith, p)
  execute_node_task-returns (disk_read k) w p h = ground (arith, h)
  execute_node_task-returns get_global_ram w p h = ground (arith, h)
  execute_node_task-returns get_storage w p h = ground (arith, h)
