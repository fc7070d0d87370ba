-- ===== src/Master/Connection.antt =====
-- The state that a connection's task works on: the master, behind its mutexes, and its own socket.
use cpcluster.Prelude.{ok, err, Option, none, some, Error}
use cpcluster.Prelude.Action.{Action}
use cpcluster.Common.Protocol.{Bytes}
use cpcluster.Common.Wire.{Socket, send_frame}
use cpcluster.Master.State.{MasterNode}

pub record Connection : Type 0 where
  pub master : MasterNode
  pub socket : Socket

module _ {A : Type 0} where
  -- A critical section that returns a value.
  abbrev pub locked : (MasterNode → A × MasterNode) → Action Connection A
  locked f c = (ok (f c.master).0, record c { master = (f c.master).1 })

  -- A critical section that only reads.
  abbrev pub gets : (MasterNode → A) → Action Connection A
  gets f c = (ok (f c.master), c)

  abbrev pub or_fail : Option A → Error → Action Connection A
  or_fail none e c = (err e, c)
  or_fail (some a) e c = (ok a, c)

  abbrev pub fail : Error → Action Connection A
  fail e c = (err e, c)

  -- `if let Err(e) = … { …; return Err(e) }`
  abbrev pub on_error : (MasterNode → MasterNode) → Action Connection A → Action Connection A
  on_error f m c = elim (m c).0 [
    | ok a ↦ (ok a, (m c).1)
    | err e ↦ (err e, record { master = f (m c).1.master; socket = (m c).1.socket })
  ]

  -- `if let Err(e) = … { error!(…) }`
  abbrev pub ignoring : Action Connection A → Action Connection (Unit {0})
  ignoring m c = (ok tt, (m c).1)

-- A critical section that changes the master.
abbrev pub modify : (MasterNode → MasterNode) → Action Connection (Unit {0})
modify f c = (ok tt, record c { master = f c.master })

unfoldable pub send : Bytes → Action Connection (Unit {0})
send b c = ((send_frame b c.socket).0, record c { socket = (send_frame b c.socket).1 })
