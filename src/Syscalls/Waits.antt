-- ===== src/Syscalls/Waits.antt =====
-- sys_wait of kernel/syscalls.c.
use os_team.Base.{
  ℕ, suc, ◌+◌, ◌≡◌, ◌≢◌, Bool, ◌&&◌, ◌==◌, if◌then◌else◌, Option, none, some, get_elem?,
}
use os_team.Base.Chain.{null}
use os_team.Text.Words.{store_word}
use os_team.Queues.Model.{View}
use os_team.Procs.State.{Os, Pcb, PcbPtr, State, with_pcb}
use os_team.Procs.Table.{is_child}
use os_team.Procs.Table.Cleanup.{Cleaned}
use os_team.Clock.Running.{Running}
use os_team.Clock.Switch.{Resumes}
use os_team.Machine.{Machine, with_os, eax_at}
use os_team.Syscalls.Simple.{s_no_child}
use os_team.Syscalls.Exit.{is_zombie}
use os_team.Syscalls.Adopt.{kids}
use os_team.Syscalls.Told.{told}

-- A child that has exited.
abbrev pub is_exited : PcbPtr → PcbPtr → Pcb → Bool
is_exited pcb ptr p = is_child pcb ptr p && is_zombie p.state

-- The outcome of `sys_wait`, by the scan for a child that has exited. One is told and cleaned up; else
-- there is no child, or the process is waiting and the system runs on with another process.
abbrev pub Waited :
    (m : Machine) {v : View} → Running m.clk.os v → Option PcbPtr → Unit {0} → Machine → Type 0
Waited m k (some ptr) _ m' =
    (jx : ℕ) × (c : Pcb) × (ptr ≡ suc jx)
    × (get_elem? m.clk.os.ptable jx ≡ some c)
    × (s : Os) × (m' ≡ with_os (record m { mem = told k.pcb c m.mem }) s)
    × Cleaned m.clk.os jx c s
Waited m {v} k none _ m' =
    if kids (suc k.ix) 0 m.clk.os.ptable == 0
    then m' ≡ record m { mem = store_word (k.pcb.context + eax_at) s_no_child m.mem }
    else (s : Os) × (m' ≡ with_os m s)
      × Resumes (with_pcb m.clk.os k.ix (record (k.pcb) { state = State.waiting })) v s

module _ (m : Machine) {v : View} (k : Running m.clk.os v) (saved : k.pcb.context ≢ null) where
  waits : Pcb
  waits = record (k.pcb) { state = State.waiting }
