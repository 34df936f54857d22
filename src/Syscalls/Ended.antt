-- ===== src/Syscalls/Ended.antt =====
-- What sys_exit of kernel/syscalls.c makes of a running system, as a relation of two machines.
use os_team.Base.{ℕ, suc, ◌-◌, ◌≡◌, if◌then◌else◌, some, [], ◌∷◌, ◌++◌, get_elem?, set}
use os_team.Queues.Model.{View, with_items}
use os_team.Procs.State.{Os, Pcb, PcbPtr, State}
use os_team.Procs.Model.{zombie_ix}
use os_team.Clock.Running.{Running}
use os_team.Clock.Switch.{Resumes}
use os_team.Machine.{Machine, with_os}
use os_team.Syscalls.Exit.{is_waiting}
use os_team.Syscalls.Adopt.{adopt, given}
use os_team.Syscalls.Reparent.{with_table}
use os_team.Syscalls.Woken.{HandsOver}
use os_team.Syscalls.Told.{told}

-- The process module with the status stored and the children given to init.
abbrev pub orphaned : (s : Os) {v : View} → Running s v → (status : ℕ) → Os
orphaned s k status =
    with_table s
      (adopt s.init_pcb (suc k.ix) 0 (set s.ptable k.ix (record (k.pcb) { status = status })))

-- A process of the table, which may have been given to init.
abbrev pub At : Os → ℕ → Pcb → Pcb → Type 0
At s ix p q = (a : PcbPtr) × (q ≡ given a p) × (get_elem? s.ptable ix ≡ some q)

-- The parent has been told, and is ready; the process is cleaned up.
abbrev pub WokeParent :
    (m : Machine) {v : View} → Running m.clk.os v → (px : ℕ) → Pcb → ℕ → Machine → Type 0
WokeParent m {v} k px parent status m' =
    let exiting : Pcb = record (k.pcb) { status = status } in
    (s : Os) × (m' ≡ with_os (record m { mem = told parent exiting m.mem }) s)
    × (p q : Pcb) × At (orphaned m.clk.os k status) px parent p
    × At (orphaned m.clk.os k status) k.ix exiting q
    × HandsOver (orphaned m.clk.os k status) v (v.room - 1) px k.ix p q tt s

-- The process is a zombie, at the end of the zombie queue.
abbrev pub LeftZombie : (m : Machine) {v : View} → Running m.clk.os v → ℕ → Machine → Type 0
LeftZombie m {v} k status m' =
    let s0 = orphaned m.clk.os k status in
    (s : Os) × (m' ≡ with_os m s)
    × (q : Pcb) × At s0 k.ix (record (k.pcb) { status = status }) q
    × Resumes (record s0 { ptable = set s0.ptable k.ix (record q { state = State.zombie }) })
        (with_items v (v.room - 1) zombie_ix (v.items zombie_ix ++ suc k.ix ∷ [])) s

-- The outcome of an exit with this status.
abbrev pub Exited :
    (m : Machine) {v : View} → Running m.clk.os v → (px : ℕ) → Pcb → ℕ → Unit {0} → Machine → Type 0
Exited m k px parent status _ m' =
    if is_waiting parent.state then WokeParent m k px parent status m' else LeftZombie m k status m'
