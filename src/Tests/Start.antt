-- ===== src/Tests/Start.antt =====
-- The start of the queue and the process module.
use os_team.Base.{[], ◌∷◌, replicate, refl, Returns}
use os_team.Base.Chain.{null}
use os_team.Queues.State.{Que, n_queues, que_free_flag}
use os_team.Queues.Table
use os_team.Queues.Table.Start.{Started}
use os_team.Procs.State.{Os}
use os_team.Procs.Table.{pcb_init}
use os_team.Procs.Start.{Idle, pcb_init-Idle}
use os_team.Tests.Sample.{que0, os0}
use os_team.Tests.Kmem.{km1}

abbrev que1 : Que
que1 = record que0 { km = km1 }

-- The queues as `que_init` leaves them.
abbrev os2 : Os
os2 = record os0 {
  que = record que0 {
    queues = replicate n_queues (Table.clear_queue null);
    queue_free = replicate n_queues que_free_flag;
  };
}

os2-Started : Started os2.que (100 ∷ 101 ∷ [])
os2-Started = record {
  queues = refl;
  queue_free = refl;
  pool = (refl, (λ e. cc), refl, (refl, (λ e. cc), refl, refl));
}

pcb_init-Idle_example : Returns (λ _ s'. Idle 2 s') (pcb_init os2)
pcb_init-Idle_example = pcb_init-Idle os2 (100 ∷ 101 ∷ []) os2-Started
