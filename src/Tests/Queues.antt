-- ===== src/Tests/Queues.antt =====
-- The operations of kernel/queues.c on the sample.
use os_team.Base.{refl, arith, [], ◌∷◌, Returns}
use os_team.Queues.Qnodes.{qnode_alloc}
use os_team.Queues.Qnodes.Take.{Taken, qnode_alloc-Taken}
use os_team.Queues.Ops
use os_team.Queues.Ops.Insert.{Inserts}
use os_team.Queues.Ops.Enqueue.{enqueue, insert-enqueue}
use os_team.Queues.Ops.Dequeue.{Dequeues, remove-Dequeues}
use os_team.Queues.Ops.Withdraw.{Withdraws, remove_by-Withdraws}
use os_team.Procs.State.{call, local}
use os_team.Tests.Sample.{que0, view0, os0, que0-Models}

qnode_alloc-Taken_example : Returns (Taken que0 view0 1) (qnode_alloc que0)
qnode_alloc-Taken_example = qnode_alloc-Taken que0-Models 1 refl

-- A process that wakes between the two sleepers goes between them.
insert-enqueue_example :
    Returns
      (Inserts view0 1 3 (enqueue (call os0.ptable) 1 2 (3 ∷ 4 ∷ [])))
      (Ops.insert (call os0.ptable) 4 2 que0)
insert-enqueue_example =
    insert-enqueue (call os0.ptable) 1 3 2 que0-Models refl (omega arith) (omega arith)

remove-Dequeues_example : Returns (Dequeues que0 view0 3 (3 ∷ 4 ∷ [])) (Ops.remove 4 local que0)
remove-Dequeues_example = remove-Dequeues que0-Models 3 local (omega arith) (λ e. cc)

remove_by-Withdraws_example :
    Returns (Withdraws que0 view0 3 4 (3 ∷ 4 ∷ [])) (Ops.remove_by 4 4 que0)
remove_by-Withdraws_example = remove_by-Withdraws que0-Models 3 4 (omega arith) (λ e. cc)
