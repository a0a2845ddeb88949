-- ===== src/Background/Slots.antt =====
-- The semaphore: its value and the jobs that hold a slot.
use voter_api.Prelude.{
  ◌+◌, ◌-◌, ◌≤◌, ◌≡◌, refl, [], ◌∷◌, arith, find-pass, count_where, count_where-append,
  count_where-write,
}
use voter_api.Background.Runner.{
  Runner, Step, Steps, Steps-induction, submits, starts, finishes, withdraws, submit_task, start,
  finish, withdraw, is_holding, waiting_at, holding_at, begin, end_with, new_job, new_runner, slots,
  cancelled,
}

-- the free slots and the jobs that hold one make up all slots
abbrev pub HasAllSlots : Runner → Type 0
HasAllSlots r = r.free + count_where is_holding r.jobs ≡ slots

Step-HasAllSlots : (r s : Runner) → Step r s → HasAllSlots r → HasAllSlots s
unfolding submit_task start finish withdraw
Step-HasAllSlots r s (submits i fresh e) h =
    rw e (ground (arith, count_where-append is_holding r.jobs (new_job i ∷ [])))
Step-HasAllSlots r s (starts i j found free e) h =
    let count = count_where-write is_holding (waiting_at i) begin r.jobs found in
    let was = find-pass (waiting_at i) r.jobs found in rw e (ground arith)
Step-HasAllSlots r s (finishes i j ending found e) h =
    let count = count_where-write is_holding (holding_at i) (end_with ending) r.jobs found in
    let was = find-pass (holding_at i) r.jobs found in rw e (ground arith)
Step-HasAllSlots r s (withdraws i j found e) h =
    let count = count_where-write is_holding (waiting_at i) (end_with cancelled) r.jobs found in
    let was = find-pass (waiting_at i) r.jobs found in rw e (ground arith)

-- However the tasks of a new runner interleave, and however they end, at most two jobs hold a slot
-- at any time, and no slot is lost: those that no job holds are free.
pub Steps-slots :
    {r : Runner}
    → Steps new_runner r
    → (count_where is_holding r.jobs ≤ 2) × (r.free ≡ 2 - count_where is_holding r.jobs)
Steps-slots {r} path =
    let all = Steps-induction HasAllSlots Step-HasAllSlots path refl in (omega arith, omega arith)
