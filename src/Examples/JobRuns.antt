-- ===== src/Examples/JobRuns.antt =====
-- The theorems on the runner of background jobs at a run of three jobs.
use voter_api.Prelude.{◌≡◌, refl, ◌≤◌, ◌-◌, some, arith, count_where}
use voter_api.Background.Runner.{
  Runner, JobStatus, running, returned, Steps, here, then, submits, starts, finishes, submit_task,
  start, finish, get_status, is_holding, new_job, begin, new_runner,
}
use voter_api.Background.Slots.{Steps-slots}
use voter_api.Background.Progress.{IsForward, Steps-get_status}

abbrev two_running : Runner
two_running = start 2 (start 1 (submit_task 3 (submit_task 2 (submit_task 1 new_runner))))

abbrev one_over : Runner
one_over = start 3 (finish returned 1 two_running)

gets_two : Steps new_runner two_running
unfolding submit_task start
gets_two =
    then
      (then
        (then (then (then here (submits 1 refl refl)) (submits 2 refl refl)) (submits 3 refl refl))
        (starts 1 (new_job 1) refl (omega arith) refl))
      (starts 2 (new_job 2) refl (omega arith) refl)

goes_on : Steps two_running one_over
unfolding submit_task start finish
goes_on =
    then (then here (finishes 1 (begin (new_job 1)) returned refl refl))
      (starts 3 (new_job 3) refl (omega arith) refl)

Steps-slots_example :
    (count_where is_holding two_running.jobs ≤ 2)
    × (two_running.free ≡ 2 - count_where is_holding two_running.jobs)
Steps-slots_example = Steps-slots gets_two

knows_one : get_status two_running 1 ≡ some running
unfolding get_status submit_task start
knows_one = refl

Steps-get_status_example : (b : JobStatus) × (get_status one_over 1 ≡ some b) × IsForward running b
Steps-get_status_example = Steps-get_status gets_two goes_on 1 running knows_one
