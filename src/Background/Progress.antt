-- ===== src/Background/Progress.antt =====
-- What `get_status` answers about one job as time passes.
use voter_api.Prelude.{
  ℕ, ◌≡◌, ◌≢◌, refl, ◌⊎◌, inl, inr, true, false, some, List, [], ◌∷◌, arith, find, find-pass, All,
  All-append, All-write, All-find, Extends, Extends-refl, Extends-append, Extends-write,
  Extends-trans, Option-cases, Bool-cases,
}
use voter_api.Background.Runner.{
  Runner, Job, JobStatus, pending, running, Ending, cancelled, Step, Steps, Steps-induction,
  submits, starts, finishes, withdraws, submit_task, start, finish, withdraw, get_status, job_at,
  is_waiting, is_holding, waiting_at, holding_at, begin, end_with, new_job, new_runner,
}

-- A status never goes back: a job that is over stays as it is.
abbrev pub IsForward : JobStatus → JobStatus → Type 0
IsForward a b = (a ≡ b) ⊎ (a ≡ pending) ⊎ ((a ≡ running) × (b ≢ pending))

IsForward-trans : (a b c : JobStatus) → IsForward a b → IsForward b c → IsForward a c
IsForward-trans a b c h k = ground arith

-- a job that waits is pending, and one that holds a slot is running
pub record IsSound (j : Job) : Type 0 where
  pub waits : is_waiting j ≡ true → j.status ≡ pending
  pub holds : is_holding j ≡ true → j.status ≡ running

pub record Moves (a b : Job) : Type 0 where
  pub same_id : a.id ≡ b.id
  pub forward : IsForward a.status b.status

Moves-refl : (a : Job) → Moves a a
Moves-refl a = record { same_id = refl; forward = inl refl }

Moves-trans : (a b c : Job) → Moves a b → Moves b c → Moves a c
Moves-trans a b c h k = record {
  same_id = cc;
  forward = IsForward-trans a.status b.status c.status h.forward k.forward;
}

Step-IsSound : (r s : Runner) → Step r s → All IsSound r.jobs → All IsSound s.jobs
unfolding submit_task start finish withdraw
Step-IsSound r s (submits i fresh e) h = rw e (
    All-append IsSound r.jobs (new_job i ∷ []) h
      (record { waits = λ _. refl; holds = λ p. ground arith }, tt))
Step-IsSound r s (starts i j found free e) h = rw e (
    All-write IsSound (waiting_at i) begin r.jobs
      (λ a is_a good. record { waits = λ p. ground arith; holds = λ _. refl }) h)
Step-IsSound r s (finishes i j ending found e) h = rw e (
    All-write IsSound (holding_at i) (end_with ending) r.jobs
      (λ a is_a good. record { waits = λ p. ground arith; holds = λ p. ground arith }) h)
Step-IsSound r s (withdraws i j found e) h = rw e (
    All-write IsSound (waiting_at i) (end_with cancelled) r.jobs
      (λ a is_a good. record { waits = λ p. ground arith; holds = λ p. ground arith }) h)

-- a sound job that is begun or ended moves forward
begin-Moves : (a : Job) → IsSound a → is_waiting a ≡ true → Moves a (begin a)
begin-Moves a good waits = record { same_id = refl; forward = inr (inl (good.waits waits)) }

end-Moves : (a : Job) (e : Ending) → IsSound a → is_holding a ≡ true → Moves a (end_with e a)
end-Moves a Ending.returned good holds = record {
  same_id = refl;
  forward = inr (inr (good.holds holds, λ p. ground arith));
}
end-Moves a Ending.raised good holds = record {
  same_id = refl;
  forward = inr (inr (good.holds holds, λ p. ground arith));
}
end-Moves a cancelled good holds = record { same_id = refl; forward = inl refl }

Step-Moves : (r s : Runner) → Step r s → All IsSound r.jobs → Extends Moves r.jobs s.jobs
unfolding submit_task start finish withdraw
Step-Moves r s (submits i fresh e) h =
    rw e (Extends-append Moves Moves-refl r.jobs (new_job i ∷ []))
Step-Moves r s (starts i j found free e) h = rw e (
    Extends-write Moves Moves-refl (waiting_at i) begin r.jobs (λ a is_a.
      let good = All-find IsSound (waiting_at i) r.jobs h is_a in
      begin-Moves a good (ground (arith, find-pass (waiting_at i) r.jobs is_a))))
Step-Moves r s (finishes i j ending found e) h = rw e (
    Extends-write Moves Moves-refl (holding_at i) (end_with ending) r.jobs (λ a is_a.
      let good = All-find IsSound (holding_at i) r.jobs h is_a in
      end-Moves a ending good (ground (arith, find-pass (holding_at i) r.jobs is_a))))
Step-Moves r s (withdraws i j found e) h = rw e (
    Extends-write Moves Moves-refl (waiting_at i) (end_with cancelled) r.jobs
      (λ a is_a. record { same_id = refl; forward = inl refl }))

Steps-Moves : {r s : Runner} → Steps new_runner r → Steps r s → Extends Moves r.jobs s.jobs
Steps-Moves {r} before path =
    let sound = Steps-induction (λ t. All IsSound t.jobs) Step-IsSound before tt in
    (Steps-induction (λ t. All IsSound t.jobs × Extends Moves r.jobs t.jobs)
      (λ t u step h. (
        Step-IsSound t u step h.0,
        Extends-trans Moves Moves-trans r.jobs t.jobs u.jobs h.1 (Step-Moves t u step h.0),
      ))
      path (sound, Extends-refl Moves Moves-refl r.jobs)).1

find-Moves :
    (xs ys : List Job) (i : ℕ) (a : Job)
    → Extends Moves xs ys
    → find (job_at i) xs ≡ some a
    → (b : Job) × (find (job_at i) ys ≡ some b) × IsForward a.status b.status
find-Moves [] ys i a h found = absurd (ground arith)
find-Moves (x ∷ xs) [] i a h found = absurd h
find-Moves (x ∷ xs) (y ∷ ys) i a h found = elim (Bool-cases (job_at i x)) [
  | inl e ↦
      let same : x ≡ a = ground arith in
      let here : job_at i y ≡ true = rw (← h.0.same_id) e in
      (y, rw here refl, rw (← same) h.0.forward)
  | inr e ↦
      let not_here : job_at i y ≡ false = rw (← h.0.same_id) e in
      let (b, there, forward) = find-Moves xs ys i a h.1 (rw e at found) in
      (b, rw not_here there, forward)
]

-- However the tasks of a new runner interleave and end: a job whose status was known at one time
-- has a status at every later time. A pending job may have any status later, a running job any but
-- pending, and a completed or failed job keeps its status.
pub Steps-get_status :
    {r s : Runner}
    → Steps new_runner r
    → Steps r s
    → (i : ℕ) (a : JobStatus) → get_status r i ≡ some a
    → (b : JobStatus) × (get_status s i ≡ some b) × IsForward a b
unfolding get_status
Steps-get_status {r} {s} before path i a known = elim (Option-cases (find (job_at i) r.jobs)) [
  | inl e ↦ absurd (ground arith)
  | inr (j, e) ↦
      let (k, found, forward) = find-Moves r.jobs s.jobs i j (Steps-Moves before path) e in
      let is_a : j.status ≡ a = ground arith in
      (k.status, rw (get_status, found) refl, rw (← is_a) forward)
]
