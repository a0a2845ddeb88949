-- ===== src/Background/Runner.antt =====
-- core/background.py: `InProcessTaskRunner`. The coroutine of a job is a parameter: what is seen of
-- it is when it gets a slot of the semaphore and how it ends. The steps of the tasks interleave as
-- the event loop likes; a step is what happens between two awaits.
use voter_api.Prelude.{
  ℕ, Bool, true, false, ◌&&◌, Option, none, some, List, [], ◌∷◌, ◌++◌, ◌+◌, ◌-◌, ◌<◌, ◌≡◌, ◌==◌,
  find, write,
}

pub data JobStatus : Type 0 where
  pending running completed failed : JobStatus

-- Where the task of a job is: before the semaphore, inside of `async with`, or over.
pub data Phase : Type 0 where
  waiting holding ended : Phase

pub record Job : Type 0 where
  pub id : ℕ
  pub status : JobStatus
  pub phase : Phase

-- `_jobs` with the phase of each task, and the value of the semaphore
pub record Runner : Type 0 where
  pub jobs : List Job
  pub free : ℕ

-- `asyncio.Semaphore(2)`
abbrev pub slots : ℕ
slots = 2

abbrev pub new_runner : Runner
new_runner = record { jobs = []; free = slots }

abbrev pub is_waiting : Job → Bool
is_waiting j = elim j.phase [ waiting ↦ true | _ ↦ false ]

abbrev pub is_holding : Job → Bool
is_holding j = elim j.phase [ holding ↦ true | _ ↦ false ]

abbrev pub job_at : ℕ → Job → Bool
job_at i j = j.id == i

abbrev pub waiting_at : ℕ → Job → Bool
waiting_at i j = j.id == i && is_waiting j

abbrev pub holding_at : ℕ → Job → Bool
holding_at i j = j.id == i && is_holding j

abbrev pub new_job : ℕ → Job
new_job i = record { id = i; status = pending; phase = waiting }

-- `self._jobs[job_id] = JobStatus.PENDING`, and the task is created
unfoldable pub submit_task : ℕ → Runner → Runner
submit_task i r = record r { jobs = r.jobs ++ new_job i ∷ [] }

abbrev pub begin : Job → Job
begin j = record j { status = running; phase = holding }

-- the task enters `async with`, and the job is running
unfoldable pub start : ℕ → Runner → Runner
start i r = record r { jobs = write (waiting_at i) begin r.jobs; free = r.free - 1 }

-- How the coroutine ends: it returns, it raises an Exception, or its task is cancelled, which is
-- none for the handler.
pub data Ending : Type 0 where
  returned raised cancelled : Ending

abbrev pub status_after : Ending → JobStatus → JobStatus
status_after returned s = completed
status_after raised s = failed
status_after cancelled s = s

abbrev pub end_with : Ending → Job → Job
end_with e j = record j { status = status_after e j.status; phase = ended }

-- the coroutine ends, and the slot is given back
unfoldable pub finish : Ending → ℕ → Runner → Runner
finish e i r = record r { jobs = write (holding_at i) (end_with e) r.jobs; free = r.free + 1 }

-- the task is cancelled before it has a slot
unfoldable pub withdraw : ℕ → Runner → Runner
withdraw i r = record r { jobs = write (waiting_at i) (end_with cancelled) r.jobs }

-- `self._jobs[job_id]`, where a missing key raises KeyError
unfoldable pub get_status : Runner → ℕ → Option JobStatus
get_status r i = elim (find (job_at i) r.jobs) [ none ↦ none | some j ↦ some j.status ]

-- One step of the event loop. A job id is a fresh UUID.
pub data Step (r s : Runner) : Type 0 where
  submits : (i : ℕ) → find (job_at i) r.jobs ≡ none → s ≡ submit_task i r → Step r s
  starts :
      (i : ℕ) (j : Job)
      → find (waiting_at i) r.jobs ≡ some j
      → 0 < r.free
      → s ≡ start i r
      → Step r s
  finishes :
      (i : ℕ) (j : Job) (e : Ending)
      → find (holding_at i) r.jobs ≡ some j
      → s ≡ finish e i r
      → Step r s
  withdraws : (i : ℕ) (j : Job) → find (waiting_at i) r.jobs ≡ some j → s ≡ withdraw i r → Step r s

pub data Steps (r : Runner) : Runner → Type 0 where
  here : Steps r r
  then : {s t : Runner} → Steps r s → Step s t → Steps r t

-- To keep a property, keep it over each step.
pub Steps-induction :
    (P : Runner → Type 0)
    → ((r s : Runner) → Step r s → P r → P s)
    → {r s : Runner} → Steps r s
    → P r
    → P s
Steps-induction P keep here h = h
Steps-induction P keep (then {s} {t} path last) h = keep s t last (Steps-induction P keep path h)
