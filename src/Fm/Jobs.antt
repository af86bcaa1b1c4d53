-- ===== src/Fm/Jobs.antt =====
-- fm/src/jobqueue.c: the jobs of the file manager and the two linked lists that they are on. A pointer is an
-- address of the store, and NULL is none; an operation is none when it reads or writes a job that is freed.
-- A job's byte counts, which only its progress dialog reads, are left out.
pub mod Exec
pub mod Run
pub mod Chain
pub mod Represents
pub mod Ops
pub mod Submit
pub mod Safety
pub mod WorkerSafety
pub mod MainSafety
pub mod Order
pub mod Wake
pub mod Asleep
pub mod Ran
mod Tests
use isde.Common.{
  ℕ, ◌==◌, Bool, true, false, List, [], ◌∷◌, Option, none, some, Str, if◌then◌else◌, ◌>>=◌,
}

-- FmJobType
pub data JobType : Type 0 where
  copy move delete trash empty_trash : JobType

pub record Job : Type 0 where
  pub type : JobType
  pub src_paths : List Str
  pub dst_dir : Str
  pub files_done : ℕ
  pub files_total : ℕ
  pub cancelled : Bool
  pub finished : Bool
  pub error : ℕ
  pub next : Option ℕ

pub record Heap : Type 0 where
  pub cell : ℕ → Option Job

abbrev pub load : ℕ → Heap → Option Job
load p h = h.cell p

-- malloc, and the writes through a valid pointer
abbrev pub put : ℕ → Option Job → Heap → Heap
put p c h = record { cell = λ q. if p == q then c else h.cell q }

abbrev pub update : ℕ → (Job → Job) → Heap → Option Heap
update p f h = do j ← load p h; some (put p (some (f j)) h)

-- `job_alloc`. A job without a destination has the empty one.
abbrev pub new_job : JobType → List Str → Str → Job
new_job type srcs dst_dir = record {
  type = type;
  src_paths = srcs;
  dst_dir = dst_dir;
  files_done = 0;
  files_total = 0;
  cancelled = false;
  finished = false;
  error = 0;
  next = none;
}

-- `job_free`
abbrev pub job_free : ℕ → Heap → Option Heap
job_free p h = do j ← load p h; some (put p none h)

-- The fields of `FmApp` that the queue uses, and the static `done_head`.
pub record Lists : Type 0 where
  pub heap : Heap
  pub job_head : Option ℕ
  pub job_tail : Option ℕ
  pub done_head : Option ℕ

abbrev pub link_tail : Option ℕ → ℕ → Heap → Option Heap
link_tail none p h = some h
link_tail (some tail) p h = update tail (λ j. record j { next = some p }) h

unfoldable pub enqueue_pending : ℕ → Lists → Option Lists
enqueue_pending p l = do
  h ← link_tail l.job_tail p l.heap
  some (record {
    heap = h;
    job_head = elim l.job_tail [ none ↦ some p | some tail ↦ l.job_head ];
    job_tail = some p;
    done_head = l.done_head;
  })

abbrev pub unlinked : Job → Job
unlinked j = record j { next = none }

-- The part of `dequeue_pending` behind the wait, for the job at the head.
unfoldable pub take_head : ℕ → Lists → Option Lists
take_head p l = do
  j ← load p l.heap
  some (record {
    heap = put p (some (unlinked j)) l.heap;
    job_head = j.next;
    job_tail = elim j.next [ none ↦ none | some q ↦ l.job_tail ];
    done_head = l.done_head;
  })

unfoldable pub enqueue_done : ℕ → Lists → Option Lists
enqueue_done p l = do
  h ← update p (λ j. record j { next = l.done_head }) l.heap
  some (record l { heap = h; done_head = some p })

unfoldable pub drain_done : Lists → Option ℕ × Lists
drain_done l = (l.done_head, record l { done_head = none })
