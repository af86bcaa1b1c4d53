-- ===== src/Fm/Jobs/Exec/Sources.antt =====
-- What a job to trash does to its sources.
use isde.Common.{
  ℕ, suc, ◌+◌, ◌==◌, ◌≡◌, refl, Bool, true, not, ◌&&◌, List, [], ◌∷◌, if◌then◌else◌, Bool-cases,
  arith, inl, inr, length, Str,
}
use isde.Fm.Jobs.{Job, trash, new_job}
use isde.Fm.Jobs.Exec.{Answer, FileOps, for_sources, trash_one, exec_trash, exec}

-- The sources before the first load that gives true.
abbrev pub until_cancelled : (ℕ → Bool) → ℕ → List Str → List Str
until_cancelled cs i [] = []
until_cancelled cs i (src ∷ srcs) =
    let rest = until_cancelled cs (suc i) srcs in if cs i then [] else src ∷ rest

module _ {W : Type 0} (op : Str → W → Answer × W) where
  -- The answers for the sources one after the other, and the file system behind them.
  abbrev pub answers : List Str → W → List Answer
  answers [] w = []
  answers (src ∷ srcs) w = (op src w).0 ∷ answers srcs (op src w).1

  abbrev pub world_after : List Str → W → W
  world_after [] w = w
  world_after (src ∷ srcs) w = world_after srcs (op src w).1

-- The first errno that a failure left and that is not 0.
abbrev pub first_error : List Answer → ℕ
first_error [] = 0
first_error (a ∷ as') =
    let rest = first_error as' in if a.failed && not (a.errno == 0) then a.errno else rest

abbrev or_first : ℕ → List Answer → ℕ
or_first e as' = if e == 0 then first_error as' else e

module _ {W : Type 0} (ops : FileOps W) (cs : ℕ → Bool) where
  record Trashed (i : ℕ) (srcs : List Str) (j : Job) (w : W) (r : Job × W) : Type 0 where
    world : r.1 ≡ world_after ops.trash_path (until_cancelled cs i srcs) w
    error : r.0.error ≡ or_first j.error (answers ops.trash_path (until_cancelled cs i srcs) w)
    done : (i ≡ j.files_done) → r.0.files_done ≡ i + length (until_cancelled cs i srcs)
    counts : r.0.files_total ≡ j.files_total

  for_sources-Trashed :
      (i : ℕ) (srcs : List Str) (j : Job) (w : W)
      → Trashed i srcs j w (for_sources ops cs (trash_one ops cs) i srcs j w)
  for_sources-Trashed i [] j w = record {
    world = refl;
    error = ground arith;
    done = λ e. omega arith;
    counts = refl;
  }
  for_sources-Trashed i (src ∷ srcs) j w = elim (Bool-cases (cs i)) [
    | inl e ↦ record {
      world = rw e refl;
      error = rw e (ground arith);
      done = λ e'. rw e (omega arith);
      counts = rw e refl;
    }
    | inr e ↦
        let next = trash_one ops cs i src j w in
        let ih = for_sources-Trashed (suc i) srcs (next.0) (next.1) in
        record {
          world = rw e (ih.world);
          error = rw e (ground (arith, ih.error));
          done = λ e'. rw e (omega (arith, ih.done refl));
          counts = rw e (ground (arith, ih.counts));
        }
  ]

  -- What the execution of a job to trash leaves, when it trashes the sources `srcs` out of `total`.
  pub record TrashDone (srcs : List Str) (total : ℕ) (w : W) (r : Job × W) : Type 0 where
    pub world : r.1 ≡ world_after ops.trash_path srcs w
    pub error : r.0.error ≡ first_error (answers ops.trash_path srcs w)
    pub done : r.0.files_done ≡ length srcs
    pub all : r.0.files_total ≡ total
    pub finished : r.0.finished ≡ true

  -- The execution of a new job to trash: the sources before the first load that gives true are trashed in their
  -- order and no others, the job's error is the first errno other than 0 that a failure left, its count is the
  -- number of these sources out of all, and it is finished.
  pub exec-TrashDone :
      (srcs : List Str) (dst : Str) (w : W)
      → TrashDone
          (until_cancelled cs 0 srcs)
          (length srcs)
          w
          (exec ops cs (new_job trash srcs dst) w)
  unfolding exec exec_trash
  exec-TrashDone srcs dst w =
      let j = record (new_job trash srcs dst) { files_total = length srcs } in
      let t = for_sources-Trashed 0 srcs j w in
      record {
        world = t.world;
        error = t.error;
        done = omega (arith, t.done refl);
        all = t.counts;
        finished = refl;
      }
