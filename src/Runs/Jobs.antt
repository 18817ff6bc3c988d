-- ===== src/Runs/Jobs.antt =====
-- One running job per run (logo-admin/categories_runs.py): what each write to the job table does
-- to it.
use arb_data_warehouse.Prelude.{
  All, Among, Bool, Bool-cases, Distinct, List, [], any_of, ap, arith, contains, contains-key,
  count_if, false, inl, inr, map, nat_beq_iff, refl, sym, ℕ, ◌&&◌, ◌+◌, ◌<◌, ◌==◌, ◌∙◌, ◌∷◌, ◌≡◌,
  ◌≤◌, nat_eq, text_eq, pair_eq,
}
use arb_data_warehouse.Runs.Types.{Job, JobStatus, is_job_status}
use arb_data_warehouse.Runs.Store.{set_jobs}
use arb_data_warehouse.Runs.Controls.{is_running_job_of}

abbrev pub job_key : Job → ℕ
job_key j = j.job_id

-- Job ids are distinct and below the next one, and no run has two running jobs.
pub record IsSingle (jobs : List Job) (next : ℕ) : Type 0 where
  pub ids : Distinct (map job_key jobs)
  pub below : All (λ (j : Job). j.job_id < next) jobs
  pub one_running : (id : ℕ) → count_if (is_running_job_of id) jobs ≤ 1

-- A write that leaves the ids of a job alone and starts no job.
pub record KeepsJob (f : Job → Job) : Type 0 where
  pub id : (j : Job) → (f j).job_id ≡ j.job_id
  pub run : (j : Job) → (f j).run_id ≡ j.run_id
  pub stops : (j : Job) → is_job_status (f j).status JobStatus.running ≡ false

module _ (p : Job → Bool) (f : Job → Job) (id_kept : (j : Job) → (f j).job_id ≡ j.job_id) where
  map-set_jobs : (jobs : List Job) → map job_key (set_jobs p f jobs) ≡ map job_key jobs
  unfolding set_jobs
  map-set_jobs [] = refl
  map-set_jobs (j ∷ js) = elim (Bool-cases (p j)) [
    | inl e ↦ rw (e, id_kept j, map-set_jobs js)
    | inr e ↦ rw (e, map-set_jobs js)
  ]

  below-set_jobs :
      (next : ℕ) (jobs : List Job)
      → All (λ (j : Job). j.job_id < next) jobs
      → All (λ (j : Job). j.job_id < next) (set_jobs p f jobs)
  unfolding set_jobs
  below-set_jobs next [] h = tt
  below-set_jobs next (j ∷ js) h = elim (Bool-cases (p j)) [
    | inl e ↦ rw e (omega (arith, id_kept j), below-set_jobs next js h.1)
    | inr e ↦ rw e (h.0, below-set_jobs next js h.1)
  ]

fewer_running :
    (p : Job → Bool) (f : Job → Job) (id : ℕ) (jobs : List Job)
    → ((j : Job) → is_job_status (f j).status JobStatus.running ≡ false)
    → count_if (is_running_job_of id) (set_jobs p f jobs) ≤ count_if (is_running_job_of id) jobs
unfolding set_jobs count_if
fewer_running p f id [] k = omega arith
fewer_running p f id (j ∷ js) k = ground (arith, fewer_running p f id js k, k j)

pub IsSingle-set_jobs :
    (p : Job → Bool) (f : Job → Job) (jobs : List Job) (next : ℕ)
    → KeepsJob f
    → IsSingle jobs next
    → IsSingle (set_jobs p f jobs) next
IsSingle-set_jobs p f jobs next k inv = record {
  ids = rw (map-set_jobs p f k.id jobs) inv.ids;
  below = below-set_jobs p f k.id next jobs inv.below;
  one_running = λ id. omega (arith, fewer_running p f id jobs k.stops, inv.one_running id);
}

none_with_id :
    (k : ℕ) (jobs : List Job)
    → contains (map job_key jobs) k ≡ false
    → count_if (λ (j : Job). j.job_id == k) jobs ≡ 0
unfolding count_if contains
none_with_id k [] h = refl
none_with_id k (j ∷ js) h =
    ground (arith, none_with_id k js, nat_beq_iff k j.job_id, nat_beq_iff j.job_id k)

-- At most one job has an id.
one_with_id :
    (k : ℕ) (jobs : List Job)
    → Distinct (map job_key jobs)
    → count_if (λ (j : Job). j.job_id == k) jobs ≤ 1
unfolding count_if
one_with_id k [] d = omega arith
one_with_id k (j ∷ js) d = elim (Bool-cases (j.job_id == k)) [
  | inl e ↦
      let off : contains (map job_key js) k ≡ false =
        ap (contains (map job_key js)) (sym ((nat_beq_iff j.job_id k).0 e)) ∙ d.0 in
      rw e (omega (arith, none_with_id k js off))
  | inr e ↦ rw e (omega (arith, one_with_id k js d.1))
]

-- A write to jobs that pass a test starts at most that many jobs of a run.
started_running :
    (p : Job → Bool) (f : Job → Job) (id : ℕ) (jobs : List Job)
    → ((j : Job) → (f j).run_id ≡ j.run_id)
    → count_if (is_running_job_of id) (set_jobs p f jobs)
      ≤ count_if (is_running_job_of id) jobs + count_if (λ j. p j && j.run_id == id) jobs
unfolding set_jobs count_if
started_running p f id [] k = omega arith
started_running p f id (j ∷ js) k = ground (arith, started_running p f id js k, k j)

count_if-both :
    (p q : Job → Bool) (jobs : List Job) → count_if (λ j. p j && q j) jobs ≤ count_if p jobs
unfolding count_if
count_if-both p q [] = omega arith
count_if-both p q (j ∷ js) = ground (arith, count_if-both p q js)

-- The job that an id names is of its run alone.
of_one_run :
    (k : Job) (id : ℕ) (jobs : List Job)
    → Distinct (map job_key jobs)
    → Among k jobs
    → (k.run_id == id) ≡ false
    → count_if (λ (j : Job). j.job_id == k.job_id && j.run_id == id) jobs ≡ 0
unfolding count_if
of_one_run k id [] d m h = absurd m
of_one_run k id (j ∷ js) d (inl e) h =
    let off : contains (map job_key js) k.job_id ≡ false =
      ap (λ v. contains (map job_key js) v.job_id) e ∙ d.0 in
    ground (
      arith,
      none_with_id k.job_id js off,
      count_if-both (λ j. j.job_id == k.job_id) (λ j. j.run_id == id) js,
      ap (λ (v : Job). v.run_id) e,
    )
of_one_run k id (j ∷ js) d (inr m) h = ground (
  arith,
  of_one_run k id js d.1 m h,
  nat_beq_iff j.job_id k.job_id,
  contains-key job_key k js m,
  ap (contains (map job_key js)) {x = j.job_id} {y = k.job_id},
)

none_running : (p : Job → Bool) (jobs : List Job) → any_of p jobs ≡ false → count_if p jobs ≡ 0
unfolding count_if any_of
none_running p [] h = refl
none_running p (j ∷ js) h = ground (arith, none_running p js)

-- Starting one job of a run that has no running job.
pub IsSingle-claim :
    (k : Job) (f : Job → Job) (jobs : List Job) (next : ℕ)
    → ((j : Job) → (f j).job_id ≡ j.job_id)
    → ((j : Job) → (f j).run_id ≡ j.run_id)
    → Among k jobs
    → any_of (is_running_job_of k.run_id) jobs ≡ false
    → IsSingle jobs next
    → IsSingle (set_jobs (λ (j : Job). j.job_id == k.job_id) f jobs) next
IsSingle-claim k f jobs next id_kept run_kept m idle inv = record {
  ids = rw (map-set_jobs _ f id_kept jobs) inv.ids;
  below = below-set_jobs _ f id_kept next jobs inv.below;
  one_running = λ id. ground (
    arith,
    started_running (λ (j : Job). j.job_id == k.job_id) f id jobs run_kept,
    count_if-both (λ (j : Job). j.job_id == k.job_id) (λ j. j.run_id == id) jobs,
    one_with_id k.job_id jobs inv.ids,
    of_one_run k id jobs inv.ids m,
    none_running (is_running_job_of k.run_id) jobs idle,
    inv.one_running id,
    nat_beq_iff k.run_id id,
    ap (λ v. count_if (is_running_job_of v) jobs) {x = k.run_id} {y = id},
  );
}

same_running :
    (p : Job → Bool) (f : Job → Job) (id : ℕ) (jobs : List Job)
    → ((j : Job) → is_running_job_of id (f j) ≡ is_running_job_of id j)
    → count_if (is_running_job_of id) (set_jobs p f jobs) ≡ count_if (is_running_job_of id) jobs
unfolding set_jobs count_if
same_running p f id [] k = refl
same_running p f id (j ∷ js) k = ground (arith, same_running p f id js k, k j)

-- A write that leaves the id, the run and the status of a job alone.
pub IsSingle-same :
    (p : Job → Bool) (f : Job → Job) (jobs : List Job) (next : ℕ)
    → ((j : Job) → (f j).job_id ≡ j.job_id)
    → ((id : ℕ) (j : Job) → is_running_job_of id (f j) ≡ is_running_job_of id j)
    → IsSingle jobs next
    → IsSingle (set_jobs p f jobs) next
IsSingle-same p f jobs next id_kept k inv = record {
  ids = rw (map-set_jobs p f id_kept jobs) inv.ids;
  below = below-set_jobs p f id_kept next jobs inv.below;
  one_running = λ id. omega (arith, same_running p f id jobs (k id), inv.one_running id);
}
