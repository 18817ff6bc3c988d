-- ===== src/Runs/Exclusive.antt =====
-- One active run per environment (logo-admin/categories_runs.py): what each kind of write to the
-- run table does to it.
use arb_data_warehouse.Prelude.{
  All, Bool, Bool-cases, Distinct, List, Text, [], any_of, ap, arith, bit, contains, count_if,
  false, inl, inr, map, nat_beq_iff, none, refl, some, sym, text_beq, text_beq_iff, true, ℕ, ◌&&◌,
  ◌+◌, ◌<◌, ◌==◌, ◌∙◌, ◌∷◌, ◌≡◌, ◌≤◌, nat_eq, text_eq, pair_eq,
}
use arb_data_warehouse.Runs.Types.{Run}
use arb_data_warehouse.Runs.Store.{find_run, is_active, is_other_active, set_run}

abbrev pub run_key : Run → ℕ
run_key r = r.run_id

-- An active run of an environment.
abbrev pub is_active_in : Text → Run → Bool
is_active_in env r = r.env == env && is_active r.status

-- Run ids are distinct and below the next one, and no environment has two active runs.
pub record IsExclusive (runs : List Run) (next : ℕ) : Type 0 where
  pub ids : Distinct (map run_key runs)
  pub below : All (λ (r : Run). r.run_id < next) runs
  pub one_active : (env : Text) → count_if (is_active_in env) runs ≤ 1

-- A write that leaves the id and the environment of a run alone.
pub record KeepsRun (f : Run → Run) : Type 0 where
  pub id : (r : Run) → (f r).run_id ≡ r.run_id
  pub env : (r : Run) → (f r).env ≡ r.env

set_run-other :
    (id : ℕ) (f : Run → Run) (runs : List Run)
    → contains (map run_key runs) id ≡ false
    → set_run id f runs ≡ runs
unfolding set_run contains
set_run-other id f [] h = refl
set_run-other id f (r ∷ rs) h =
    ground (arith, set_run-other id f rs, nat_beq_iff id r.run_id, nat_beq_iff r.run_id id)

-- A write to a run that is not there changes nothing.
pub set_run-missing :
    (id : ℕ) (f : Run → Run) (runs : List Run) → find_run id runs ≡ none → set_run id f runs ≡ runs
unfolding set_run find_run
set_run-missing id f [] h = refl
set_run-missing id f (r ∷ rs) h = ground (arith, set_run-missing id f rs)

-- A write to the run that an id names moves the counts by that run alone.
pub count_if-set_run :
    (p : Run → Bool) (id : ℕ) (f : Run → Run) (run : Run) (runs : List Run)
    → Distinct (map run_key runs)
    → find_run id runs ≡ some run
    → count_if p (set_run id f runs) + bit (p run) ≡ count_if p runs + bit (p (f run))
unfolding count_if set_run find_run
count_if-set_run p id f run [] d h = absurd (cc)
count_if-set_run p id f run (r ∷ rs) d h = elim (Bool-cases (r.run_id == id)) [
  | inl e ↦
      let same : r ≡ run = ground arith in
      let off : contains (map run_key rs) id ≡ false =
        ground (arith, ap (contains (map run_key rs)) ((nat_beq_iff r.run_id id).0 e)) in
      rw (e, set_run-other id f rs off, same) (omega arith)
  | inr e ↦ rw e (omega (arith, count_if-set_run p id f run rs d.1 (ground arith)))
]

map-set_run :
    (id : ℕ) (f : Run → Run) (runs : List Run)
    → KeepsRun f
    → map run_key (set_run id f runs) ≡ map run_key runs
unfolding set_run
map-set_run id f [] k = refl
map-set_run id f (r ∷ rs) k = elim (Bool-cases (r.run_id == id)) [
  | inl e ↦ rw (e, k.id r, map-set_run id f rs k)
  | inr e ↦ rw (e, map-set_run id f rs k)
]

below-set_run :
    (id : ℕ) (f : Run → Run) (next : ℕ) (runs : List Run)
    → KeepsRun f
    → All (λ (r : Run). r.run_id < next) runs
    → All (λ (r : Run). r.run_id < next) (set_run id f runs)
unfolding set_run
below-set_run id f next [] k h = tt
below-set_run id f next (r ∷ rs) k h = elim (Bool-cases (r.run_id == id)) [
  | inl e ↦ rw e (omega (arith, k.id r), below-set_run id f next rs k h.1)
  | inr e ↦ rw e (h.0, below-set_run id f next rs k h.1)
]

module _ (id : ℕ) (f : Run → Run) (run : Run) (runs : List Run) (next : ℕ) (k : KeepsRun f)
    (inv : IsExclusive runs next) (found : find_run id runs ≡ some run) where
  IsExclusive-counts :
      ((env : Text) → count_if (is_active_in env) (set_run id f runs) ≤ 1)
      → IsExclusive (set_run id f runs) next
  IsExclusive-counts h = record {
    ids = rw (map-set_run id f runs k) inv.ids;
    below = below-set_run id f next runs k inv.below;
    one_active = h;
  }

  -- A write that does not wake the run.
  pub IsExclusive-set_run :
      (is_active (f run).status ≡ true → is_active run.status ≡ true)
      → IsExclusive (set_run id f runs) next
  IsExclusive-set_run sleeps = IsExclusive-counts λ env. ground (
    arith,
    inv.one_active env,
    count_if-set_run (is_active_in env) id f run runs inv.ids found,
    k.env run,
  )

none_other :
    (env : Text) (id : ℕ) (runs : List Run)
    → contains (map run_key runs) id ≡ false
    → any_of (is_other_active env (some id)) runs ≡ false
    → count_if (is_active_in env) runs ≡ 0
unfolding count_if any_of contains
none_other env id [] h a = refl
none_other env id (r ∷ rs) h a =
    ground (arith, none_other env id rs, nat_beq_iff id r.run_id, nat_beq_iff r.run_id id)

-- Where no other run is active, the run itself is the only one that may be.
only_self :
    (env : Text) (id : ℕ) (run : Run) (runs : List Run)
    → Distinct (map run_key runs)
    → find_run id runs ≡ some run
    → any_of (is_other_active env (some id)) runs ≡ false
    → count_if (is_active_in env) runs ≡ bit (is_active_in env run)
unfolding count_if any_of find_run
only_self env id run [] d h a = absurd (cc)
only_self env id run (r ∷ rs) d h a = elim (Bool-cases (r.run_id == id)) [
  | inl e ↦
      let same : r ≡ run = ground arith in
      let off : contains (map run_key rs) id ≡ false =
        ground (arith, ap (contains (map run_key rs)) ((nat_beq_iff r.run_id id).0 e)) in
      rw same (omega (arith, none_other env id rs off (ground arith)))
  | inr e ↦ ground (arith, only_self env id run rs d.1)
]

module _ (id : ℕ) (f : Run → Run) (run : Run) (runs : List Run) (next : ℕ) (k : KeepsRun f)
    (inv : IsExclusive runs next) (found : find_run id runs ≡ some run) where
  -- A write that may wake the run, where no other run of its environment is active.
  pub IsExclusive-wake :
      any_of (is_other_active run.env (some id)) runs ≡ false → IsExclusive (set_run id f runs) next
  IsExclusive-wake alone = IsExclusive-counts id f run runs next k inv found λ env.
      elim (Bool-cases (run.env == env)) [
        | inl e ↦
            let same : run.env ≡ env = (text_beq_iff run.env env).0 e in
            ground (
              arith,
              count_if-set_run (is_active_in env) id f run runs inv.ids found,
              only_self env id run runs inv.ids found
                  (ap (λ v. any_of (is_other_active v (some id)) runs) (sym same) ∙ alone),
            )
        | inr e ↦ ground (
          arith,
          inv.one_active env,
          count_if-set_run (is_active_in env) id f run runs inv.ids found,
          ap (λ v. text_beq v env) (k.env run),
        )
      ]
