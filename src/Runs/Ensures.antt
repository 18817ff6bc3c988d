-- ===== src/Runs/Ensures.antt =====
-- What holds of a run operation's result if it is not refused, rule by rule.
use mathlib.Core.Path.{subst}
use arb_data_warehouse.Prelude.{
  Bool, Bool-cases, Option, Option-cases, Text, any_of, arith, false, inl, inr, not, refl, some,
  true, ℕ, ◌≡◌, nat_eq, text_eq, pair_eq,
}
use arb_data_warehouse.Runs.Types.{
  Refusal, Result, Run, Store, err, guard, ok, restoring, ◌>>=◌, ◌>>◌,
}
use arb_data_warehouse.Runs.Store.{
  assert_env_exclusive, find_run, get_run, has_restores, is_other_active,
}

abbrev pub Ensures : {A : Type 0} → (A → Type 0) → Result A → Type 0
Ensures P (ok a) = P a
Ensures P (err e) = Unit

pub Ensures-ok : {A : Type 0} (P : A → Type 0) (r : Result A) (a : A) → r ≡ ok a → Ensures P r → P a
Ensures-ok P (ok b) a e h = subst P (ground arith) h
Ensures-ok P (err c) a e h = absurd (cc)

module _ {A : Type 0} (P : A → Type 0) where
  pub Ensures-guard :
      (b : Bool) (e : Refusal) (m : Result A)
      → (b ≡ true → Ensures P m)
      → Ensures P (guard b e >> m)
  Ensures-guard true e m h = h refl
  Ensures-guard false e m h = tt

  pub Ensures-seq : (r : Result (Unit {0})) (m : Result A) → Ensures P m → Ensures P (r >> m)
  Ensures-seq (ok u) m h = h
  Ensures-seq (err e) m h = tt

  pub Ensures-bind :
      {B : Type 0} (Q : B → Type 0) (r : Result B) (f : B → Result A)
      → Ensures Q r
      → ((b : B) → Q b → Ensures P (f b))
      → Ensures P (r >>= f)
  Ensures-bind Q (ok b) f q h = h b q
  Ensures-bind Q (err e) f q h = tt

  pub Ensures-get_run :
      (s : Store) (id : ℕ) (f : Run → Result A)
      → ((run : Run) → find_run id s.runs ≡ some run → Ensures P (f run))
      → Ensures P (get_run s id >>= f)
  unfolding get_run
  Ensures-get_run s id f h = elim (Option-cases (find_run id s.runs)) [
    | inl e ↦ rw (e, get_run) tt
    | inr (run, e) ↦ rw (e, get_run) (h run e)
  ]

  pub Ensures-assert :
      (now : ℕ) (s : Store) (env : Text) (id : Option ℕ) (m : Result A)
      → (any_of (is_other_active env id) s.runs ≡ false → Ensures P m)
      → Ensures P (assert_env_exclusive now s env id >> m)
  unfolding assert_env_exclusive
  Ensures-assert now s env id m h = elim (Bool-cases (any_of (is_other_active env id) s.runs)) [
    | inl e ↦ rw e tt
    | inr e ↦ rw e (Ensures-seq (guard (not (has_restores now s env)) restoring) m (h e))
  ]
