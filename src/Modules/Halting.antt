-- ===== src/Modules/Halting.antt =====
-- With which codes the loop over the modules stops.
use spmfilter.Base.{
  ℕ, ◌+◌, ◌≡◌, refl, ◌⊎◌, inl, inr, List, [], ◌∷◌, ◌++◌, Bytes, ℤ, pos, minus_one, eq_ℤ,
}
use spmfilter.Settings.{Settings}
use spmfilter.Session.{Session}
use spmfilter.System.{System}
use spmfilter.Modules.Codes.{if_both}
use spmfilter.Modules.Invoke.{module_invoke}
use spmfilter.Modules.Process.{
  State, ProcessQueue, LoopEnd, stopped, finished, Verdict, give_up, leave, continue, verdict,
  append_name, judge, run_modules,
}

-- The loop stops with -1 or 1 only.
unfoldable pub Halts : {M W : Type 0} → LoopEnd M W → Type 0
Halts (stopped code s) = (code ≡ minus_one) ⊎ (code ≡ pos 1)
Halts (finished ret header s) = Unit

Stops : Verdict → Type 0
Stops (give_up code) = (code ≡ minus_one) ⊎ (code ≡ pos 1)
Stops _ = Unit

verdict-Stops : (ret : ℤ) → Stops (verdict ret)
unfolding verdict Stops
verdict-Stops ret =
    if_both Stops (eq_ℤ ret (pos 0)) _ _ (inl refl)
      (if_both Stops (eq_ℤ ret (pos 1)) _ _ (inr refl) (if_both Stops (eq_ℤ ret (pos 2)) _ _ tt tt))

module _ {M W : Type 0} (sys : System M W) (q : ProcessQueue M) (st : Settings) where
  judge-Stops : (result : ℤ) (s : Session M) → Stops (judge sys q st result s).0
  unfolding judge Stops
  judge-Stops result s =
      if_both (λ (r : Verdict × List Bytes). Stops r.0) (eq_ℤ result (pos 0)) _ _ tt
        (verdict-Stops (q.processing_error st s result).0)

  pub run_modules-Halts :
      (names : List Bytes) (k : ℕ) (ret : ℤ) (header : Bytes) (s : State M W)
      → Halts (run_modules sys q st names k ret header s)
  unfolding run_modules Halts Stops
  run_modules-Halts [] k ret header s = tt
  run_modules-Halts (name ∷ names) k ret header s =
      let (result, session1, world1) = module_invoke sys st name s.session s.world in
      let (v, replies) = judge sys q st result session1 in
      let s1 : State M W = record { session = session1; world = world1; out = s.out ++ replies } in
      (elim v
          as (λ x.
            Stops x
            → Halts (elim x [
              | give_up code ↦ stopped code s1
              | leave ↦ finished (pos 2) header s1
              | continue next ↦
                  run_modules sys q st names (k + 1) next (append_name st (k + 1) name header) s1
            ])) [
              | give_up code ↦ λ h. h
              | leave ↦ λ h. tt
              | continue next ↦
                  λ h. run_modules-Halts names (k + 1) next (append_name st (k + 1) name header) s1
            ])
        (judge-Stops result session1)
