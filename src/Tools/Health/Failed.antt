-- ===== src/Tools/Health/Failed.antt =====
-- What the health checks make of a tool whose REPL fails.
use jb_mesh.Base.Result.{err}
use jb_mesh.Base.{
  sym, ==_iff, ◌+◌, ap, ℕ, suc, arith, inl, Bool-cases, subst, if◌then◌else◌, none, inr, refl, ◌∷◌,
  [], List, some, ◌∙◌, ◌≡◌,
}
use jb_mesh.Base.Int.{ℤ}
use jb_mesh.Base.Text.{lit, Text, same_refl}
use jb_mesh.Base.Dict.{lookup, lookup-delete, delete, Dict}
use jb_mesh.Tools.Executor.{Executor, Tool, stopped, failed, is_process, mark_repl_stopped}
use jb_mesh.Tools.Health.{
  HealthError, not_running, call_failed, call_fails, Selected, tick, done, observe, observed,
  repl_answer, reaches, run_health_check, do_health_check,
}
use jb_mesh.Tools.Health.Verdict.{adjust_one}

-- The ticks that a loop takes before it sees the end of its context
abbrev pub ticks_taken : List Selected → ℕ
ticks_taken [] = 0
ticks_taken (done ∷ ss) = 0
ticks_taken (tick a ∷ ss) = suc (ticks_taken ss)

-- A tool whose REPL has failed
abbrev pub down : ℕ → Tool → Tool
down failures t = record t {
  status = stopped;
  health_status = lit "unhealthy";
  health_failures = failures;
}

-- The executor has neither a REPL nor a health check of the tool, which is down.
abbrev pub IsDown : Text → ℕ → Tool → Executor → Type 0
IsDown name failures t e =
    (lookup name e.tools ≡ some (down failures t))
    × (lookup name e.repls ≡ none)
    × (lookup name e.health_cancels ≡ none)

observe-down :
    (threshold : ℤ) (failures : ℕ) (t : Tool) (e : HealthError)
    → observe threshold (err e) (down failures t) ≡ down (suc failures) t
unfolding observe
observe-down threshold failures t e = elim (Bool-cases (reaches threshold (suc failures))) [
  | inl h ↦ rw h refl
  | inr h ↦ rw h refl
]

observed-IsDown :
    (threshold : ℤ) (name : Text) (failures : ℕ) (t : Tool) (e : Executor) (x : HealthError)
    → IsDown name failures t e
    → IsDown name (suc failures) t (observed threshold name (e, err x))
unfolding observed
observed-IsDown threshold name failures t e x (known, gone, off) = (
  adjust_one name (observe threshold (err x)) e (down failures t) known
      ∙ ap some (observe-down threshold failures t x),
  gone,
  off,
)

run_health_check-IsDown :
    (threshold : ℤ) (name : Text) (ss : List Selected) (failures : ℕ) (t : Tool) (e : Executor)
    → IsDown name failures t e
    → IsDown name (failures + ticks_taken ss) t (run_health_check threshold name ss e)
unfolding run_health_check do_health_check repl_answer
run_health_check-IsDown threshold name [] failures t e h =
    subst (λ n. IsDown name n t e) (omega arith) h
run_health_check-IsDown threshold name (done ∷ ss) failures t e h =
    subst (λ n. IsDown name n t e) (omega arith) h
run_health_check-IsDown threshold name (tick a ∷ ss) failures t e h =
    let checked : do_health_check name a e ≡ (e, err not_running) =
      ap (λ o. repl_answer name e o a) h.1 in
    subst
      (λ p.
        IsDown name (failures + suc (ticks_taken ss)) t
          (run_health_check threshold name ss (observed threshold name p)))
      (sym checked)
      (subst
        (λ n.
          IsDown name n t
            (run_health_check threshold name ss (observed threshold name (e, err not_running))))
        (omega arith)
        (run_health_check-IsDown threshold name ss (suc failures) t
          (observed threshold name (e, err not_running))
          (observed-IsDown threshold name failures t e not_running h)))

deleted : (name : Text) (m : Dict ℕ) → lookup name (delete name m) ≡ none
deleted name m = ground (arith, lookup-delete name name m, same_refl name)

-- The executor right after the REPL of a tool has failed
mark_repl_stopped-IsDown :
    (name : Text) (e : Executor) (t : Tool) (process : ℕ)
    → lookup name e.tools ≡ some t
    → lookup name e.repls ≡ some process
    → IsDown name (suc t.health_failures) t (mark_repl_stopped name process e)
unfolding mark_repl_stopped
mark_repl_stopped-IsDown name e t process known runs = (
  adjust_one name failed e t known,
  ap (λ b. lookup name (if b then delete name e.repls else e.repls))
        (ap (is_process process) runs ∙ (==_iff process process).1 refl)
      ∙ deleted name e.repls,
  deleted name e.health_cancels,
)

-- Where the call of the health method of a running REPL fails, the tool is stopped and "unhealthy" at
-- once, whatever the threshold, and stays so whatever the loop takes next, be it the end of its
-- context or another tick; the executor has no REPL of the tool and no health check of it any more.
-- This failure counts twice, and every later tick once.
pub run_health_check_lem :
    (threshold : ℤ) (name : Text) (ss : List Selected) (e : Executor) (t : Tool) (process : ℕ)
    → lookup name e.tools ≡ some t
    → lookup name e.repls ≡ some process
    → IsDown name
        (t.health_failures + 2 + ticks_taken ss)
        t
        (run_health_check threshold name (tick call_fails ∷ ss) e)
unfolding run_health_check do_health_check repl_answer
run_health_check_lem threshold name ss e t process known runs =
    let marked = mark_repl_stopped name process e in
    let checked : do_health_check name call_fails e ≡ (marked, err call_failed) =
      ap (λ o. repl_answer name e o call_fails) runs in
    subst
      (λ p.
        IsDown name (t.health_failures + 2 + ticks_taken ss) t
          (run_health_check threshold name ss (observed threshold name p)))
      (sym checked)
      (subst
        (λ n.
          IsDown name n t (
            run_health_check threshold name ss (observed threshold name (marked, err call_failed))))
        (omega arith)
        (run_health_check-IsDown threshold name ss (suc (suc t.health_failures)) t
          (observed threshold name (marked, err call_failed))
          (observed-IsDown threshold name (suc t.health_failures) t marked call_failed
            (mark_repl_stopped-IsDown name e t process known runs))))
