-- ===== src/Tools/Health/Verdict.antt =====
-- What the health checks say of a tool whose calls go over a queue.
use jb_mesh.Base.Result.{Result-cases, ok, err, Result}
use jb_mesh.Base.{
  sym, false, true, ◌<◌, ◌+◌, ap, All, length, ℕ, suc, arith, inl, Bool-cases, Bool, if◌then◌else◌,
  none, inr, refl, ◌++◌, ◌∷◌, [], List, some, ◌∙◌, ◌≡◌,
}
use jb_mesh.Base.Int.{pos, ℤ}
use jb_mesh.Base.Text.{lit, Text, same_refl}
use jb_mesh.Base.Dict.{lookup, lookup-adjust, adjust, adjusted}
use jb_mesh.Base.Json.{Json}
use jb_mesh.Tools.Executor.{Executor, Tool, failed}
use jb_mesh.Tools.Health.{
  HealthError, Answer, call_fails, responds, Selected, tick, observe, observed, queue_answer,
  judged, reaches, check_health_result, run_health_check_msgpack, do_health_check_msgpack,
}

abbrev Check : Type 0
Check = Result HealthError (Unit {0})

abbrev is_pass : Check → Bool
is_pass (ok u) = true
is_pass (err e) = false

-- Whether an answer says that the tool is well
abbrev pub passes : Answer → Bool
passes call_fails = false
passes (responds none) = false
passes (responds (some result)) = elim (check_health_result result) [ ok u ↦ true | err e ↦ false ]

abbrev pub ticks : List Answer → List Selected
ticks [] = []
ticks (a ∷ answers) = tick a ∷ ticks answers

-- After that many failures in a row, with the status before them
abbrev pub verdict : ℤ → Text → ℕ → Tool → Tool
verdict threshold before failures t = record t {
  health_status = if reaches threshold failures then lit "unhealthy" else before;
  health_failures = failures;
}

-- What a list of answers makes of a tool with a process
observe_all : ℤ → List Answer → Tool → Tool
unfolding observe queue_answer
observe_all threshold [] t = t
observe_all threshold (a ∷ answers) t =
    observe_all threshold answers (observe threshold (queue_answer (some 0) a) t)

pub adjust_one :
    (name : Text) (f : Tool → Tool) (e : Executor) (t : Tool)
    → lookup name e.tools ≡ some t
    → lookup name (adjust name f e.tools) ≡ some (f t)
adjust_one name f e t h =
    lookup-adjust name name f e.tools
    ∙ ap (λ b. if b then adjusted f (lookup name e.tools) else lookup name e.tools) (same_refl name)
    ∙ ap (adjusted f) h

queue_answer-some :
    (process : ℕ) (a : Answer) → queue_answer (some process) a ≡ queue_answer (some 0) a
unfolding queue_answer
queue_answer-some process call_fails = refl
queue_answer-some process (responds r) = refl

run_health_check_msgpack-observe_all :
    (threshold : ℤ) (name : Text) (answers : List Answer) (e : Executor) (t : Tool) (process : ℕ)
    → lookup name e.tools ≡ some t
    → lookup name e.queues ≡ some process
    → lookup name (run_health_check_msgpack threshold name (ticks answers) e).tools
      ≡ some (observe_all threshold answers t)
unfolding run_health_check_msgpack observed do_health_check_msgpack observe_all
run_health_check_msgpack-observe_all threshold name [] e t process known runs = known
run_health_check_msgpack-observe_all threshold name (a ∷ answers) e t process known runs =
    run_health_check_msgpack-observe_all threshold name answers
      (observed threshold name (do_health_check_msgpack name a e))
      (observe threshold (queue_answer (some 0) a) t) process
      (adjust_one name (observe threshold (queue_answer (lookup name e.queues) a)) e t known
        ∙ ap (λ r. some (observe threshold r t))
            (ap (λ o. queue_answer o a) runs ∙ queue_answer-some process a))
      runs

observe_all-append :
    (threshold : ℤ) (past more : List Answer) (t : Tool)
    → observe_all threshold (past ++ more) t
      ≡ observe_all threshold more (observe_all threshold past t)
unfolding observe_all
observe_all-append threshold [] more t = refl
observe_all-append threshold (a ∷ past) more t = observe_all-append threshold past more _

observe-kept :
    (threshold : ℤ) (r : Check) (t : Tool) (s : Text) (n : ℕ)
    → (record (observe threshold r t) { health_status = s; health_failures = n })
      ≡ record t { health_status = s; health_failures = n }
unfolding observe
observe-kept threshold (ok u) t s n = refl
observe-kept threshold (err e) t s n =
    elim (Bool-cases (reaches threshold (suc t.health_failures))) [
      | inl h ↦ rw h refl
      | inr h ↦ rw h refl
    ]

observe_all-kept :
    (threshold : ℤ) (answers : List Answer) (t : Tool) (s : Text) (n : ℕ)
    → (record (observe_all threshold answers t) { health_status = s; health_failures = n })
      ≡ record t { health_status = s; health_failures = n }
unfolding observe_all observe
observe_all-kept threshold [] t s n = refl
observe_all-kept threshold (a ∷ answers) t s n =
    observe_all-kept threshold answers (observe threshold (queue_answer (some 0) a) t) s n
    ∙ observe-kept threshold (queue_answer (some 0) a) t s n

failing : (a : Answer) → passes a ≡ false → (e : HealthError) × (queue_answer (some 0) a ≡ err e)
unfolding queue_answer
failing call_fails h = (_, refl)
failing (responds none) h = (_, refl)
failing (responds (some result)) h = elim (Result-cases (check_health_result result)) [
  | inl (u, p) ↦ let h' = sym (ap (λ r. elim r [ ok u ↦ true | err e ↦ false ]) p) ∙ h in cc
  | inr (e, p) ↦ (e, p)
]

verdict-zero :
    (threshold : ℕ) (before : Text) (t : Tool)
    → 0 < threshold
    → verdict (pos threshold) before 0 t ≡ record t { health_status = before; health_failures = 0 }
verdict-zero threshold before t h =
    let low : reaches (pos threshold) 0 ≡ false = ground arith in rw low refl

observe-verdict :
    (threshold failures : ℕ) (before : Text) (e : HealthError) (t : Tool)
    → observe (pos threshold) (err e) (verdict (pos threshold) before failures t)
      ≡ verdict (pos threshold) before (suc failures) t
unfolding observe
observe-verdict threshold failures before e t = ground arith

observe_all-verdict :
    (threshold failures : ℕ) (before : Text) (answers : List Answer) (t : Tool)
    → All (λ a. passes a ≡ false) answers
    → observe_all (pos threshold) answers (verdict (pos threshold) before failures t)
      ≡ verdict (pos threshold) before (length answers + failures) t
unfolding observe_all
observe_all-verdict threshold failures before [] t h =
    ap (λ n. verdict (pos threshold) before n t) (omega arith)
observe_all-verdict threshold failures before (a ∷ answers) t h =
    let (e, failed) = failing a h.0 in
    ap
      (λ r.
        observe_all (pos threshold) answers
          (observe (pos threshold) r (verdict (pos threshold) before failures t)))
      failed
    ∙ ap (observe_all (pos threshold) answers) (observe-verdict threshold failures before e t)
    ∙ observe_all-verdict threshold (suc failures) before answers t h.1
    ∙ ap (λ n. verdict (pos threshold) before n t) (omega arith)

-- Of a tool with a queue that has passed a check the status after more checks, all of which failed, is
-- "unhealthy" if they are at least as many as the threshold, which is positive, and "healthy" if not,
-- whatever came before the check that passed; the failures that are counted are those; and nothing
-- else of the tool changes.
pub run_health_check_msgpack_lem :
    (threshold : ℕ) (name : Text) (past answers : List Answer) (passed : Json) (e : Executor)
    (t : Tool) (process : ℕ)
    → 0 < threshold
    → lookup name e.tools ≡ some t
    → lookup name e.queues ≡ some process
    → check_health_result passed ≡ ok tt
    → All (λ a. passes a ≡ false) answers
    → lookup name
        (run_health_check_msgpack
          (pos threshold)
          name
          (ticks (past ++ responds (some passed) ∷ answers))
          e).tools
      ≡ some (verdict (pos threshold) (lit "healthy") (length answers) t)
unfolding observe_all queue_answer observe
run_health_check_msgpack_lem threshold name past answers passed e t process positive known runs
      ok_one failed =
    let before = observe_all (pos threshold) past t in
    let passed_one : observe (pos threshold) (judged (some passed)) before
        ≡ verdict (pos threshold) (lit "healthy") 0 t =
      ap (λ r. observe (pos threshold) r before) ok_one
      ∙ observe_all-kept (pos threshold) past t (lit "healthy") 0
      ∙ sym (verdict-zero threshold (lit "healthy") t positive) in
    run_health_check_msgpack-observe_all (pos threshold) name
      (past ++ responds (some passed) ∷ answers) e t process known runs
    ∙ ap some (
        observe_all-append (pos threshold) past (responds (some passed) ∷ answers) t
        ∙ ap (observe_all (pos threshold) answers) passed_one
        ∙ observe_all-verdict threshold 0 (lit "healthy") answers t failed
        ∙ ap (λ n. verdict (pos threshold) (lit "healthy") n t) (omega arith))
