-- ===== src/Tools/Recovery/Backoff.antt =====
-- The backoffs and the entries of a crash monitor, in whatever order its operations run.
use jb_mesh.Base.{
  [], none, arith, inl, some-injective, true, refl, ◌∙◌, Option, false, Bool-cases, suc, inr, sym,
  is_some, subst, Bool, ◌≤◌, some, if◌then◌else◌, ◌≡◌, ℕ, ltb,
}
use jb_mesh.Tools.Recovery.{
  unwatch_found, update_found, RecoveryConfig, RecoveryState, CrashMonitor, fresh_state,
  new_crash_monitor, watch, unwatch, reset, close, min, crashed, tick, next_backoff, restart,
}
use jb_mesh.Base.Dict.{lookup-delete, insert, Dict, lookup-insert, delete, lookup}
use jb_mesh.Base.Text.{same_iff, same, Text}

-- One call on the monitor, or one step of a loop that it runs.
pub data Step : CrashMonitor → CrashMonitor → Type 0 where
  watches : (tool : Text) (m : CrashMonitor) → Step m (watch tool m).0
  unwatches : (tool : Text) (m : CrashMonitor) → Step m (unwatch tool m)
  resets : (tool : Text) (m : CrashMonitor) → Step m (reset tool m)
  closes : (m : CrashMonitor) → Step m (close m)
  ticks : (tool : Text) (alive : Bool) (m : CrashMonitor) → Step m (tick tool alive m).0
  restarts : (tool : Text) (restarted : Bool) (m : CrashMonitor) → Step m (restart tool restarted m)

-- The monitors that a new one can become.
pub data Reachable (config : RecoveryConfig) : CrashMonitor → Type 0 where
  start : Reachable config (new_crash_monitor config)
  next : {m n : CrashMonitor} → Reachable config m → Step m n → Reachable config n

abbrev pub max : ℕ → ℕ → ℕ
max a b = if ltb a b then b else a

-- A backoff between the smaller and the greater of the two that the configuration names.
abbrev pub IsBackoff : RecoveryConfig → ℕ → Type 0
IsBackoff config b =
    (min config.initial_backoff config.max_backoff ≤ b)
    × (b ≤ max config.initial_backoff config.max_backoff)

abbrev AreBackoffs : RecoveryConfig → Dict RecoveryState → Type 0
AreBackoffs config states =
    (tool : Text) (s : RecoveryState)
    → lookup tool states ≡ some s
    → IsBackoff config s.last_backoff

insert-AreBackoffs :
    (config : RecoveryConfig) (tool : Text) (s : RecoveryState) (states : Dict RecoveryState)
    → AreBackoffs config states
    → IsBackoff config s.last_backoff
    → AreBackoffs config (insert tool s states)
insert-AreBackoffs config tool s states h k j t e = elim (Bool-cases (same tool j)) [
  | inl here ↦
      let e' = sym (lookup-insert tool j s states) ∙ e in
      let e'' = rw here at e' in subst (λ t. IsBackoff config t.last_backoff) (some-injective e'') k
  | inr there ↦
      let e' = sym (lookup-insert tool j s states) ∙ e in let e'' = rw there at e' in h j t e''
]

delete-AreBackoffs :
    (config : RecoveryConfig) (tool : Text) (states : Dict RecoveryState)
    → AreBackoffs config states
    → AreBackoffs config (delete tool states)
delete-AreBackoffs config tool states h j t e = h j t (ground (arith, lookup-delete tool j states))

-- Every backoff of the monitor is within the bounds, and it has a state for exactly the tools that
-- it has a cancel function for.
abbrev pub IsSound : RecoveryConfig → CrashMonitor → Type 0
IsSound config m =
    (m.config ≡ config)
    × AreBackoffs config m.states
    × ((tool : Text) → is_some (lookup tool m.states) ≡ is_some (lookup tool m.cancels))

update-IsSound :
    (config : RecoveryConfig) (tool : Text) (f : RecoveryState → RecoveryState) (m : CrashMonitor)
    (o : Option RecoveryState)
    → lookup tool m.states ≡ o
    → ((s : RecoveryState) → IsBackoff config s.last_backoff → IsBackoff config (f s).last_backoff)
    → IsSound config m
    → IsSound config (update_found tool f m o)
update-IsSound config tool f m none e k h = h
update-IsSound config tool f m (some s) e k (c, b, d) = (
  c,
  insert-AreBackoffs config tool (f s) m.states b (k s (b tool s e)),
  λ j. ground (arith, d j, lookup-insert tool j (f s) m.states, same_iff tool j),
)

fresh-IsBackoff : (config : RecoveryConfig) → IsBackoff config config.initial_backoff
unfolding min
fresh-IsBackoff config = ground arith

next-IsBackoff :
    (config : RecoveryConfig) (restarted : Bool) (b : ℕ)
    → IsBackoff config b
    → IsBackoff config (next_backoff config restarted b)
unfolding next_backoff min
next-IsBackoff config restarted b h = ground arith

crashed-IsSound :
    (config : RecoveryConfig) (tool : Text) (m : CrashMonitor) (o : Option RecoveryState)
    → lookup tool m.states ≡ o
    → IsSound config m
    → IsSound config (crashed tool m o).0
unfolding crashed
crashed-IsSound config tool m none e h = h
crashed-IsSound config tool m (some s) e h =
    update-IsSound config tool (λ s. record s { failures = suc s.failures }) m (some s) e (λ s k. k)
      h

unwatch-IsSound :
    (config : RecoveryConfig) (tool : Text) (m : CrashMonitor) (o : Option ℕ)
    → IsSound config m
    → IsSound config (unwatch_found tool m o)
unfolding unwatch_found
unwatch-IsSound config tool m none h = h
unwatch-IsSound config tool m (some id) (c, b, d) = (
  c,
  delete-AreBackoffs config tool m.states b,
  λ j. ground (arith, d j, lookup-delete tool j m.states, lookup-delete tool j m.cancels),
)

empty-IsSound :
    (config c : RecoveryConfig) (n : ℕ)
    → c ≡ config
    → IsSound config (record { config = c; states = []; cancels = []; watches = n })
unfolding lookup
empty-IsSound config c n h = (h, λ j t e. cc, λ j. refl)

reset-IsSound :
    (config : RecoveryConfig) (tool : Text) (m : CrashMonitor)
    → IsSound config m
    → IsSound config (reset tool m)
unfolding reset
reset-IsSound config tool m h =
    update-IsSound config tool (λ s. fresh_state m.config) m (lookup tool m.states) refl
      (λ s k. subst (λ c. IsBackoff config c.initial_backoff) (sym h.0) (fresh-IsBackoff config)) h

Step-IsSound :
    (config : RecoveryConfig) {m n : CrashMonitor} → Step m n → IsSound config m → IsSound config n
unfolding watch unwatch close tick restart
Step-IsSound config (watches tool m) (c, b, d) = (
  c,
  insert-AreBackoffs config tool (fresh_state m.config) m.states b
      (subst (λ c. IsBackoff config c.initial_backoff) (sym c) (fresh-IsBackoff config)),
  λ j. ground (
    arith,
    d j,
    lookup-insert tool j (fresh_state m.config) m.states,
    lookup-insert tool j m.watches m.cancels,
  ),
)
Step-IsSound config (unwatches tool m) h = unwatch-IsSound config tool m (lookup tool m.cancels) h
Step-IsSound config (resets tool m) h = reset-IsSound config tool m h
Step-IsSound config (closes m) (c, b, d) = empty-IsSound config m.config m.watches c
Step-IsSound config (ticks tool true m) h = reset-IsSound config tool m h
Step-IsSound config (ticks tool false m) h =
    crashed-IsSound config tool m (lookup tool m.states) refl h
Step-IsSound config (restarts tool restarted m) h =
    update-IsSound config tool
      (λ s. record s { last_backoff = next_backoff m.config restarted s.last_backoff }) m
      (lookup tool m.states) refl
      (λ s k.
        subst (λ c. IsBackoff config (next_backoff c restarted s.last_backoff)) (sym h.0)
          (next-IsBackoff config restarted s.last_backoff k))
      h

-- Whatever calls and passes of the loops run in whatever order, each backoff of a monitor lies
-- between the smaller and the greater of its initial and maximal backoffs, and it keeps a state for
-- exactly the tools that it keeps a cancel function for.
pub Reachable-IsSound :
    (config : RecoveryConfig) {m : CrashMonitor} → Reachable config m → IsSound config m
unfolding new_crash_monitor
Reachable-IsSound config start = empty-IsSound config config 0 refl
Reachable-IsSound config (next r s) = Step-IsSound config s (Reachable-IsSound config r)
