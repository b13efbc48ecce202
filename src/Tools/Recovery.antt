-- ===== src/Tools/Recovery.antt =====
-- pkg/tools/recovery.go: `CrashMonitor`, which restarts a tool that has crashed and gives up after
-- too many failures. Times are natural numbers of nanoseconds. A goroutine of `monitorLoop` is
-- known by the number of the `Watch` that started it, and the map of cancel functions is the map
-- of these numbers: a goroutine is cancelled once a tool's number is no longer its own. One pass
-- of the loop is two steps, since other calls may run while it waits for the backoff.
pub mod Backoff
pub mod Attempts
use jb_mesh.Base.{Option, some, ◌*◌, [], ltb, none, if◌then◌else◌, ◌&&◌, Bool, suc, leb, ℕ}
use jb_mesh.Base.Dict.{delete, insert, Dict, lookup}
use jb_mesh.Base.Text.{Text}

pub record RecoveryConfig : Type 0 where
  pub initial_backoff : ℕ
  pub max_backoff : ℕ
  pub max_retries : ℕ

-- `DefaultRecoveryConfig`
abbrev pub default_recovery_config : RecoveryConfig
default_recovery_config = record {
  initial_backoff = 1000000000;
  max_backoff = 60000000000;
  max_retries = 5;
}

pub record RecoveryState : Type 0 where
  pub failures : ℕ
  pub last_backoff : ℕ

pub record CrashMonitor : Type 0 where
  pub config : RecoveryConfig
  pub states : Dict RecoveryState
  pub cancels : Dict ℕ
  pub watches : ℕ

-- `NewCrashMonitor`
unfoldable pub new_crash_monitor : RecoveryConfig → CrashMonitor
new_crash_monitor config = record { config = config; states = []; cancels = []; watches = 0 }

abbrev pub fresh_state : RecoveryConfig → RecoveryState
fresh_state config = record { failures = 0; last_backoff = config.initial_backoff }

-- `Watch`, before it starts the loop: the number of the goroutine, too
unfoldable pub watch : Text → CrashMonitor → CrashMonitor × ℕ
watch tool m = (
  record m {
    states = insert tool (fresh_state m.config) m.states;
    cancels = insert tool m.watches m.cancels;
    watches = suc m.watches;
  },
  m.watches,
)

unwatch_found : Text → CrashMonitor → Option ℕ → CrashMonitor
unwatch_found tool m none = m
unwatch_found tool m (some id) = record m {
  states = delete tool m.states;
  cancels = delete tool m.cancels;
}

-- `Unwatch`
unfoldable pub unwatch : Text → CrashMonitor → CrashMonitor
unfolding unwatch_found
unwatch tool m = unwatch_found tool m (lookup tool m.cancels)

-- An update of the state of a tool that has one.
abbrev pub update_found :
    Text → (RecoveryState → RecoveryState) → CrashMonitor → Option RecoveryState → CrashMonitor
update_found tool f m none = m
update_found tool f m (some s) = record m { states = insert tool (f s) m.states }

abbrev pub update : Text → (RecoveryState → RecoveryState) → CrashMonitor → CrashMonitor
update tool f m = update_found tool f m (lookup tool m.states)

-- `Reset`
unfoldable pub reset : Text → CrashMonitor → CrashMonitor
reset tool m = update tool (λ s. fresh_state m.config) m

-- `Failures`
unfoldable pub failures : Text → CrashMonitor → ℕ
failures tool m = elim (lookup tool m.states) [ none ↦ 0 | some s ↦ s.failures ]

-- `Close`
unfoldable pub close : CrashMonitor → CrashMonitor
close m = record m { states = []; cancels = [] }

-- `min`
unfoldable pub min : ℕ → ℕ → ℕ
min a b = if ltb a b then a else b

-- Where a pass of the loop stands after the liveness check: it waits for the next tick, it has
-- ended, it has given up after so many failures, or it waits for a backoff to restart the tool.
pub data Pass : Type 0 where
  wait_tick ended : Pass
  gave_up : ℕ → Pass
  wait_backoff : ℕ → ℕ → Pass

-- `cm.config.MaxRetries > 0 && failures >= cm.config.MaxRetries`
abbrev pub is_exhausted : RecoveryConfig → ℕ → Bool
is_exhausted config n = ltb 0 config.max_retries && leb config.max_retries n

-- The pass on a tool that has crashed, with its state if it is still watched.
crashed : Text → CrashMonitor → Option RecoveryState → CrashMonitor × Pass
crashed tool m none = (m, ended)
crashed tool m (some s) =
    let n = suc s.failures in
    (
      record m { states = insert tool (record s { failures = n }) m.states },
      if is_exhausted m.config n then gave_up n else wait_backoff n s.last_backoff,
    )

-- `monitorLoop` from a tick to the wait for the backoff; `alive` is the answer of the check
unfoldable pub tick : Text → Bool → CrashMonitor → CrashMonitor × Pass
unfolding reset crashed
tick tool alive m =
    if alive then (reset tool m, wait_tick) else crashed tool m (lookup tool m.states)

-- The backoff after an attempt to restart the tool.
next_backoff : RecoveryConfig → Bool → ℕ → ℕ
unfolding min
next_backoff config restarted b =
    if restarted then config.initial_backoff else min (b * 2) config.max_backoff

-- `monitorLoop` after the wait for the backoff; `restarted` says whether `Start` succeeded
unfoldable pub restart : Text → Bool → CrashMonitor → CrashMonitor
unfolding next_backoff
restart tool restarted m =
    update tool (λ s. record s { last_backoff = next_backoff m.config restarted s.last_backoff }) m
