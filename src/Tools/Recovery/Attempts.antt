-- ===== src/Tools/Recovery/Attempts.antt =====
-- When the loop that watches a tool gives up, for whatever it observes of the tool.
use jb_mesh.Base.{
  sym, subst, leb, ◌+◌, arith, ltb, ◌≤◌, ◌&&◌, Option, some, Bool, refl, ◌||◌, zero, suc,
  if◌then◌else◌, List, ◌∷◌, false, [], true, ◌∙◌, ap, ℕ, ◌≡◌,
}
use jb_mesh.Base.Text.{Text, same_refl}
use jb_mesh.Base.Dict.{Dict, lookup-insert, lookup, insert}
use jb_mesh.Tools.Recovery.{
  RecoveryState, CrashMonitor, Pass, fresh_state, wait_tick, gave_up, wait_backoff, watch,
  update_found, reset, is_exhausted, crashed, tick, next_backoff, restart,
}

-- What one pass of the loop sees: the tool is alive, or it has crashed and its restart succeeds or
-- fails.
pub data Observation : Type 0 where
  alive : Observation
  crash : Bool → Observation

-- The loop goes on only where it waits for a backoff.
go_on : CrashMonitor → Pass → CrashMonitor × Pass → CrashMonitor × Pass
go_on m (wait_backoff n b) rest = rest
go_on m p rest = (m, p)

-- `monitorLoop`
unfoldable pub monitor_loop : Text → List Observation → CrashMonitor → CrashMonitor × Pass
unfolding tick restart go_on
monitor_loop tool [] m = (m, wait_tick)
monitor_loop tool (alive ∷ es) m = monitor_loop tool es (tick tool true m).0
monitor_loop tool (crash restarted ∷ es) m =
    let (n, p) = tick tool false m in go_on n p (monitor_loop tool es (restart tool restarted n))

-- The observations begin with so many crashes.
abbrev pub crashes : ℕ → List Observation → Bool
crashes zero es = true
crashes (suc n) [] = false
crashes (suc n) (alive ∷ es) = false
crashes (suc n) (crash r ∷ es) = crashes n es

-- So many crashes follow on one another without a check that finds the tool alive.
abbrev pub has_streak : ℕ → List Observation → Bool
has_streak n [] = crashes n []
has_streak n (e ∷ es) = crashes n (e ∷ es) || has_streak n es

verdict : ℕ → ℕ → List Observation → Pass
verdict max k [] = wait_tick
verdict max k (alive ∷ es) = verdict max 0 es
verdict max k (crash r ∷ es) =
    let rest = verdict max (suc k) es in
    if ltb 0 max && leb max (suc k) then gave_up (suc k) else rest

lookup_here {ℓ} : {A : Type ℓ} (k : Text) (v : A) (m : Dict A) → lookup k (insert k v m) ≡ some v
lookup_here k v m = lookup-insert k k v m ∙ ap (λ b. if b then some v else lookup k m) (same_refl k)

abbrev put : Text → RecoveryState → CrashMonitor → CrashMonitor
put tool s m = record m { states = insert tool s m.states }

-- The pass of a watched tool that has crashed, up to the next tick.
crash_found :
    (tool : Text) (es : List Observation) (r : Bool) (m : CrashMonitor) (o : Option RecoveryState)
    → CrashMonitor × Pass
unfolding monitor_loop crashed restart go_on
crash_found tool es r m o =
    go_on (crashed tool m o).0 (crashed tool m o).1
      (monitor_loop tool es (restart tool r (crashed tool m o).0))

go_on-pass :
    (m : CrashMonitor) (stop : Bool) (n b : ℕ) (rest : CrashMonitor × Pass)
    → (go_on m (if stop then gave_up n else wait_backoff n b) rest).1
      ≡ (if stop then gave_up n else rest.1)
unfolding go_on
go_on-pass m true n b rest = refl
go_on-pass m false n b rest = refl

restart-put :
    (tool : Text) (r : Bool) (t : RecoveryState) (m : CrashMonitor)
    → restart tool r (put tool t m)
      ≡ put tool (record t { last_backoff = next_backoff m.config r t.last_backoff }) (put tool t m)
unfolding restart
restart-put tool r t m =
    ap
      (update_found tool
        (λ (s : RecoveryState). record s { last_backoff = next_backoff m.config r s.last_backoff })
        (put tool t m))
      (lookup_here tool t m.states)

monitor_loop-verdict :
    (tool : Text) (es : List Observation) (m : CrashMonitor) (s : RecoveryState)
    → lookup tool m.states ≡ some s
    → (monitor_loop tool es m).1 ≡ verdict m.config.max_retries s.failures es
unfolding monitor_loop verdict tick reset crash_found crashed
monitor_loop-verdict tool [] m s h = refl
monitor_loop-verdict tool (alive ∷ es) m s h =
    let f = λ (s : RecoveryState). fresh_state m.config in
    ap (λ o. (monitor_loop tool es (update_found tool f m o)).1) h
    ∙ monitor_loop-verdict tool es (put tool (fresh_state m.config) m) (fresh_state m.config)
        (lookup_here tool (fresh_state m.config) m.states)
monitor_loop-verdict tool (crash r ∷ es) m s h =
    let n = suc s.failures in
    let t : RecoveryState = record s { failures = n } in
    let u : RecoveryState = record t { last_backoff = next_backoff m.config r t.last_backoff } in
    let rest =
      monitor_loop-verdict tool es (put tool u (put tool t m)) u
        (lookup_here tool u (insert tool t m.states)) in
    let stop = is_exhausted m.config n in
    ap (λ o. (crash_found tool es r m o).1) h
    ∙ (go_on-pass (put tool t m) stop n s.last_backoff
          (monitor_loop tool es (restart tool r (put tool t m)))
        ∙ (ap (λ n. if stop then gave_up (suc s.failures) else (monitor_loop tool es n).1)
              (restart-put tool r t m)
            ∙ ap (λ p. if stop then gave_up (suc s.failures) else p) rest))

crashes_mono : (a b : ℕ) (es : List Observation) → b ≤ a → crashes a es ≡ true → crashes b es ≡ true
crashes_mono a zero es h k = refl
crashes_mono zero (suc b) es h k = absurd (omega arith)
crashes_mono (suc a) (suc b) [] h k = cc
crashes_mono (suc a) (suc b) (alive ∷ es) h k = cc
crashes_mono (suc a) (suc b) (crash r ∷ es) h k = crashes_mono a b es (omega arith) k

has_streak-crashes : (n : ℕ) (es : List Observation) → crashes n es ≡ true → has_streak n es ≡ true
has_streak-crashes n [] h = h
has_streak-crashes n (e ∷ es) h = rw h refl

verdict-has_streak :
    (max k j : ℕ) (es : List Observation)
    → max ≡ suc (k + j)
    → verdict max k es
      ≡ (if crashes (suc j) es || has_streak max es then gave_up max else wait_tick)
unfolding verdict
verdict-has_streak max k j [] h = rw h refl
verdict-has_streak max k j (alive ∷ es) h =
    let start = verdict-has_streak max 0 (k + j) es (omega (arith, h)) in
    let longer : crashes (suc (k + j)) es ≡ true → has_streak max es ≡ true =
      λ c. has_streak-crashes max es (subst (λ n. crashes n es ≡ true) (sym h) c) in
    ground (arith, start, longer, h)
verdict-has_streak max k zero (crash r ∷ es) h = ground (arith, h)
verdict-has_streak max k (suc j) (crash r ∷ es) h =
    let rest = verdict-has_streak max (suc k) j es (omega (arith, h)) in
    let shorter = crashes_mono (k + suc j) (suc j) es (omega arith) in
    ground (arith, rest, shorter, h)

verdict-unlimited : (k : ℕ) (es : List Observation) → verdict 0 k es ≡ wait_tick
unfolding verdict
verdict-unlimited k [] = refl
verdict-unlimited k (alive ∷ es) = verdict-unlimited 0 es
verdict-unlimited k (crash r ∷ es) = verdict-unlimited (suc k) es

verdict-start :
    (max : ℕ) (es : List Observation)
    → verdict max 0 es ≡ (if ltb 0 max && has_streak max es then gave_up max else wait_tick)
verdict-start zero es = verdict-unlimited 0 es
verdict-start (suc n) es =
    let streak = verdict-has_streak (suc n) 0 n es (omega arith) in
    let longer = has_streak-crashes (suc n) es in ground (arith, streak, longer)

-- The loop that watches a tool gives up exactly if so many checks as the configuration allows find
-- the tool crashed with none between them that finds it alive, whether its restarts succeed or fail;
-- it reports that number of failures. With a limit of 0 it never gives up.
pub monitor_loop-has_streak :
    (tool : Text) (es : List Observation) (m : CrashMonitor)
    → let max = m.config.max_retries in
      (monitor_loop tool es (watch tool m).0).1
      ≡ (if ltb 0 max && has_streak max es then gave_up max else wait_tick)
unfolding watch
monitor_loop-has_streak tool es m =
    monitor_loop-verdict tool es (watch tool m).0 (fresh_state m.config)
      (lookup_here tool (fresh_state m.config) m.states)
    ∙ verdict-start m.config.max_retries es
