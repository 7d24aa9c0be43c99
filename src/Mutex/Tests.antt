-- ===== src/Mutex/Tests.antt =====
-- Two processes: the thread of the first gets the mutex and dies, that of the second takes it over.
use go_data_reqrep_shared.Base.{ℕ, ◌<◌, ◌≤◌, ◌≡◌, refl, false, arith, if◌then◌else◌, ◌==◌}
use go_data_reqrep_shared.Mutex.{lock_value}
use go_data_reqrep_shared.Mutex.Go
use go_data_reqrep_shared.Mutex.System.{go, System, go_step, IsFresh, Reach, here, next}
use go_data_reqrep_shared.Mutex.Exclusion.{mutual_exclusion}
use go_data_reqrep_shared.Mutex.Takeover.{Solo, moved, taken_over, takeover}
use go_data_reqrep_shared.Mutex.Patience.{patience}

abbrev pids : ℕ → ℕ
pids i = if i == 0 then 5 else 7

pids-lt : (i : ℕ) → pids i < 0x8000_0000
pids-lt i = ground arith

abbrev init : System
init = record {
  lock = record { word = 0; waiters = 0; recoveries = 0; wakes = 0 };
  dead = λ p. false;
  thread = λ i. go Go.idle;
}

init-IsFresh : IsFresh init
init-IsFresh = record { free = refl; nobody = λ i. refl }

abbrev started : System
started = moved pids init 0 refl init.lock (Go.spin 0 0 0)

abbrev entered : System
entered = moved pids started 0 refl (record init.lock { word = lock_value 5 }) Go.critical

entered-Reach : Reach pids init entered
entered-Reach =
    next (next here (go_step 0 refl refl Go.start))
      (go_step 0 refl refl (Go.spin_win (omega arith) refl))

mutual_exclusion_example : (◌≡◌ {A = ℕ} 0 0) × (entered.lock.word ≡ lock_value (pids 0))
mutual_exclusion_example =
    mutual_exclusion pids-lt init-IsFresh entered-Reach 0 0 refl refl refl refl

-- The holder, process 5, is dead.
abbrev orphaned : System
orphaned = record {
  lock = record { word = 0x8000_0005; waiters = 0; recoveries = 0; wakes = 0 };
  dead = λ p. p == 5;
  thread = λ i. if i == 0 then go Go.critical else go Go.idle;
}

takeover_example :
    Solo orphaned.dead 7 orphaned.lock Go.idle 2 (taken_over 7 orphaned.lock) Go.critical
    × Reach pids orphaned (moved pids orphaned 1 refl (taken_over 7 orphaned.lock) Go.critical)
takeover_example =
    takeover pids orphaned 1 refl refl (omega arith) (λ e. omega arith) refl (omega arith)

patience_example : ◌≤◌ 2 2
patience_example =
    patience
      (takeover pids orphaned 1 refl refl (omega arith) (λ e. omega arith) refl (omega arith)).0
      (λ e. omega (arith, e))
