-- ===== src/Reactor/TimeWheel/Tests.antt =====
-- A wheel of three slots with two timers in one of them.
use libeva.Base.{
  length, ◌≤◌, true, get_elem?, sym, ap, ℕ, zero, suc, ◌+◌, ◌-◌, ◌<◌, ◌≡◌, refl, ◌==◌,
  if◌then◌else◌, Option, none, some, List, [], ◌∷◌, arith, false, ltb, Bool,
}
use libeva.Reactor.Timer.{ℤ, pos, negsuc, Clock, Timer}
use libeva.Reactor.TimeWheel.{TimeWheel, cancel_in_reactor, tick_rounds, free_slots, tick_round}
use libeva.Reactor.TimeWheel.Shape.{Outside, Linked, Distinct, HoldsTimers}
use libeva.Reactor.TimeWheel.Changes.{cancel-Holds, cancel-fault}
use libeva.Reactor.TimeWheel.Ticks.{ids, OneShot}
use libeva.Reactor.TimeWheel.Rounds.{Schedule, clear}
use libeva.Reactor.TimeWheel.Lost.{looped, repeating-lost}
use libeva.Reactor.TimeWheel.Destroy.{AllFreed, free_slots-Frees}
use libeva.Reactor.Timers.{run_after}
use libeva.Reactor.Timers.Runs.{run_after-due}

-- Times are milliseconds, and the clock always reads 100.
abbrev fixed_clock : Clock
fixed_clock = record {
  Time = ℕ;
  Interval = ℕ;
  ms_between = λ high low. pos (high - low);
  is_before = ltb;
  add_ms = suc;
  add_interval = ◌+◌;
  zero_interval = 0;
  is_positive = ltb 0;
  now = λ n. 100;
}

abbrev timer : Option ℕ → ℤ → ℕ → Timer fixed_clock
timer next index id = record {
  pre = none;
  next = next;
  index = index;
  id = id;
  expiration = 101;
  interval = 0;
  repeat = false;
}

abbrev timers : ℕ → Option (Timer fixed_clock)
timers zero = some (timer (some 1) (pos 1) 7)
timers (suc zero) = some (timer none (pos 1) 8)
timers (suc (suc zero)) = some (timer none (negsuc 0) 9)
timers (suc (suc (suc a))) = none

abbrev wheel : TimeWheel fixed_clock
wheel = record {
  heap = timers;
  fresh = 3;
  num_created = 10;
  slot = none ∷ some 0 ∷ none ∷ [];
  num_slot = 3;
  start = 100;
  start_idx = 0;
  reads = 1;
}

abbrev lists : ℕ → List ℕ
lists zero = []
lists (suc zero) = 0 ∷ 1 ∷ []
lists (suc (suc i)) = []

wheel-Holds : HoldsTimers wheel lists
wheel-Holds = record { size = refl; slots = at_slot }
  where
    at_slot :
        (i : ℕ)
        → i < 3
        → (p : Option ℕ) × (get_elem? wheel.slot i ≡ some p)
          × Linked timers i p (lists i)
          × Distinct (lists i)
    at_slot zero lt = (none, refl, refl, tt)
    at_slot (suc zero) lt = (
      some 0,
      refl,
      (refl, _, refl, refl, refl, (refl, _, refl, refl, refl, refl)),
      (((λ e. omega arith), tt), (tt, tt)),
    )
    at_slot (suc (suc zero)) lt = (none, refl, refl, tt)
    at_slot (suc (suc (suc i))) lt = absurd (omega arith)

two_apart : (i : ℕ) → i < 3 → Outside 2 (lists i)
two_apart zero lt = tt
two_apart (suc zero) lt = ((λ e. omega arith), ((λ e. omega arith), tt))
two_apart (suc (suc i)) lt = tt

cancel-Holds_example :
    (w' : TimeWheel fixed_clock) × (cancel_in_reactor wheel 0 ≡ some w')
    × HoldsTimers w' (λ j. if j == 1 then 1 ∷ [] else lists j)
    × (w'.heap 0 ≡ none)
cancel-Holds_example = cancel-Holds wheel lists 1 0 (1 ∷ []) wheel-Holds (omega arith) refl

cancel-fault_example : cancel_in_reactor wheel 1 ≡ none
cancel-fault_example = cancel-fault wheel lists 1 0 1 wheel-Holds (omega arith) refl

abbrev repeats : Option (Timer fixed_clock) → Bool
repeats none = false
repeats (some t) = t.repeat

abbrev lists_ids : ℕ → List ℕ
lists_ids i = ids timers (lists i)

wheel-Schedule : Schedule 2 wheel lists lists_ids
wheel-Schedule = record {
  holds = wheel-Holds;
  some_slot = omega arith;
  once = once;
  enough = enough;
  named = λ i lt. refl;
}
  where
    once : (i : ℕ) → i < 3 → OneShot timers (lists i)
    once zero lt = tt
    once (suc zero) lt = ((λ t e. sym (ap repeats e)), ((λ t e. sym (ap repeats e)), tt))
    once (suc (suc i)) lt = tt

    enough : (i : ℕ) → i < 3 → length (lists i) ≤ 2
    enough zero lt = omega arith
    enough (suc zero) lt = omega arith
    enough (suc (suc i)) lt = omega arith

-- A timer that is due in two milliseconds runs after the two of the slot before.
run_after-due_example :
    (w' : TimeWheel fixed_clock) × (w'' : TimeWheel fixed_clock) × (run_after wheel 2
      ≡ some (w', 3))
    × (tick_rounds 3 2 w' ≡ some (w'', 7 ∷ 8 ∷ 10 ∷ []))
run_after-due_example =
    run_after-due 2 wheel lists lists_ids 2 1 wheel-Schedule refl refl refl refl (omega arith)

free_slots-Frees_example :
    (h' : ℕ → Option (Timer fixed_clock)) × (free_slots 2 timers wheel.slot ≡ some h')
    × ((i : ℕ) → i < 3 → AllFreed h' (lists i))
    × ((b : ℕ) → ((i : ℕ) → i < 3 → Outside b (lists i)) → h' b ≡ timers b)
free_slots-Frees_example = free_slots-Frees 2 wheel lists wheel-Holds wheel-Schedule.enough

-- A timer that repeats with an interval of less than a millisecond, which is 0 in this clock: the
-- wheel is at 99, and the clock reads 100.
abbrev quick : Timer fixed_clock
quick = record (timer none (pos 1) 7) { repeat = true }

abbrev quick_wheel : TimeWheel fixed_clock
quick_wheel = record wheel { heap = λ a. if a == 0 then some quick else none; start = 99 }

abbrev quick_lists : ℕ → List ℕ
quick_lists zero = []
quick_lists (suc zero) = 0 ∷ []
quick_lists (suc (suc i)) = []

quick-Holds : HoldsTimers quick_wheel quick_lists
quick-Holds = record { size = refl; slots = at_slot }
  where
    at_slot :
        (i : ℕ)
        → i < 3
        → (p : Option ℕ) × (get_elem? quick_wheel.slot i ≡ some p)
          × Linked quick_wheel.heap i p (quick_lists i)
          × Distinct (quick_lists i)
    at_slot zero lt = (none, refl, refl, tt)
    at_slot (suc zero) lt = (some 0, refl, (refl, _, refl, refl, refl, refl), (tt, tt))
    at_slot (suc (suc zero)) lt = (none, refl, refl, tt)
    at_slot (suc (suc (suc i))) lt = absurd (omega arith)

repeating-lost_example :
    (w' : TimeWheel fixed_clock) × (tick_round 2 quick_wheel ≡ some (w', 7 ∷ []))
    × HoldsTimers w' (clear 1 quick_lists)
    × ((i : ℕ) → i < 3 → Outside 0 (clear 1 quick_lists i))
    × (w'.heap 0 ≡ some (looped quick 0 1))
repeating-lost_example =
    repeating-lost quick_wheel quick_lists 0 quick quick-Holds (omega arith) refl refl refl refl 0
