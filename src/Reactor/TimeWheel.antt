-- ===== src/Reactor/TimeWheel.antt =====
-- libeva/TimeWheel/TimeWheel.h and TimeWheel.cc: a wheel of slots, one for each
-- millisecond, each with a list of timers. LOG_FATAL and what `at` throws are `none`, like a
-- read of a timer that is not there. The wheel has no timerfd,
-- as the reactor makes it. A callback is recorded by its timer's id and does not itself use the wheel.
pub mod Shape
pub mod Changes
pub mod Ticks
pub mod Rounds
pub mod Lost
pub mod Destroy
mod Tests
use libeva.Base.{
  ℕ, zero, suc, ◌+◌, ◌-◌, ◌%◌, ◌≡◌, refl, Bool, true, false, not, Option, none, some, List, [], ◌∷◌,
  ◌++◌, ltb, leb, ◌==◌, if◌then◌else◌, get_elem?, set, replicate,
}
use libeva.Ds.LazyList.{◌>>=◌}
use libeva.Reactor.Timer.{ℤ, pos, negsuc, Clock, Timer, put, new_timer}

-- `fresh` is where `new` puts the next timer, and `reads` counts the readings of the clock.
pub record TimeWheel (C : Clock) : Type 0 where
  pub heap : ℕ → Option (Timer C)
  pub fresh : ℕ
  pub num_created : ℕ
  pub slot : List (Option ℕ)
  pub num_slot : ℕ
  pub start : C.Time
  pub start_idx : ℕ
  pub reads : ℕ

-- The index `n` of `startIdx_ + diff`, where it is not negative; `% numSlot_` keeps the sign.
abbrev pub slot_index : ℕ → ℤ → ℕ → Option ℕ
slot_index start_idx (pos d) num = some ((start_idx + d) % num)
slot_index start_idx (negsuc d) num =
    if ltb d start_idx
    then some ((start_idx - suc d) % num)
    else if (suc d - start_idx) % num == 0
    then some 0
    else none

abbrev pub is_index : ℤ → ℕ → Bool
is_index (pos n) i = n == i
is_index (negsuc n) i = false

abbrev pub is_at : Option ℕ → ℕ → Bool
is_at none a = false
is_at (some b) a = b == a

abbrev is_too_far : ℤ → ℕ → Bool
is_too_far (pos d) num = leb num d
is_too_far (negsuc d) num = false

-- An index of -1 reads outside the vector.
abbrev index_of : ℤ → Option ℕ
index_of (pos i) = some i
index_of (negsuc i) = none

module _ {C : Clock} where
  pub init : ℕ → TimeWheel C
  init num_bucket = record {
    heap = λ a. none;
    fresh = 0;
    num_created = 0;
    slot = replicate num_bucket none;
    num_slot = num_bucket;
    start = C.now 0;
    start_idx = 0;
    reads = 1;
  }

  pub restart : TimeWheel C → TimeWheel C
  restart w = record w { start = C.now w.reads; start_idx = 0; reads = suc w.reads }

  -- `addTimer( Timer*, Timestamp )`, from the difference on.
  pub add_timer : TimeWheel C → ℕ → ℤ → Option (TimeWheel C)
  add_timer w timer diff = if is_too_far diff w.num_slot then none else (do
    i ← slot_index w.start_idx diff w.num_slot
    old ← get_elem? w.slot i
    t ← w.heap timer
    elim old [
      | none ↦ some (record w {
        heap = put w.heap timer (some (record t { index = pos i }));
        slot = set w.slot i (some timer);
      })
      | some first ↦ do
        f ← w.heap first
        elim f.pre [
          | some p ↦ none
          | none ↦ some (record w {
            heap = put w.heap timer (some (record t { next = some first; index = pos i }));
            slot = set w.slot i (some timer);
          })
        ]
    ])

  pub add_timer_in_reactor : TimeWheel C → ℕ → Option (TimeWheel C)
  unfolding add_timer
  add_timer_in_reactor w timer = do
    t ← w.heap timer
    add_timer w timer (C.ms_between t.expiration w.start)

  -- `addTimer( TimerCallback, Timestamp, double )` up to `runInReactor`.
  unfoldable pub create_timer : TimeWheel C → C.Time → C.Interval → Option (TimeWheel C × ℕ)
  create_timer w when interval =
      if C.is_before when w.start
      then none
      else some (
        record w {
          heap = put w.heap w.fresh (some (new_timer w.num_created when interval));
          fresh = suc w.fresh;
          num_created = suc w.num_created;
        },
        w.fresh,
      )

  pub cancel_in_reactor : TimeWheel C → ℕ → Option (TimeWheel C)
  cancel_in_reactor w timer = do
    t ← w.heap timer
    i ← index_of t.index
    first ← get_elem? w.slot i
    if is_at first timer
        then some (record w { slot = set w.slot i t.next; heap = put w.heap timer none })
        else (do
          p ← t.pre
          prev ← w.heap p
          let h = put w.heap p (some (record prev { next = t.next }))
          n ← t.next
          after ← h n
          some (record w { heap = put (put h n (some (record after { pre = t.pre }))) timer none }))

  -- What happens to a timer that has run: it is put into a slot again or freed.
  pub after_run : TimeWheel C → ℕ → Timer C → Option (TimeWheel C)
  unfolding add_timer
  after_run w tmp t =
      let h = put w.heap tmp (some (record t { next = none })) in
      let when = C.add_interval (C.now w.reads) t.interval in
      if t.repeat
      then add_timer (record w { heap = h; reads = suc w.reads }) tmp (C.ms_between when w.start)
      else some (record w { heap = put h tmp none })

  -- The loop over the list of a slot: the ids of the timers that run, in order.
  pub run_list : ℕ → TimeWheel C → Option ℕ → Option (TimeWheel C × List ℕ)
  run_list fuel w none = some (w, [])
  run_list zero w (some head) = none
  run_list (suc fuel) w (some head) = do
    t ← w.heap head
    if not (is_index t.index w.start_idx) then none else (do
      w' ← after_run w head t
      rest ← run_list fuel w' t.next
      some (rest.0, t.id ∷ rest.1))

  -- One round of the loop of `tock`.
  pub tick_round : ℕ → TimeWheel C → Option (TimeWheel C × List ℕ)
  tick_round fuel w = do
    let i = (w.start_idx + 1) % w.num_slot
    let w1 = record w { start_idx = i; start = C.add_ms w.start }
    head ← get_elem? w1.slot i
    elim head [
      | none ↦ some (w1, [])
      | some first ↦ do
        r ← run_list fuel w1 (some first)
        some (record r.0 { slot = set r.0.slot i none }, r.1)
    ]

  pub tick_rounds : ℕ → ℕ → TimeWheel C → Option (TimeWheel C × List ℕ)
  tick_rounds fuel zero w = some (w, [])
  tick_rounds fuel (suc diff) w = do
    r ← tick_round fuel w
    rest ← tick_rounds fuel diff r.0
    some (rest.0, r.1 ++ rest.1)

  -- The destructor: the loop over a list and that over the slots.
  pub free_list : ℕ → (ℕ → Option (Timer C)) → Option ℕ → Option (ℕ → Option (Timer C))
  free_list fuel h none = some h
  free_list zero h (some p) = none
  free_list (suc fuel) h (some p) = do t ← h p; free_list fuel (put h p none) t.next

  pub free_slots : ℕ → (ℕ → Option (Timer C)) → List (Option ℕ) → Option (ℕ → Option (Timer C))
  unfolding free_list
  free_slots fuel h [] = some h
  free_slots fuel h (p ∷ ps) = do h' ← free_list fuel h p; free_slots fuel h' ps

  -- `delTimer` only looks at the index.
  pub del_timer : TimeWheel C → ℕ → Option (TimeWheel C)
  del_timer w timer = do t ← w.heap timer; i ← index_of t.index; some w

  -- A clock that went back gives a negative difference and no round.
  pub tock : ℕ → TimeWheel C → Option (TimeWheel C × List ℕ)
  tock fuel w =
      let w1 = record w { reads = suc (suc w.reads) } in
      elim (C.ms_between (C.now (suc w.reads)) w.start) [
        | pos diff ↦ tick_rounds fuel diff w1
        | negsuc d ↦ some (w1, [])
      ]
