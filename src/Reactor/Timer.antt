-- ===== src/Reactor/Timer.antt =====
-- libeva/TimeWheel/Timer.h and Timer.cc: the timers, on a heap; an address with no timer is null or
-- freed, and reading it is `none`. Times and intervals are a parameter.
use libeva.Base.{ℕ, Bool, Option, none, some, ◌==◌, if◌then◌else◌}
use libeva.Ds.LazyList.{◌>>=◌}

pub data ℤ : Type 0 where
  pos : ℕ → ℤ
  negsuc : ℕ → ℤ

-- What is used of the timestamps: the difference in milliseconds that `static_cast<int>` leaves, the
-- addition of a millisecond and of an interval, 0.0, and the clock's readings one after the other.
pub record Clock : Type 1 where
  pub Time : Type 0
  pub Interval : Type 0
  pub ms_between : Time → Time → ℤ
  pub is_before : Time → Time → Bool
  pub add_ms : Time → Time
  pub add_interval : Time → Interval → Time
  pub zero_interval : Interval
  pub is_positive : Interval → Bool
  pub now : ℕ → Time

pub record Timer (C : Clock) : Type 0 where
  pub pre : Option ℕ
  pub next : Option ℕ
  pub index : ℤ
  pub id : ℕ
  pub expiration : C.Time
  pub interval : C.Interval
  pub repeat : Bool

module _ {C : Clock} where
  abbrev pub put : (ℕ → Option (Timer C)) → ℕ → Option (Timer C) → ℕ → Option (Timer C)
  put h a v b = if b == a then v else h b

  -- A timer that stands in no slot; `count` is the value of numCreated_.
  abbrev pub new_timer : ℕ → C.Time → C.Interval → Timer C
  new_timer count when interval = record {
    pre = none;
    next = none;
    index = negsuc 0;
    id = count;
    expiration = when;
    interval = interval;
    repeat = C.is_positive interval;
  }

  -- The timer before a list that begins at `rhs`, `Timer::Join`.
  pub join : (ℕ → Option (Timer C)) → Option ℕ → Option ℕ → Option (ℕ → Option (Timer C))
  join h none rhs = some h
  join h (some l) none = some h
  join h (some l) (some r) = do
    lhs ← h l
    let h1 = put h l (some (record lhs { next = some r }))
    old ← h1 r
    elim old.pre [
      | none ↦ some (put h1 r (some (record old { pre = some l })))
      | some p ↦ do
        lhs' ← h1 l
        let h2 = put h1 l (some (record lhs' { pre = some p }))
        prev ← h2 p
        let h3 = put h2 p (some (record prev { next = some l }))
        rhs' ← h3 r
        some (put h3 r (some (record rhs' { pre = some l })))
    ]
