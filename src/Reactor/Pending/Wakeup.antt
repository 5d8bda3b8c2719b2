-- ===== src/Reactor/Pending/Wakeup.antt =====
-- No wakeup is lost.
use libeva.Base.{
  ◌+◌, ◌<◌, ◌≡◌, ◌≢◌, ◌⊎◌, inl, inr, refl, sym, subst, ◌∙◌, List, [], ◌∷◌, ◌++◌, arith,
  append_assoc, append-nil, true, false,
}
use libeva.Reactor.Pending.{
  Pc, Reactor, start, Handling, DoPending, Step, in_handler, in_pending, wake, other_event,
  read_eventfd, read_later, handler_push, handler_flag, handler_quiet, handler_wakeup, handler_stop,
  handled, test_true, test_false, set_calling, swap, call, call_push, call_flag, call_quiet,
  call_stop, call_wakeup, called, reset, next_round, leave, Other, queue_push, queue_flag,
  queue_wakeup, stop, Reach, here, own, other, waiting, woken, handling, handler_pushed,
  handler_waking, testing, starting, swapping, calling, call_pushed, call_waking, resetting,
  looping, stopped,
}

module _ {F : Type 0} where
  -- Nothing is pending, or a wakeup is on its way.
  abbrev pub Woken : Reactor F → Type 0
  Woken r = (r.pending_functors ≡ []) ⊎ (0 < r.pushed + r.flagged + r.eventfd)

  -- The same, or the flag is set.
  abbrev pub Flagged : Reactor F → Type 0
  Flagged r = Woken r ⊎ (r.has_pending_functors ≡ true)

  -- What is known of the wakeups at each place of the reactor's thread.
  abbrev Wakes : Pc F → Reactor F → Type 0
  Wakes waiting r = Woken r
  Wakes woken r = Unit
  Wakes handling r = Flagged r
  Wakes handler_pushed r = Unit
  Wakes handler_waking r = Flagged r
  Wakes testing r = Flagged r
  Wakes starting r = Unit
  Wakes swapping r = Unit
  Wakes (calling fs) r = Woken r
  Wakes (call_pushed fs) r = Unit
  Wakes (call_waking fs) r = Unit
  Wakes resetting r = Woken r
  Wakes looping r = Woken r
  Wakes stopped r = Unit

  -- callingPendingFunctors_ is set while the functors are called.
  abbrev Calls : Pc F → Reactor F → Type 0
  Calls waiting r = Unit
  Calls woken r = Unit
  Calls handling r = Unit
  Calls handler_pushed r = Unit
  Calls handler_waking r = Unit
  Calls testing r = Unit
  Calls starting r = Unit
  Calls swapping r = r.calling_pending_functors ≡ true
  Calls (calling fs) r = r.calling_pending_functors ≡ true
  Calls (call_pushed fs) r = r.calling_pending_functors ≡ true
  Calls (call_waking fs) r = r.calling_pending_functors ≡ true
  Calls resetting r = Unit
  Calls looping r = Unit
  Calls stopped r = Unit

  abbrev Covered : Pc F → Reactor F → Type 0
  Covered p r = Wakes p r × Calls p r

  at : (r : Reactor F) (p : Pc F) → r.pc ≡ p → Covered r.pc r → Covered p r
  at r p e c = subst (λ q. Covered q r) e c

  -- The same where dispatching_ is reset.
  not_dispatching :
      (r : Reactor F) (p : Pc F)
      → r.pc ≡ p
      → Covered p (record r { dispatching = false })
      → Covered r.pc (record r { dispatching = false })
  not_dispatching r p e c = subst (λ q. Covered q (record r { dispatching = false })) (sym e) c

  Handling-Covered : {r s : Reactor F} → Handling r s → Covered r.pc r → Covered s.pc s
  Handling-Covered {r} (read_later e) c = (inr refl, tt)
  Handling-Covered {r} (handler_push f e) c = (tt, tt)
  Handling-Covered {r} (handler_flag e) c = (inr refl, tt)
  Handling-Covered {r} (handler_quiet e q) c = ((at r _ e c).0, tt)
  Handling-Covered {r} (handler_wakeup e q) c = (inl (inr (omega arith)), tt)
  Handling-Covered {r} (handler_stop e) c = not_dispatching r _ e (at r _ e c)

  DoPending-Covered : {r s : Reactor F} → DoPending r s → Covered r.pc r → Covered s.pc s
  DoPending-Covered {r} (set_calling e) c = (tt, refl)
  DoPending-Covered {r} (swap e) c = (inl refl, (at r _ e c).1)
  DoPending-Covered {r} (call f fs e) c = at r _ e c
  DoPending-Covered {r} (call_push f fs e) c = (tt, (at r _ e c).1)
  DoPending-Covered {r} (call_flag fs e) c = (tt, (at r _ e c).1)
  DoPending-Covered {r} (call_quiet fs e q) c = let set = (at r _ e c).1 in cc
  DoPending-Covered {r} (call_wakeup fs e q) c = (inr (omega arith), q)
  DoPending-Covered {r} (call_stop fs e) c = not_dispatching r _ e (at r _ e c)
  DoPending-Covered {r} (called e) c = ((at r _ e c).0, tt)

  Step-Covered : {r s : Reactor F} → Step r s → Covered r.pc r → Covered s.pc s
  Step-Covered {r} (wake e lt) c = (tt, tt)
  Step-Covered {r} (other_event e) c = (inl (at r _ e c).0, tt)
  Step-Covered {r} (read_eventfd e) c = (inr refl, tt)
  Step-Covered (in_handler st) c = Handling-Covered st c
  Step-Covered {r} (handled e) c = at r _ e c
  Step-Covered {r} (test_true e t) c = (tt, tt)
  Step-Covered {r} (test_false e t) c = elim (at r _ e c).0 [ inl w ↦ (w, tt) | inr f ↦ cc ]
  Step-Covered (in_pending st) c = DoPending-Covered st c
  Step-Covered {r} (reset e) c = at r _ e c
  Step-Covered {r} (next_round e d) c = at r _ e c
  Step-Covered {r} (leave e d) c = (tt, tt)

  -- Where a wakeup is on its way, nothing else has to be known.
  Wakes-mono : (p : Pc F) (s : Reactor F) → 0 < s.pushed + s.flagged + s.eventfd → Wakes p s
  Wakes-mono waiting s n = inr n
  Wakes-mono woken s n = tt
  Wakes-mono handling s n = inl (inr n)
  Wakes-mono handler_pushed s n = tt
  Wakes-mono handler_waking s n = inl (inr n)
  Wakes-mono testing s n = inl (inr n)
  Wakes-mono starting s n = tt
  Wakes-mono swapping s n = tt
  Wakes-mono (calling fs) s n = inr n
  Wakes-mono (call_pushed fs) s n = tt
  Wakes-mono (call_waking fs) s n = tt
  Wakes-mono resetting s n = inr n
  Wakes-mono looping s n = inr n
  Wakes-mono stopped s n = tt

  Calls-agree :
      (p : Pc F) (r s : Reactor F)
      → s.calling_pending_functors ≡ r.calling_pending_functors
      → Calls p r
      → Calls p s
  Calls-agree waiting r s e c = tt
  Calls-agree woken r s e c = tt
  Calls-agree handling r s e c = tt
  Calls-agree handler_pushed r s e c = tt
  Calls-agree handler_waking r s e c = tt
  Calls-agree testing r s e c = tt
  Calls-agree starting r s e c = tt
  Calls-agree swapping r s e c = e ∙ c
  Calls-agree (calling fs) r s e c = e ∙ c
  Calls-agree (call_pushed fs) r s e c = e ∙ c
  Calls-agree (call_waking fs) r s e c = e ∙ c
  Calls-agree resetting r s e c = tt
  Calls-agree looping r s e c = tt
  Calls-agree stopped r s e c = tt

  Other-Covered : {r s : Reactor F} → Other r s → Covered r.pc r → Covered s.pc s
  Other-Covered {r} (queue_push f) c =
      (Wakes-mono r.pc _ (omega arith), Calls-agree r.pc r _ refl c.1)
  Other-Covered {r} (queue_flag n e) c =
      (Wakes-mono r.pc _ (omega arith), Calls-agree r.pc r _ refl c.1)
  Other-Covered {r} (queue_wakeup n e) c =
      (Wakes-mono r.pc _ (omega arith), Calls-agree r.pc r _ refl c.1)
  Other-Covered {r} stop c = (Wakes-mono r.pc _ (omega arith), Calls-agree r.pc r _ refl c.1)

  Reach-Covered : {s : Reactor F} → Reach start s → Covered s.pc s
  Reach-Covered here = (inl refl, tt)
  Reach-Covered (own r st) = Step-Covered st (Reach-Covered r)
  Reach-Covered (other r st) = Other-Covered st (Reach-Covered r)

  -- In every reachable state in which the reactor's thread is about to wait and functors are
  -- pending, eventfd_ is readable, or another thread in queueInReactor or stop has yet to call
  -- wakeup.
  pub waiting-Woken :
      (s : Reactor F)
      → Reach start s
      → s.pc ≡ waiting
      → s.pending_functors ≢ []
      → (0 < s.eventfd) ⊎ (0 < s.pushed + s.flagged)
  waiting-Woken s r e ne = elim (at s waiting e (Reach-Covered r)).0 [
    | inl empty ↦ absurd (ne empty)
    | inr n ↦ ground (arith, n)
  ]

  -- Steps of the reactor's thread alone.
  pub data Runs (r : Reactor F) : Reactor F → Type 0 where
    done : Runs r r
    more : {s t : Reactor F} → Runs r s → Step s t → Runs r t

  call_all :
      (r s : Reactor F) (fs ex : List F)
      → Runs r (record s { pc = calling fs; executed = ex })
      → Runs r (record s { pc = calling []; executed = ex ++ fs })
  call_all r s [] ex runs =
      subst (λ l. Runs r (record s { pc = calling []; executed = l })) (sym (append-nil ex)) runs
  call_all r s (f ∷ fs) ex runs =
      subst (λ l. Runs r (record s { pc = calling []; executed = l })) (append_assoc ex (f ∷ []) fs)
        (call_all r s fs (ex ++ (f ∷ [])) (more runs (in_pending (call f fs refl))))

  -- Where the reactor's thread is about to wait, dispatching_ is set and eventfd_ is readable,
  -- steps of the reactor's thread alone run every pending functor, in order, and lead back to
  -- waiting, with none pending.
  pub pending-Runs :
      (s : Reactor F)
      → s.pc ≡ waiting
      → s.dispatching ≡ true
      → 0 < s.eventfd
      → (t : Reactor F) × Runs s t
        × (t.pc ≡ waiting)
        × (t.pending_functors ≡ [])
        × (t.executed ≡ s.executed ++ s.pending_functors)
  pending-Runs s e d n =
      let swapped =
        more
          (more
            (more (more (more (more done (wake e n)) (read_eventfd refl)) (handled refl))
              (test_true refl refl))
            (in_pending (set_calling refl)))
          (in_pending (swap refl)) in
      let last = record s {
        eventfd = 0;
        has_pending_functors = true;
        calling_pending_functors = true;
        pending_functors = [];
      } in
      (
        _,
        more
            (more
              (more (call_all s last s.pending_functors s.executed swapped)
                (in_pending (called refl)))
              (reset refl))
            (next_round refl d),
        refl,
        refl,
        refl,
      )
