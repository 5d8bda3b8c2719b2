-- ===== src/Reactor/Pending/Order.antt =====
-- The functors run in the order in which they were queued.
use libeva.Base.{◌≡◌, refl, sym, ap, subst, ◌∙◌, List, [], ◌∷◌, ◌++◌, append_assoc, append-nil}
use libeva.Reactor.Pending.{
  Pc, Reactor, start, Handling, DoPending, Step, in_handler, in_pending, wake, other_event,
  read_eventfd, read_later, handler_push, handler_flag, handler_quiet, handler_wakeup, handler_stop,
  handled, test_true, test_false, set_calling, swap, call, call_push, call_flag, call_quiet,
  call_stop, call_wakeup, called, reset, next_round, leave, Other, queue_push, queue_flag,
  queue_wakeup, stop, Reach, here, own, other, waiting, woken, handling, handler_pushed,
  handler_waking, testing, starting, swapping, calling, call_pushed, call_waking, resetting,
  looping, stopped,
}

module _ {F : Type 0} where
  -- The functors that the reactor's thread has taken and not called yet.
  abbrev pub taken : Pc F → List F
  taken waiting = []
  taken woken = []
  taken handling = []
  taken handler_pushed = []
  taken handler_waking = []
  taken testing = []
  taken starting = []
  taken swapping = []
  taken (calling fs) = fs
  taken (call_pushed fs) = fs
  taken (call_waking fs) = fs
  taken resetting = []
  taken looping = []
  taken stopped = []

  abbrev pub InOrder : Reactor F → Type 0
  InOrder r = (r.executed ++ taken r.pc) ++ r.pending_functors ≡ r.queued

  -- The same at a given place.
  at :
      (r : Reactor F) (p : Pc F)
      → r.pc ≡ p
      → InOrder r
      → (r.executed ++ taken p) ++ r.pending_functors ≡ r.queued
  at r p e h = subst (λ q. (r.executed ++ taken q) ++ r.pending_functors ≡ r.queued) e h

  push-InOrder :
      (r : Reactor F) (f : F) (t : List F)
      → (r.executed ++ t) ++ r.pending_functors ≡ r.queued
      → (r.executed ++ t) ++ (r.pending_functors ++ (f ∷ [])) ≡ r.queued ++ (f ∷ [])
  push-InOrder r f t h =
      sym (append_assoc (r.executed ++ t) r.pending_functors (f ∷ [])) ∙ ap (λ l. l ++ (f ∷ [])) h

  Handling-InOrder : {r s : Reactor F} → Handling r s → InOrder r → InOrder s
  Handling-InOrder {r} (read_later e) h = at r _ e h
  Handling-InOrder {r} (handler_push f e) h = push-InOrder r f [] (at r _ e h)
  Handling-InOrder {r} (handler_flag e) h = at r _ e h
  Handling-InOrder {r} (handler_quiet e c) h = at r _ e h
  Handling-InOrder {r} (handler_wakeup e c) h = at r _ e h
  Handling-InOrder {r} (handler_stop e) h = h

  DoPending-InOrder : {r s : Reactor F} → DoPending r s → InOrder r → InOrder s
  DoPending-InOrder {r} (set_calling e) h = at r _ e h
  DoPending-InOrder {r} (swap e) h =
      append-nil (r.executed ++ r.pending_functors)
      ∙ ap (λ l. l ++ r.pending_functors) (sym (append-nil r.executed))
      ∙ at r _ e h
  DoPending-InOrder {r} (call f fs e) h =
      ap (λ l. l ++ r.pending_functors) (append_assoc r.executed (f ∷ []) fs) ∙ at r _ e h
  DoPending-InOrder {r} (call_push f fs e) h = push-InOrder r f fs (at r _ e h)
  DoPending-InOrder {r} (call_flag fs e) h = at r _ e h
  DoPending-InOrder {r} (call_quiet fs e c) h = at r _ e h
  DoPending-InOrder {r} (call_stop fs e) h = h
  DoPending-InOrder {r} (call_wakeup fs e c) h = at r _ e h
  DoPending-InOrder {r} (called e) h = at r _ e h

  Step-InOrder : {r s : Reactor F} → Step r s → InOrder r → InOrder s
  Step-InOrder {r} (wake e lt) h = at r _ e h
  Step-InOrder {r} (other_event e) h = at r _ e h
  Step-InOrder {r} (read_eventfd e) h = at r _ e h
  Step-InOrder (in_handler st) x = Handling-InOrder st x
  Step-InOrder {r} (handled e) h = at r _ e h
  Step-InOrder {r} (test_true e t) h = at r _ e h
  Step-InOrder {r} (test_false e t) h = at r _ e h
  Step-InOrder {r} (reset e) h = at r _ e h
  Step-InOrder {r} (next_round e d) h = at r _ e h
  Step-InOrder {r} (leave e d) h = at r _ e h
  Step-InOrder (in_pending st) x = DoPending-InOrder st x

  Other-InOrder : {r s : Reactor F} → Other r s → InOrder r → InOrder s
  Other-InOrder {r} (queue_push f) h = push-InOrder r f (taken r.pc) h
  Other-InOrder {r} (queue_flag n e) h = h
  Other-InOrder {r} (queue_wakeup n e) h = h
  Other-InOrder {r} stop h = h

  -- In every reachable state the functors that have run, then those that the reactor's thread has
  -- taken, then those that are pending, are all the functors that were queued, in the order in
  -- which they were queued.
  pub Reach-InOrder : {s : Reactor F} → Reach start s → InOrder s
  Reach-InOrder here = refl
  Reach-InOrder (own r st) = Step-InOrder st (Reach-InOrder r)
  Reach-InOrder (other r st) = Other-InOrder st (Reach-InOrder r)
