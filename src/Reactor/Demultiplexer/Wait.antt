-- ===== src/Reactor/Demultiplexer/Wait.antt =====
-- Demultiplexer::demultiplex: the events that epoll_wait reports, in the order of its report.
pub mod Reports
use libeva.Base.{
  ℕ, ◌*◌, ◌≤◌, ◌<◌, ◌≡◌, ◌≢◌, refl, sym, ap, ◌∙◌, inl, inr, true, false, Bool-cases, ==_iff, Option,
  none, some, List, [], ◌∷◌, map, length, arith, ◌==◌, if◌then◌else◌,
}
use libeva.Ds.LazyList.{◌>>=◌}
use libeva.Reactor.Event.{Event}
use libeva.Reactor.Demultiplexer.{Epoll, Demultiplexer, put}
use libeva.Reactor.Demultiplexer.Registered.{IsLive, IsRegistered, put-same, put-other}

-- A negative result, or the flags and the pointers that were written to the list.
pub data WaitResult : Type 0 where
  failed : WaitResult
  active : List (ℕ × ℕ) → WaitResult

-- Each file descriptor of the interest list is reported at most once, with the pointer it was given.
pub data IsReport : (ℕ → Option (ℕ × ℕ)) → List (ℕ × ℕ) → Type 0 where
  all_told : {i : ℕ → Option (ℕ × ℕ)} → IsReport i []
  told :
      {i : ℕ → Option (ℕ × ℕ)} (fd e p r : ℕ) {es : List (ℕ × ℕ)}
      → i fd ≡ some (e, p)
      → IsReport (put i fd none) es
      → IsReport i ((r, p) ∷ es)

-- `epoll_wait` as epoll_wait(2) describes it, of a size and a time to wait.
pub record EpollWait {K : Type 0} (E : Epoll K) : Type 0 where
  pub wait : K → ℕ → ℕ → K × WaitResult
  pub wait_keeps : (k : K) (n t j : ℕ) → E.interest (wait k n t).0 j ≡ E.interest k j
  pub wait_reports :
      (k : K) (n t : ℕ) (es : List (ℕ × ℕ))
      → (wait k n t).1 ≡ active es
      → IsReport (E.interest (wait k n t).0) es × (length es ≤ n)

-- The loop over the active events: `set_revents` and `push_back`.
pub collect : (ℕ → Option Event) → List (ℕ × ℕ) → Option ((ℕ → Option Event) × List ℕ)
collect o [] = some (o, [])
collect o ((events, ptr) ∷ es) = do
  ev ← o ptr
  rest ← collect (put o ptr (some (record ev { revents = events }))) es
  some (rest.0, ptr ∷ rest.1)

module _ {K : Type 0} where
  -- What is made of the result. A failure is logged at most.
  pub take_active : Demultiplexer K → WaitResult → Option (Demultiplexer K × List ℕ)
  unfolding collect
  take_active d failed = some (d, [])
  take_active d (active []) = some (d, [])
  take_active d (active (e ∷ es)) = do
    r ← collect d.objects (e ∷ es)
    let d' = record d { objects = r.0 }
    some (
      (if length (e ∷ es) == d.event_list then record d' { event_list = d.event_list * 2 } else d'),
      r.1,
    )

  pub demultiplex :
      {E : Epoll K} → EpollWait E → Demultiplexer K → ℕ → Option (Demultiplexer K × List ℕ)
  unfolding take_active
  demultiplex W d timeout =
      let r = W.wait d.kernel d.event_list timeout in take_active (record d { kernel = r.0 }) r.1
