-- ===== src/Reactor/Demultiplexer/Life.antt =====
-- The life of a demultiplexer: events are made, watched, waited for, removed and deleted.
pub mod Serves
use libeva.Base.{
  ℕ, ◌≡◌, ◌≢◌, refl, sym, ap, ap₂, subst, ◌∙◌, inl, inr, true, false, Bool-cases, ==_iff, Option,
  none, some, Option-cases, List, ◌==◌, arith,
}
use libeva.Reactor.Event.{Event, is_new}
use libeva.Reactor.Event
use libeva.Reactor.Demultiplexer.{
  Epoll, Demultiplexer, init, put, unregister_event, enable_reading, enable_writing,
  disable_writing, disable_all,
}
use libeva.Reactor.Demultiplexer.Wait.{EpollWait, demultiplex}

module _ {K : Type 0} where
  -- `Event::Event` of a file descriptor.
  abbrev pub new_event : Demultiplexer K → ℕ → ℕ → Demultiplexer K
  new_event d ptr fd = record d { objects = put d.objects ptr (some (Event.init fd)) }

  abbrev pub delete_event : Demultiplexer K → ℕ → Demultiplexer K
  delete_event d ptr = record d { objects = put d.objects ptr none }

module _ {K : Type 0} {E : Epoll K} where
  -- What the connections and the reactor do. An event is made for a file descriptor that no other
  -- has, and deleted once it is removed.
  pub data Step (W : EpollWait E) (d : Demultiplexer K) : Demultiplexer K → Type 0 where
    made :
        (ptr fd : ℕ)
        → d.objects ptr ≡ none
        → ((q : ℕ) (a : Event) → d.objects q ≡ some a → a.fd ≢ fd)
        → Step W d (new_event d ptr fd)
    reads :
        {d' : Demultiplexer K} (ptr : ℕ) (ev : Event)
        → d.objects ptr ≡ some ev
        → enable_reading E d ptr ≡ some d'
        → Step W d d'
    writes :
        {d' : Demultiplexer K} (ptr : ℕ) (ev : Event)
        → d.objects ptr ≡ some ev
        → enable_writing E d ptr ≡ some d'
        → Step W d d'
    written :
        {d' : Demultiplexer K} (ptr : ℕ) (ev : Event)
        → d.objects ptr ≡ some ev
        → disable_writing E d ptr ≡ some d'
        → Step W d d'
    disabled :
        {d' : Demultiplexer K} (ptr : ℕ) (ev : Event)
        → d.objects ptr ≡ some ev
        → disable_all E d ptr ≡ some d'
        → Step W d d'
    removed :
        {d' : Demultiplexer K} (ptr : ℕ) (ev : Event)
        → d.objects ptr ≡ some ev
        → unregister_event E d ptr ≡ some d'
        → Step W d d'
    waited :
        {d' : Demultiplexer K} (timeout : ℕ) (ptrs : List ℕ)
        → demultiplex W d timeout ≡ some (d', ptrs)
        → Step W d d'
    deleted :
        (ptr : ℕ) (a : Event)
        → d.objects ptr ≡ some a
        → a.state ≡ is_new
        → Step W d (delete_event d ptr)

  pub data Reach (W : EpollWait E) : Demultiplexer K → Type 0 where
    begun : (k : K) → ((fd : ℕ) → E.interest k fd ≡ none) → Reach W (init k)
    later : {d d' : Demultiplexer K} → Reach W d → Step W d d' → Reach W d'
