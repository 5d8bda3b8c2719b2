-- ===== src/Reactor/Demultiplexer.antt =====
-- libeva/Reactor/Demultiplexer.h and Demultiplexer.cc: the events that a reactor has registered with
-- epoll. An Event is an object at an address, so that the events, the map from file descriptors to
-- events and the kernel's interest list are three tables. Epoll itself is an interface. A failure
-- that the code takes for fatal is `none`.
pub mod Registered
pub mod Wait
pub mod Life
mod Tests
use libeva.Base.{ℕ, ◌≡◌, Bool, true, false, Option, none, some, ◌==◌, if◌then◌else◌}
use libeva.Ds.LazyList.{◌>>=◌}
use libeva.Reactor.Event.{
  Event, EventState, is_new, added, deled, is_none_event, with_reading, with_writing,
  without_writing, none_event,
}

pub data Op : Type 0 where
  ctl_add : Op
  ctl_mod : Op
  ctl_del : Op

-- `epoll_ctl` as epoll_ctl(2) describes it: for each file descriptor of the interest list the events
-- and the pointer that were given last. Adding what is there, and changing or deleting what is not,
-- fails.
pub record Epoll (K : Type 0) : Type 0 where
  pub interest : K → ℕ → Option (ℕ × ℕ)
  pub ctl : K → Op → ℕ → ℕ × ℕ → K × Bool
  pub add_lem :
      (k : K) (fd : ℕ) (e : ℕ × ℕ)
      → interest k fd ≡ none
      → ((ctl k ctl_add fd e).1 ≡ true)
        × ((j : ℕ) → interest (ctl k ctl_add fd e).0 j ≡ (if j == fd then some e else interest k j))
  pub mod_lem :
      (k : K) (fd : ℕ) (e old : ℕ × ℕ)
      → interest k fd ≡ some old
      → ((ctl k ctl_mod fd e).1 ≡ true)
        × ((j : ℕ) → interest (ctl k ctl_mod fd e).0 j ≡ (if j == fd then some e else interest k j))
  pub del_lem :
      (k : K) (fd : ℕ) (e old : ℕ × ℕ)
      → interest k fd ≡ some old
      → ((ctl k ctl_del fd e).1 ≡ true)
        × ((j : ℕ) → interest (ctl k ctl_del fd e).0 j ≡ (if j == fd then none else interest k j))

pub record Demultiplexer (K : Type 0) : Type 0 where
  pub kernel : K
  pub event_map : ℕ → Option ℕ
  pub objects : ℕ → Option Event
  -- The size of `eventList_`.
  pub event_list : ℕ

-- The constructor; the list has kInitEventListSize places.
pub init : {K : Type 0} → K → Demultiplexer K
init k = record { kernel = k; event_map = λ fd. none; objects = λ ptr. none; event_list = 16 }

abbrev pub put {ℓ} : {A : Type ℓ} → (ℕ → Option A) → ℕ → Option A → ℕ → Option A
put m i v j = if j == i then v else m j

module _ {K : Type 0} (E : Epoll K) where
  -- A failed EPOLL_CTL_DEL is logged only.
  pub register_inner : Op → ℕ → Event → K → Option K
  register_inner op ptr ev k =
      let r = E.ctl k op ev.fd (ev.events, ptr) in
      if r.1 then some r.0 else elim op [ ctl_add ↦ none | ctl_mod ↦ none | ctl_del ↦ some r.0 ]

  abbrev set_object : Demultiplexer K → ℕ → Event → K → Demultiplexer K
  set_object d ptr ev k = record d { kernel = k; objects = put d.objects ptr (some ev) }

  pub handle_new_event : Demultiplexer K → ℕ → Event → Option (Demultiplexer K)
  unfolding register_inner
  handle_new_event d ptr ev = do
    let ev' = record ev { state = added }
    k ← register_inner ctl_add ptr ev' d.kernel
    some (record (set_object d ptr ev' k) { event_map = put d.event_map ev.fd (some ptr) })

  pub handle_del_event : Demultiplexer K → ℕ → Event → Option (Demultiplexer K)
  unfolding register_inner
  handle_del_event d ptr ev = do
    let ev' = record ev { state = added }
    k ← register_inner ctl_add ptr ev' d.kernel
    some (set_object d ptr ev' k)

  pub handle_exist_event : Demultiplexer K → ℕ → Event → Option (Demultiplexer K)
  unfolding register_inner
  handle_exist_event d ptr ev =
      if is_none_event ev.events
      then (do
        k ← register_inner ctl_del ptr ev d.kernel
        some (set_object d ptr (record ev { state = deled }) k))
      else do k ← register_inner ctl_mod ptr ev d.kernel; some (set_object d ptr ev k)

  pub register_event : Demultiplexer K → ℕ → Event → Option (Demultiplexer K)
  unfolding handle_new_event handle_del_event handle_exist_event
  register_event d ptr ev = elim ev.state [
    | is_new ↦ handle_new_event d ptr ev
    | deled ↦ handle_del_event d ptr ev
    | added ↦ handle_exist_event d ptr ev
  ]

  -- `Event::update` after the flags were changed.
  pub update : Demultiplexer K → ℕ → (ℕ → ℕ) → Option (Demultiplexer K)
  unfolding register_event
  update d ptr change = do
    ev ← d.objects ptr
    register_event d ptr (record ev { events = change ev.events })

  pub enable_reading : Demultiplexer K → ℕ → Option (Demultiplexer K)
  unfolding update
  enable_reading d ptr = update d ptr with_reading

  pub enable_writing : Demultiplexer K → ℕ → Option (Demultiplexer K)
  unfolding update
  enable_writing d ptr = update d ptr with_writing

  pub disable_writing : Demultiplexer K → ℕ → Option (Demultiplexer K)
  unfolding update
  disable_writing d ptr = update d ptr without_writing

  pub disable_all : Demultiplexer K → ℕ → Option (Demultiplexer K)
  unfolding update
  disable_all d ptr = update d ptr (λ e. none_event)

  -- `Event::remove`
  pub unregister_event : Demultiplexer K → ℕ → Option (Demultiplexer K)
  unfolding register_inner
  unregister_event d ptr = do
    ev ← d.objects ptr
    k ← elim ev.state [
      | is_new ↦ some d.kernel
      | added ↦ register_inner ctl_del ptr ev d.kernel
      | deled ↦ some d.kernel
    ]
    some (record (set_object d ptr (record ev { state = is_new }) k) {
      event_map = put d.event_map ev.fd none;
    })
