-- ===== src/Reactor/Demultiplexer/Life/Serves.antt =====
-- What holds in every state that a demultiplexer reaches.
use libeva.Base.{
  ℕ, ◌≡◌, ◌≢◌, refl, sym, ap, subst, ◌∙◌, inl, inr, Bool-cases, ==_iff, Option, none, some,
  Option-cases, List, ◌==◌, arith,
}
use libeva.Reactor.Event.{Event, is_new}
use libeva.Reactor.Event
use libeva.Reactor.Demultiplexer.{
  Epoll, Demultiplexer, init, unregister_event, enable_reading, enable_writing, disable_writing,
  disable_all,
}
use libeva.Reactor.Demultiplexer.Registered.{
  IsRegistered, put-same, put-other, interest_of, mapped_of, IsLive,
}
use libeva.Reactor.Demultiplexer.Registered.Calls.{Keeps, calls-IsRegistered}
use libeva.Reactor.Demultiplexer.Wait.{EpollWait, demultiplex}
use libeva.Reactor.Demultiplexer.Wait.Reports.{Demultiplexed, demultiplex-Reports, reports}
use libeva.Reactor.Demultiplexer.Life.{
  new_event, delete_event, Step, made, reads, writes, written, disabled, removed, waited, deleted,
  Reach, begun, later,
}

-- A table whose pointers are live has nothing at a file descriptor that no event has.
unused :
    {B : Type 0} (at : B → ℕ) (m : ℕ → Option B) (o : ℕ → Option Event) (fd : ℕ)
    → IsLive at m o
    → ((q : ℕ) (a : Event) → o q ≡ some a → a.fd ≢ fd)
    → m fd ≡ none
unused at m o fd l h = elim (Option-cases (m fd)) [
  | inl e ↦ e
  | inr (b, e) ↦ let (a, ea, fa) = l fd b e in absurd (h (at b) a ea fa)
]

module _ {K : Type 0} {E : Epoll K} where
  init-IsRegistered : (k : K) → ((fd : ℕ) → E.interest k fd ≡ none) → IsRegistered E (init k)
  unfolding init
  init-IsRegistered k h = record {
    apart = λ p q a b ea eb f. cc;
    watched = λ p a ea. cc;
    mapped = λ p a ea. cc;
    live = λ fd e q. let no : ◌≡◌ {A = Option (ℕ × ℕ)} none (some e) = sym (h fd) ∙ q in cc;
    known = λ fd p q. cc;
    room = omega arith;
  }

  module _ (d : Demultiplexer K) (ptr fd : ℕ) (v : IsRegistered E d) (free : d.objects ptr ≡ none)
      (fresh : (q : ℕ) (a : Event) → d.objects q ≡ some a → a.fd ≢ fd) where
    -- The new event, or one of the others.
    new_cases :
        (P : ℕ → Event → Type 0)
        → P ptr (Event.init fd)
        → ((p : ℕ) (a : Event) → d.objects p ≡ some a → P p a)
        → (p : ℕ) (a : Event) → (new_event d ptr fd).objects p ≡ some a
        → P p a
    new_cases P new old p a ea = elim (Bool-cases (p == ptr)) [
      | inl same ↦
          let one : some (Event.init fd) ≡ some a =
            sym (put-same d.objects ptr p (some (Event.init fd)) same) ∙ ea in
          let it : Event.init fd ≡ a = cc in
          subst (λ j. P j a) (sym ((==_iff p ptr).0 same)) (subst (P ptr) it new)
      | inr other ↦ old p a (sym (put-other d.objects ptr p (some (Event.init fd)) other) ∙ ea)
    ]

    made-IsLive :
        {B : Type 0} (at : B → ℕ) (m : ℕ → Option B)
        → IsLive at m d.objects
        → IsLive at m (new_event d ptr fd).objects
    made-IsLive at m l j b eb =
        let (a, ea, fa) = l j b eb in
        elim (Bool-cases (at b == ptr)) [
          | inl same ↦
              let gone : some a ≡ none =
                sym ea ∙ ap d.objects ((==_iff (at b) ptr).0 same) ∙ free in
              cc
          | inr other ↦ (a, put-other d.objects ptr (at b) (some (Event.init fd)) other ∙ ea, fa)
        ]

    made-IsRegistered : IsRegistered E (new_event d ptr fd)
    unfolding Event.init
    made-IsRegistered = record {
      apart = λ p q a b ea eb f.
          new_cases
            (λ p a.
              (q : ℕ) (b : Event) → (new_event d ptr fd).objects q ≡ some b → a.fd ≡ b.fd → p ≡ q)
            (new_cases (λ q b. fd ≡ b.fd → ptr ≡ q) (λ f. refl)
              (λ q b eb f. absurd (fresh q b eb (sym f))))
            (λ p a ea.
              new_cases (λ q b. a.fd ≡ b.fd → p ≡ q) (λ f. absurd (fresh p a ea f))
                (λ q b eb f. v.apart p q a b ea eb f))
            p a ea q b eb f;
      watched =
          new_cases (λ p a. E.interest d.kernel a.fd ≡ interest_of p a)
            (unused (λ e. e.1) (E.interest d.kernel) d.objects fd v.live fresh) v.watched;
      mapped =
          new_cases (λ p a. d.event_map a.fd ≡ mapped_of p a)
            (unused (λ p. p) d.event_map d.objects fd v.known fresh) v.mapped;
      live = made-IsLive (λ e. e.1) (E.interest d.kernel) v.live;
      known = made-IsLive (λ p. p) d.event_map v.known;
      room = v.room;
    }

  module _ (d : Demultiplexer K) (ptr : ℕ) (ev : Event) (v : IsRegistered E d)
      (e : d.objects ptr ≡ some ev) (unwatched : ev.state ≡ is_new) where
    old_event : (p : ℕ) (a : Event) → (delete_event d ptr).objects p ≡ some a → d.objects p ≡ some a
    old_event p a ea = elim (Bool-cases (p == ptr)) [
      | inl same ↦
          let gone : ◌≡◌ {A = Option Event} none (some a) =
            sym (put-same d.objects ptr p none same) ∙ ea in
          cc
      | inr other ↦ sym (put-other d.objects ptr p none other) ∙ ea
    ]

    deleted-IsLive :
        {B : Type 0} (at : B → ℕ) (m : ℕ → Option B)
        → IsLive at m d.objects
        → m ev.fd ≡ none
        → IsLive at m (delete_event d ptr).objects
    deleted-IsLive {B = B} at m l n j b eb =
        let (a, ea, fa) = l j b eb in
        elim (Bool-cases (at b == ptr)) [
          | inl same ↦
              let one : some a ≡ some ev = sym ea ∙ ap d.objects ((==_iff (at b) ptr).0 same) ∙ e in
              let it : a ≡ ev = cc in
              let gone : ◌≡◌ {A = Option B} none (some b) =
                sym n ∙ ap m (sym (ap (λ x. x.fd) it) ∙ fa) ∙ eb in
              cc
          | inr other ↦ (a, put-other d.objects ptr (at b) none other ∙ ea, fa)
        ]

    deleted-IsRegistered : IsRegistered E (delete_event d ptr)
    deleted-IsRegistered = record {
      apart = λ p q a b ea eb f. v.apart p q a b (old_event p a ea) (old_event q b eb) f;
      watched = λ p a ea. v.watched p a (old_event p a ea);
      mapped = λ p a ea. v.mapped p a (old_event p a ea);
      live =
          deleted-IsLive (λ x. x.1) (E.interest d.kernel) v.live
            (v.watched ptr ev e ∙ rw unwatched refl);
      known = deleted-IsLive (λ x. x) d.event_map v.known (v.mapped ptr ev e ∙ rw unwatched refl);
      room = v.room;
    }

  kept-IsRegistered :
      (r : Option (Demultiplexer K)) (d' : Demultiplexer K)
      → Keeps E r
      → r ≡ some d'
      → IsRegistered E d'
  kept-IsRegistered r d' (d2, q, v) e =
      let one : some d2 ≡ some d' = sym q ∙ e in
      let it : d2 ≡ d' = cc in subst (λ x. IsRegistered E x) it v

  -- Every call on an event, and the wait for events, return what they should.
  abbrev pub Serves : EpollWait E → Demultiplexer K → Type 0
  Serves W d =
      ((ptr : ℕ) (ev : Event)
        → d.objects ptr ≡ some ev
        → Keeps E (enable_reading E d ptr)
          × Keeps E (enable_writing E d ptr)
          × Keeps E (disable_writing E d ptr)
          × Keeps E (disable_all E d ptr)
          × Keeps E (unregister_event E d ptr))
      × ((timeout : ℕ)
          → Demultiplexed W (reports W (W.wait d.kernel d.event_list timeout).1)
              (demultiplex W d timeout))

  IsRegistered-Serves : (W : EpollWait E) (d : Demultiplexer K) → IsRegistered E d → Serves W d
  IsRegistered-Serves W d v =
      ((λ ptr ev e. calls-IsRegistered E d ptr ev v e), (λ t. demultiplex-Reports W d t v))

  Step-IsRegistered :
      {W : EpollWait E} {d d' : Demultiplexer K}
      → IsRegistered E d
      → Step W d d'
      → IsRegistered E d'
  Step-IsRegistered {d = d} v (made ptr fd free fresh) = made-IsRegistered d ptr fd v free fresh
  Step-IsRegistered {W} {d} {d'} v (reads ptr ev e q) =
      kept-IsRegistered _ d' (calls-IsRegistered E d ptr ev v e).0 q
  Step-IsRegistered {W} {d} {d'} v (writes ptr ev e q) =
      kept-IsRegistered _ d' (calls-IsRegistered E d ptr ev v e).1 q
  Step-IsRegistered {W} {d} {d'} v (written ptr ev e q) =
      kept-IsRegistered _ d' (calls-IsRegistered E d ptr ev v e).2 q
  Step-IsRegistered {W} {d} {d'} v (disabled ptr ev e q) =
      kept-IsRegistered _ d' (calls-IsRegistered E d ptr ev v e).3 q
  Step-IsRegistered {W} {d} {d'} v (removed ptr ev e q) =
      kept-IsRegistered _ d' (calls-IsRegistered E d ptr ev v e).4 q
  Step-IsRegistered {W} {d} {d'} v (waited t ptrs q) =
      let (d2, q2, v2, m, l) = demultiplex-Reports W d t v in
      let one : ◌≡◌ {A = Option (Demultiplexer K × List ℕ)} (some (d2, _)) (some (d', ptrs)) =
        sym q2 ∙ q in
      let it : d2 ≡ d' = cc in subst (λ x. IsRegistered E x) it v2
  Step-IsRegistered {d = d} v (deleted ptr ev e n) = deleted-IsRegistered d ptr ev v e n

  Reach-IsRegistered : {W : EpollWait E} {d : Demultiplexer K} → Reach W d → IsRegistered E d
  Reach-IsRegistered (begun k h) = init-IsRegistered k h
  Reach-IsRegistered (later r s) = Step-IsRegistered (Reach-IsRegistered r) s

  -- In every state that is reached from the constructor, with an empty interest list, by making
  -- events for file descriptors that no other event has, by calls on events, by demultiplex, and by
  -- deleting events that are removed or were never registered: no two events have one file
  -- descriptor, the interest list of epoll and eventMap_ agree with the state of each event and hold
  -- no pointer but those of events, every call on an event returns and keeps this so, and so does
  -- demultiplex, which gives what epoll_wait reported.
  pub Reach-Serves :
      {W : EpollWait E} {d : Demultiplexer K} → Reach W d → IsRegistered E d × Serves W d
  Reach-Serves {W} {d} r = let v = Reach-IsRegistered r in (v, IsRegistered-Serves W d v)
