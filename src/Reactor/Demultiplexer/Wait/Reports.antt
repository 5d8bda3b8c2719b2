-- ===== src/Reactor/Demultiplexer/Wait/Reports.antt =====
-- The events that demultiplex gives are registered ones, with the flags of their reports.
use libeva.Base.{
  ℕ, ◌*◌, ◌≤◌, ◌<◌, ◌≡◌, ◌≢◌, refl, sym, ap, ◌∙◌, inl, inr, false, Bool-cases, ==_iff, Option, none,
  some, List, [], ◌∷◌, map, length, arith, ◌==◌,
}
use libeva.Reactor.Event.{Event}
use libeva.Reactor.Demultiplexer.{Epoll, Demultiplexer, put}
use libeva.Reactor.Demultiplexer.Registered.{IsLive, IsRegistered, put-same, put-other}
use libeva.Reactor.Demultiplexer.Wait.{
  WaitResult, failed, active, IsReport, all_told, told, EpollWait, collect, take_active,
  demultiplex,
}

abbrev pointer : ℕ × ℕ → ℕ
pointer e = e.1

-- The object at each reported pointer has the flags of its report.
pub data Marked (o : ℕ → Option Event) : List (ℕ × ℕ) → Type 0 where
  none_left : Marked o []
  marked :
      {r p : ℕ} {es : List (ℕ × ℕ)} (ev : Event)
      → o p ≡ some (record ev { revents = r })
      → Marked o es
      → Marked o ((r, p) ∷ es)

-- Objects that differ in `revents_` only.
abbrev pub SameButRevents : (o o' : ℕ → Option Event) → Type 0
SameButRevents o o' =
    ((p : ℕ) (a : Event) → o p ≡ some a → (r : ℕ) × (o' p ≡ some (record a { revents = r })))
    × ((p : ℕ) (a : Event) → o' p ≡ some a → (r : ℕ) × (o p ≡ some (record a { revents = r })))

abbrev with_revents : ℕ → Option Event → Option Event
with_revents n none = none
with_revents n (some a) = some (record a { revents = n })

module _ (i : ℕ → Option (ℕ × ℕ)) (o : ℕ → Option Event) (fd e p r : ℕ) (a : Event)
    (l : IsLive pointer i o) (ei : i fd ≡ some (e, p)) (ea : o p ≡ some a) (fa : a.fd ≡ fd) where
  abbrev marked_objects : ℕ → Option Event
  marked_objects = put o p (some (record a { revents = r }))

  -- What is left to report does not have the pointer.
  other_pointer :
      (fd2 e2 p2 : ℕ)
      → put i fd none fd2 ≡ some (e2, p2)
      → ((p2 == p) ≡ false) × (i fd2 ≡ some (e2, p2))
  other_pointer fd2 e2 p2 q = elim (Bool-cases (fd2 == fd)) [
    | inl same ↦
        let gone : ◌≡◌ {A = Option (ℕ × ℕ)} none (some (e2, p2)) =
          sym (put-same i fd fd2 none same) ∙ q in
        cc
    | inr other ↦
        let q2 = sym (put-other i fd fd2 none other) ∙ q in
        let (b, eb, fb) = l fd2 (e2, p2) q2 in
        elim (Bool-cases (p2 == p)) [
          | inl at ↦
              let one : some b ≡ some a = sym eb ∙ ap o ((==_iff p2 p).0 at) ∙ ea in
              ground (arith, one, fa, fb, other)
          | inr away ↦ (away, q2)
        ]
  ]

  told_once : (fd2 e2 : ℕ) → put i fd none fd2 ≢ some (e2, p)
  told_once fd2 e2 q =
      let away = (other_pointer fd2 e2 p q).0 in let same = (==_iff p p).1 refl in cc

  not_told : (j : ℕ) → ((fd2 e2 : ℕ) → i fd2 ≢ some (e2, j)) → (j == p) ≡ false
  not_told j h = elim (Bool-cases (j == p)) [
    | inl at ↦ absurd (h fd e (ei ∙ ap (λ x. some (e, x)) (sym ((==_iff j p).0 at))))
    | inr away ↦ away
  ]

  left-IsLive : IsLive pointer (put i fd none) marked_objects
  left-IsLive fd2 (e2, p2) q =
      let (away, q2) = other_pointer fd2 e2 p2 q in
      let (b, eb, fb) = l fd2 (e2, p2) q2 in (b, rw away eb, fb)

  marked_objects-Same : SameButRevents o marked_objects
  marked_objects-Same = (after, before)
    where
      after :
          (q : ℕ) (b : Event)
          → o q ≡ some b
          → (n : ℕ) × (marked_objects q ≡ some (record b { revents = n }))
      after q b eb = elim (Bool-cases (q == p)) [
        | inl at ↦
            let one : some a ≡ some b = sym ea ∙ ap o (sym ((==_iff q p).0 at)) ∙ eb in
            (r, rw at (cc one))
        | inr away ↦ (b.revents, rw away eb)
      ]

      before :
          (q : ℕ) (b : Event)
          → marked_objects q ≡ some b
          → (n : ℕ) × (o q ≡ some (record b { revents = n }))
      before q b eb = elim (Bool-cases (q == p)) [
        | inl at ↦
            let one : some (record a { revents = r }) ≡ some b =
              sym (put-same o p q (some (record a { revents = r })) at) ∙ eb in
            (a.revents, ap o ((==_iff q p).0 at) ∙ ea ∙ ap (with_revents a.revents) one)
        | inr away ↦ (b.revents, sym (put-other o p q (some (record a { revents = r })) away) ∙ eb)
      ]

same-Same :
    (o p q : ℕ → Option Event) → SameButRevents o p → SameButRevents p q → SameButRevents o q
same-Same o p q s t =
    ((λ j a e. let (n, f) = s.0 j a e in t.0 j _ f), (λ j a e. let (n, f) = t.1 j a e in s.1 j _ f))

unmarked : (o : ℕ → Option Event) → SameButRevents o o
unmarked o = ((λ p a e. (a.revents, e)), (λ p a e. (a.revents, e)))

-- What the loop makes of the objects where each pointer of an interest list is live.
abbrev Collected : (ℕ → Option (ℕ × ℕ)) → (ℕ → Option Event) → List (ℕ × ℕ) → Type 0
Collected i o es =
    (o' : ℕ → Option Event) × (collect o es ≡ some (o', map (λ x. x.1) es))
    × Marked o' es
    × SameButRevents o o'
    × ((q : ℕ) → ((fd e : ℕ) → i fd ≢ some (e, q)) → o' q ≡ o q)

report-Collected :
    {i : ℕ → Option (ℕ × ℕ)} {es : List (ℕ × ℕ)} (o : ℕ → Option Event)
    → IsLive pointer i o
    → IsReport i es
    → Collected i o es
unfolding collect
report-Collected o l all_told = (o, refl, none_left, unmarked o, (λ q h. refl))
report-Collected {i} o l (told fd e p r ei t) =
    let (a, ea, fa) = l fd (e, p) ei in
    let o1 = marked_objects i o fd e p r a l ei ea fa in
    let (o', q, m, s, k) = report-Collected o1 (left-IsLive i o fd e p r a l ei ea fa) t in
    (
      o',
      rw ea (rw q refl),
      marked a
          (k p (told_once i o fd e p r a l ei ea fa)
            ∙ put-same o p p (some (record a { revents = r })) ((==_iff p p).1 refl))
          m,
      same-Same o o1 o' (marked_objects-Same i o fd e p r a l ei ea fa) s,
      (λ j h.
          k j (λ fd2 e2 w. h fd2 e2 (other_pointer i o fd e p r a l ei ea fa fd2 e2 j w).1)
          ∙ put-other o p j (some (record a { revents = r }))
              (not_told i o fd e p r a l ei ea fa j h)),
    )

module _ {K : Type 0} {E : Epoll K} (W : EpollWait E) where
  -- Neither what epoll_wait does to the kernel nor `set_revents` touches a registration.
  same-IsRegistered :
      (d : Demultiplexer K) (k : K) (o' : ℕ → Option Event) (n : ℕ)
      → IsRegistered E d
      → 0 < n
      → ((j : ℕ) → E.interest k j ≡ E.interest d.kernel j)
      → SameButRevents d.objects o'
      → IsRegistered E (record d { kernel = k; objects = o'; event_list = n })
  same-IsRegistered d k o' n v pos same s = record {
    apart = λ p q a b ea eb f. v.apart p q _ _ (s.1 p a ea).1 (s.1 q b eb).1 f;
    watched = λ p a ea. same a.fd ∙ v.watched p _ (s.1 p a ea).1;
    mapped = λ p a ea. v.mapped p _ (s.1 p a ea).1;
    live = λ fd e q.
        let (a, ea, fa) = v.live fd e (sym (same fd) ∙ q) in
        let (r, ea') = s.0 e.1 a ea in (record a { revents = r }, ea', fa);
    room = pos;
    known = λ fd p q.
        let (a, ea, fa) = v.known fd p q in
        let (r, ea') = s.0 p a ea in (record a { revents = r }, ea', fa);
  }

  abbrev pub reports : WaitResult → List (ℕ × ℕ)
  reports failed = []
  reports (active es) = es

  abbrev pub Demultiplexed : List (ℕ × ℕ) → Option (Demultiplexer K × List ℕ) → Type 0
  Demultiplexed es r =
      (d' : Demultiplexer K) × (r ≡ some (d', map (λ x. x.1) es))
      × IsRegistered E d'
      × Marked d'.objects es
      × (length es < d'.event_list)

  take_active-Demultiplexed :
      (d : Demultiplexer K) (w : WaitResult)
      → IsRegistered E d
      → ((es : List (ℕ × ℕ))
          → w ≡ active es
          → IsReport (E.interest d.kernel) es × (length es ≤ d.event_list))
      → Demultiplexed (reports w) (take_active d w)
  unfolding take_active
  take_active-Demultiplexed d failed v t = (d, refl, v, none_left, v.room)
  take_active-Demultiplexed d (active []) v t = (d, refl, v, none_left, v.room)
  take_active-Demultiplexed d (active (e ∷ es)) v t =
      let (report, le) = t (e ∷ es) refl in
      let (o', q, m, s, k) = report-Collected d.objects v.live report in
      elim (Bool-cases (length (e ∷ es) == d.event_list)) [
        | inl full ↦ (
          record d { objects = o'; event_list = d.event_list * 2 },
          rw q (rw full refl),
          same-IsRegistered d d.kernel o' (d.event_list * 2) v (omega (arith, v.room)) (λ j. refl)
              s,
          m,
          omega (arith, v.room, (==_iff (length (e ∷ es)) d.event_list).0 full),
        )
        | inr room ↦ (
          record d { objects = o' },
          rw q (rw room refl),
          same-IsRegistered d d.kernel o' d.event_list v (omega (arith, v.room)) (λ j. refl) s,
          m,
          ground (arith, le, room),
        )
      ]

  -- Where no two events have one file descriptor, the interest list of epoll and eventMap_ agree
  -- with the state of each event and hold no pointer but those of events, and the list for epoll_wait
  -- is not empty, demultiplex returns and keeps this so: it gives the pointers that epoll_wait
  -- reported, in their order, each leads to an event that now has the flags of its report, and the
  -- list, doubled where it was full, has room for more than was reported.
  pub demultiplex-Reports :
      (d : Demultiplexer K) (timeout : ℕ)
      → IsRegistered E d
      → Demultiplexed (reports (W.wait d.kernel d.event_list timeout).1) (demultiplex W d timeout)
  unfolding demultiplex
  demultiplex-Reports d t v =
      let k = (W.wait d.kernel d.event_list t).0 in
      take_active-Demultiplexed (record d { kernel = k }) (W.wait d.kernel d.event_list t).1
        (same-IsRegistered d k d.objects d.event_list v v.room
          (W.wait_keeps d.kernel d.event_list t) (unmarked d.objects))
        (W.wait_reports d.kernel d.event_list t)
