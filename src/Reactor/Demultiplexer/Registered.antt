-- ===== src/Reactor/Demultiplexer/Registered.antt =====
-- The kernel's interest list and the map of events follow the events.
pub mod Calls
use libeva.Base.{
  ◌<◌, subst, ℕ, ◌≡◌, ◌≢◌, refl, sym, ap, ap₂, ◌∙◌, inl, inr, true, false, Option, none, some,
  arith, ◌==◌, Bool-cases, ==_iff, ◌⊎◌,
}
use libeva.Reactor.Event.{
  Event, EventState, is_new, added, deled, is_none_event, with_reading, with_writing,
  without_writing, none_event,
}
use libeva.Reactor.Demultiplexer.{
  Epoll, Demultiplexer, ctl_add, ctl_mod, ctl_del, put, register_inner, handle_new_event,
  handle_del_event, handle_exist_event, register_event, update, unregister_event, enable_reading,
  enable_writing, disable_writing, disable_all,
}

-- What the interest list and the map hold for an event at an address.
abbrev pub interest_of : ℕ → Event → Option (ℕ × ℕ)
interest_of ptr ev = elim ev.state [ is_new ↦ none | added ↦ some (ev.events, ptr) | deled ↦ none ]

abbrev pub mapped_of : ℕ → Event → Option ℕ
mapped_of ptr ev = elim ev.state [ is_new ↦ none | added ↦ some ptr | deled ↦ some ptr ]

interest_of-pointer :
    (s : EventState) (ev : Event) (ptr : ℕ) (e : ℕ × ℕ)
    → interest_of ptr (record ev { state = s }) ≡ some e
    → e.1 ≡ ptr
interest_of-pointer is_new ev ptr e q = cc
interest_of-pointer added ev ptr e q = cc
interest_of-pointer deled ev ptr e q = cc

mapped_of-pointer :
    (s : EventState) (ev : Event) (ptr p : ℕ)
    → mapped_of ptr (record ev { state = s }) ≡ some p
    → p ≡ ptr
mapped_of-pointer is_new ev ptr p q = cc
mapped_of-pointer added ev ptr p q = cc
mapped_of-pointer deled ev ptr p q = cc

pub put-same {ℓ} :
    {A : Type ℓ} (m : ℕ → Option A) (i j : ℕ) (v : Option A) → (j == i) ≡ true → put m i v j ≡ v
put-same m i j v e = rw e refl

pub put-other {ℓ} :
    {A : Type ℓ} (m : ℕ → Option A) (i j : ℕ) (v : Option A) → (j == i) ≡ false → put m i v j ≡ m j
put-other m i j v e = rw e refl

-- Each pointer of a table leads to the event of its file descriptor.
abbrev pub IsLive {ℓ} : {B : Type ℓ} → (B → ℕ) → (ℕ → Option B) → (ℕ → Option Event) → Type ℓ
IsLive {B = B} at m o =
    (fd : ℕ) (b : B) → m fd ≡ some b → (a : Event) × (o (at b) ≡ some a) × (a.fd ≡ fd)

module _ {K : Type 0} (E : Epoll K) where
  -- No two events have one file descriptor, the kernel and the map agree with each and hold no other
  -- pointers, and the list for epoll_wait is not empty.
  pub record IsRegistered (d : Demultiplexer K) : Type 0 where
    pub apart :
        (p q : ℕ) (a b : Event) → d.objects p ≡ some a → d.objects q ≡ some b → a.fd ≡ b.fd → p ≡ q
    pub watched :
        (p : ℕ) (a : Event) → d.objects p ≡ some a → E.interest d.kernel a.fd ≡ interest_of p a
    pub mapped : (p : ℕ) (a : Event) → d.objects p ≡ some a → d.event_map a.fd ≡ mapped_of p a
    pub live : IsLive (λ e. e.1) (E.interest d.kernel) d.objects
    pub room : 0 < d.event_list
    pub known : IsLive (λ p. p) d.event_map d.objects

  -- One event is changed, and with it the two tables at its file descriptor.
  pub record Changed (d d' : Demultiplexer K) (ptr : ℕ) (ev ev' : Event) : Type 0 where
    pub same_fd : ev'.fd ≡ ev.fd
    pub list : d'.event_list ≡ d.event_list
    pub objects : (j : ℕ) → d'.objects j ≡ put d.objects ptr (some ev') j
    pub kernel :
        (j : ℕ) → E.interest d'.kernel j ≡ put (E.interest d.kernel) ev.fd (interest_of ptr ev') j
    pub map : (j : ℕ) → d'.event_map j ≡ put d.event_map ev.fd (mapped_of ptr ev') j

  module _ (d d' : Demultiplexer K) (ptr : ℕ) (ev ev' : Event) (v : IsRegistered d)
      (e : d.objects ptr ≡ some ev) (c : Changed d d' ptr ev ev') where
    object_cases :
        (p : ℕ) (a : Event)
        → d'.objects p ≡ some a
        → ((p ≡ ptr) × (a ≡ ev')) ⊎ ((p ≢ ptr) × (d.objects p ≡ some a))
    object_cases p a ea = elim (Bool-cases (p == ptr)) [
      | inl same ↦ inl ((==_iff p ptr).0 same, ground (arith, c.objects p, ea, same))
      | inr other ↦ inr ((λ q. ground (arith, q, other)), ground (arith, c.objects p, ea, other))
    ]

    before :
        (p : ℕ) (a : Event)
        → d'.objects p ≡ some a
        → (a0 : Event) × (d.objects p ≡ some a0) × (a0.fd ≡ a.fd)
    before p a ea = elim (object_cases p a ea) [
      | inl (same, q) ↦ (ev, ap d.objects same ∙ e, sym c.same_fd ∙ ap (λ x. x.fd) (sym q))
      | inr (other, q) ↦ (a, q, refl)
    ]

    -- Another event has another file descriptor.
    fd_apart : (p : ℕ) (a : Event) → p ≢ ptr → d.objects p ≡ some a → (a.fd == ev.fd) ≡ false
    fd_apart p a ne ea = elim (Bool-cases (a.fd == ev.fd)) [
      | inl same ↦ absurd (ne (v.apart p ptr a ev ea e ((==_iff a.fd ev.fd).0 same)))
      | inr other ↦ other
    ]

    -- A table whose pointers are live, and that is changed at the event's file descriptor to what has
    -- its pointer.
    live :
        {B : Type 0} (at : B → ℕ) (m m' : ℕ → Option B) (u : Option B)
        → IsLive at m d.objects
        → ((j : ℕ) → m' j ≡ put m ev.fd u j)
        → ((b : B) → u ≡ some b → at b ≡ ptr)
        → IsLive at m' d'.objects
    live at m m' u l q to fd b eb = elim (Bool-cases (fd == ev.fd)) [
      | inl same ↦
          let there : at b ≡ ptr = to b (sym (put-same m ev.fd fd u same) ∙ sym (q fd) ∙ eb) in
          (
            ev',
            c.objects (at b) ∙ ground (arith, there),
            c.same_fd ∙ sym ((==_iff fd ev.fd).0 same),
          )
      | inr other ↦
          let (a, ea, fa) = l fd b (sym (put-other m ev.fd fd u other) ∙ sym (q fd) ∙ eb) in
          let away : (at b == ptr) ≡ false = elim (Bool-cases (at b == ptr)) [
            | inl same ↦
                let one : some a ≡ some ev =
                  sym ea ∙ ap d.objects ((==_iff (at b) ptr).0 same) ∙ e in
                ground (arith, one, fa, other)
            | inr differs ↦ differs
          ] in
          (a, c.objects (at b) ∙ rw away ea, fa)
    ]

    pub changed-IsRegistered : IsRegistered d'
    changed-IsRegistered = record {
      apart = apart;
      watched = watched;
      mapped = mapped;
      live =
          live (λ e. e.1) (E.interest d.kernel) (E.interest d'.kernel) (interest_of ptr ev') v.live
            c.kernel (λ e q. interest_of-pointer ev'.state ev' ptr e q);
      room = subst (λ n. 0 < n) (sym c.list) v.room;
      known =
          live (λ p. p) d.event_map d'.event_map (mapped_of ptr ev') v.known c.map
            (λ p q. mapped_of-pointer ev'.state ev' ptr p q);
    }
      where
        apart :
            (p q : ℕ) (a b : Event)
            → d'.objects p ≡ some a
            → d'.objects q ≡ some b
            → a.fd ≡ b.fd
            → p ≡ q
        apart p q a b ea eb f =
            let (a0, ea0, fa) = before p a ea in
            let (b0, eb0, fb) = before q b eb in v.apart p q a0 b0 ea0 eb0 (fa ∙ f ∙ sym fb)

        watched :
            (p : ℕ) (a : Event)
            → d'.objects p ≡ some a
            → E.interest d'.kernel a.fd ≡ interest_of p a
        watched p a ea = elim (object_cases p a ea) [
          | inl (same, q) ↦
              let at : E.interest d'.kernel ev'.fd ≡ interest_of ptr ev' =
                c.kernel ev'.fd ∙ ground (arith, c.same_fd) in
              ap (λ x. E.interest d'.kernel x.fd) q ∙ at ∙ ap₂ interest_of (sym same) (sym q)
          | inr (other, q) ↦ c.kernel a.fd ∙ rw (fd_apart p a other q) (v.watched p a q)
        ]

        mapped : (p : ℕ) (a : Event) → d'.objects p ≡ some a → d'.event_map a.fd ≡ mapped_of p a
        mapped p a ea = elim (object_cases p a ea) [
          | inl (same, q) ↦
              let at : d'.event_map ev'.fd ≡ mapped_of ptr ev' =
                c.map ev'.fd ∙ ground (arith, c.same_fd) in
              ap (λ x. d'.event_map x.fd) q ∙ at ∙ ap₂ mapped_of (sym same) (sym q)
          | inr (other, q) ↦ c.map a.fd ∙ rw (fd_apart p a other q) (v.mapped p a q)
        ]
