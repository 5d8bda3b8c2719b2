-- ===== src/Reactor/Demultiplexer/Registered/Calls.antt =====
-- The calls on an event keep the tables in agreement.
use libeva.Base.{ℕ, ◌≡◌, refl, ap, ◌∙◌, inl, inr, Option, none, some, ◌==◌, Bool-cases, ==_iff}
use libeva.Reactor.Event.{
  Event, EventState, is_new, added, deled, is_none_event, with_reading, with_writing,
  without_writing, none_event,
}
use libeva.Reactor.Demultiplexer.{
  Epoll, Demultiplexer, ctl_add, ctl_mod, ctl_del, put, register_inner, handle_new_event,
  handle_del_event, handle_exist_event, register_event, update, unregister_event, enable_reading,
  enable_writing, disable_writing, disable_all,
}
use libeva.Reactor.Demultiplexer.Registered.{
  interest_of, mapped_of, IsRegistered, changed-IsRegistered,
}

module _ {K : Type 0} (E : Epoll K) where
  put_same : (m : ℕ → Option ℕ) (i j : ℕ) (v : Option ℕ) → m i ≡ v → m j ≡ put m i v j
  put_same m i j v e = elim (Bool-cases (j == i)) [
    | inl same ↦ rw same (ap m ((==_iff j i).0 same) ∙ e)
    | inr other ↦ rw other refl
  ]

  -- What a call returns: it does not abort, and everything is registered as it should be.
  abbrev pub Keeps : Option (Demultiplexer K) → Type 0
  Keeps r = (d' : Demultiplexer K) × (r ≡ some d') × IsRegistered E d'

  abbrev written : Demultiplexer K → ℕ → Event → K → (ℕ → Option ℕ) → Demultiplexer K
  written d ptr ev k m = record d {
    kernel = k;
    event_map = m;
    objects = put d.objects ptr (some ev);
  }

  -- A call that returns what was written, where the two tables follow the event.
  kept :
      (d : Demultiplexer K) (ptr : ℕ) (ev ev' : Event) (k : K) (m : ℕ → Option ℕ)
      (r : Option (Demultiplexer K))
      → IsRegistered E d
      → d.objects ptr ≡ some ev
      → ev'.fd ≡ ev.fd
      → r ≡ some (written d ptr ev' k m)
      → ((j : ℕ) → E.interest k j ≡ put (E.interest d.kernel) ev.fd (interest_of ptr ev') j)
      → ((j : ℕ) → m j ≡ put d.event_map ev.fd (mapped_of ptr ev') j)
      → Keeps r
  kept d ptr ev ev' k m r v e f q kernel map = (
    written d ptr ev' k m,
    q,
    changed-IsRegistered E d (written d ptr ev' k m) ptr ev ev' v e
        (record { same_fd = f; list = refl; objects = λ j. refl; kernel = kernel; map = map }),
  )

  register-Keeps :
      (s : EventState) (d : Demultiplexer K) (ptr : ℕ) (ev : Event) (n : ℕ)
      → IsRegistered E d
      → d.objects ptr ≡ some (record ev { state = s })
      → Keeps (register_event E d ptr (record ev { state = s; events = n }))
  unfolding register_event handle_new_event handle_del_event handle_exist_event register_inner
  register-Keeps is_new d ptr ev n v e =
      let l = E.add_lem d.kernel ev.fd (n, ptr) (v.watched ptr _ e) in
      kept d ptr _ (record ev { state = added; events = n })
        (E.ctl d.kernel ctl_add ev.fd (n, ptr)).0 (put d.event_map ev.fd (some ptr)) _ v e refl
        (rw l.0 refl) l.1 (λ j. refl)
  register-Keeps deled d ptr ev n v e =
      let l = E.add_lem d.kernel ev.fd (n, ptr) (v.watched ptr _ e) in
      kept d ptr _ (record ev { state = added; events = n })
        (E.ctl d.kernel ctl_add ev.fd (n, ptr)).0 d.event_map _ v e refl (rw l.0 refl) l.1
        (λ j. put_same d.event_map ev.fd j (some ptr) (v.mapped ptr _ e))
  register-Keeps added d ptr ev n v e = elim (Bool-cases (is_none_event n)) [
    | inl idle ↦
        let l = E.del_lem d.kernel ev.fd (n, ptr) (ev.events, ptr) (v.watched ptr _ e) in
        kept d ptr _ (record ev { state = deled; events = n })
          (E.ctl d.kernel ctl_del ev.fd (n, ptr)).0 d.event_map _ v e refl (rw idle (rw l.0 refl))
          l.1 (λ j. put_same d.event_map ev.fd j (some ptr) (v.mapped ptr _ e))
    | inr busy ↦
        let l = E.mod_lem d.kernel ev.fd (n, ptr) (ev.events, ptr) (v.watched ptr _ e) in
        kept d ptr _ (record ev { state = added; events = n })
          (E.ctl d.kernel ctl_mod ev.fd (n, ptr)).0 d.event_map _ v e refl (rw busy (rw l.0 refl))
          l.1 (λ j. put_same d.event_map ev.fd j (some ptr) (v.mapped ptr _ e))
  ]

  same_put :
      (k : K) (i j : ℕ) → E.interest k i ≡ none → E.interest k j ≡ put (E.interest k) i none j
  same_put k i j e = elim (Bool-cases (j == i)) [
    | inl same ↦ rw same (ap (E.interest k) ((==_iff j i).0 same) ∙ e)
    | inr other ↦ rw other refl
  ]

  remove-Keeps :
      (s : EventState) (d : Demultiplexer K) (ptr : ℕ) (ev : Event)
      → IsRegistered E d
      → d.objects ptr ≡ some (record ev { state = s })
      → Keeps (unregister_event E d ptr)
  unfolding unregister_event register_inner
  remove-Keeps is_new d ptr ev v e =
      kept d ptr _ (record ev { state = is_new }) d.kernel (put d.event_map ev.fd none) _ v e refl
        (rw e refl) (λ j. same_put d.kernel ev.fd j (v.watched ptr _ e)) (λ j. refl)
  remove-Keeps deled d ptr ev v e =
      kept d ptr _ (record ev { state = is_new }) d.kernel (put d.event_map ev.fd none) _ v e refl
        (rw e refl) (λ j. same_put d.kernel ev.fd j (v.watched ptr _ e)) (λ j. refl)
  remove-Keeps added d ptr ev v e =
      let l = E.del_lem d.kernel ev.fd (ev.events, ptr) (ev.events, ptr) (v.watched ptr _ e) in
      kept d ptr _ (record ev { state = is_new }) (E.ctl d.kernel ctl_del ev.fd (ev.events, ptr)).0
        (put d.event_map ev.fd none) _ v e refl (rw e (rw l.0 refl)) l.1 (λ j. refl)

  update-Keeps :
      (d : Demultiplexer K) (ptr : ℕ) (ev : Event) (change : ℕ → ℕ)
      → IsRegistered E d
      → d.objects ptr ≡ some ev
      → Keeps (update E d ptr change)
  unfolding update
  update-Keeps d ptr ev change v e =
      let (d', q, v') = register-Keeps ev.state d ptr ev (change ev.events) v e in (d', rw e q, v')

  -- enableReading, enableWriting, disableWriting, disableAll and remove of an event return and keep
  -- the tables in agreement.
  pub calls-IsRegistered :
      (d : Demultiplexer K) (ptr : ℕ) (ev : Event)
      → IsRegistered E d
      → d.objects ptr ≡ some ev
      → Keeps (enable_reading E d ptr)
        × Keeps (enable_writing E d ptr)
        × Keeps (disable_writing E d ptr)
        × Keeps (disable_all E d ptr)
        × Keeps (unregister_event E d ptr)
  unfolding enable_reading enable_writing disable_writing disable_all
  calls-IsRegistered d ptr ev v e = (
    update-Keeps d ptr ev with_reading v e,
    update-Keeps d ptr ev with_writing v e,
    update-Keeps d ptr ev without_writing v e,
    update-Keeps d ptr ev (λ n. none_event) v e,
    remove-Keeps ev.state d ptr ev v e,
  )
