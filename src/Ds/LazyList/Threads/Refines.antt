-- ===== src/Ds/LazyList/Threads/Refines.antt =====
-- Every step of every thread does to the sorted list what the calls promise.
use libeva.Base.{
  one_some, some_not_none, ℕ, ◌≡◌, refl, sym, ap, ◌∙◌, inl, inr, Bool, false, none, some, List, [],
  arith,
}
use libeva.Ds.Sorted.{IsOrder}
use libeva.Ds.LazyList.{init, store}
use libeva.Ds.LazyList.Chain.{cell}
use libeva.Ds.LazyList.Faults.{init-IsList}
use libeva.Ds.LazyList.Shape.{entries, end_node}
use libeva.Ds.LazyList.Threads.{
  Shared, to_add, to_remove, again, answer, Pc, idle, entering, walking, found, has_pred, has_both,
  valid, leaving, leaving_pred, looking, reading, asking, returned, got, faulted, go_on, drop_lock,
  System, Move, call, enter, step_on, stop, lock_pred, lock_curr, pass, fail, add_over, add_new,
  remove_none, remove_one, free, unlock_deleted, unlock_curr, unlock_pred, call_get, enter_get,
  step_get, end_get, call_contains, step_contains, end_contains, null_contains, null_link, null_get,
  fault, by, Reach, here, later, begin,
}
use libeva.Ds.LazyList.Threads.Invariant.{Local, Inv}
use libeva.Ds.LazyList.Threads.Located.{pred_ne_curr, store_cases}
use libeva.Ds.LazyList.Threads.Adds.{new-Inv, over-Inv}
use libeva.Ds.LazyList.Threads.Removes.{cut-Inv, missed, spotted, free-Inv}
use libeva.Ds.LazyList.Threads.Steps.{
  AtOnce, Refined, Rests-quiet, validate-Passed, go_on-Local, go_on-alive, quiet_step, take_step,
  drop_step, kept_lock, locked_too, now_locked, Local-Locked, fault-quiet,
}

module _ {T : Type 0} {cmp : T → T → Bool} {default max_val : T} (o : IsOrder cmp) where
  Move-Refined :
      {u : ℕ} {m m' : Shared T} {q p : Pc T} {pcs : ℕ → Pc T} {ns : List (ℕ × T)}
      → Inv cmp max_val default m pcs ns
      → Move cmp default max_val m u q m' p
      → Local cmp max_val m u q
      → Refined cmp default max_val m u q m' p pcs ns
  Move-Refined {u = u} {q = q} {ns = ns} v (call w key r fits) l =
      let (e, ans) = Rests-quiet cmp (entries ns) q (entering w key) r in
      quiet_step o u v q (entering w key) fits (sym e) ans
  Move-Refined {u = u} {m = m} v (enter {w} {key} {a} n e q) l =
      quiet_step o u v (entering w key) (walking w key m.list.head a)
        (l, (v.list.head_below, λ p e'. inl refl), v.links m.list.head a n e q) refl (λ c. cc)
  Move-Refined {u = u} v (step_on {w} {key} {pred} {curr} {a} n e more q) (k, x, lt) =
      quiet_step o u v (walking w key pred curr) (walking w key curr a)
        (
          k,
          (lt, λ p e'. inr (ap (λ y. cmp y.entry key) (one_some e' e) ∙ more)),
          v.links curr a n e q,
        )
        refl tt
  Move-Refined {u = u} v (stop {w} {key} {pred} {curr} n e less) (k, x, lt) =
      quiet_step o u v (walking w key pred curr) (found w key pred curr)
        (k, x, (lt, λ p e'. ap (λ y. cmp y.entry key) (one_some e' e) ∙ less)) refl tt
  Move-Refined {u = u} v (lock_pred {w} {key} {pred} {curr} n e unheld) (k, x, y) =
      take_step o u v pred (found w key pred curr) (has_pred w key pred curr) unheld
        (k, x, y, (now_locked o u v pred, x.0, (n, e))) refl tt
  Move-Refined {u = u} {m = m} v (lock_curr {w} {key} {pred} {curr} n e unheld) (k, x, y, h) =
      take_step o u v curr (has_pred w key pred curr) (has_both w key pred curr) unheld
        (
          k,
          x,
          y,
          (locked_too o u v curr pred h.0, h.1, h.2),
          (now_locked o u v curr, y.0, (n, e)),
          (λ same. some_not_none (sym (ap m.holder same) ∙ h.0) unheld),
        )
        refl tt
  Move-Refined {u = u} {m = m} v (pass {w} {key} {pred} {curr} e) (k, x, y, h, g, ne) =
      let (mp, mc, np) = validate-Passed m h.2.1 g.2.1 e in
      quiet_step o u v (has_both w key pred curr) (valid w key pred curr)
        (k, x, y, h, g, (h.2.0, g.2.0, h.2.1, mp, np, g.2.1, mc)) refl (λ c. cc)
  Move-Refined {u = u} v (fail {w} {key} {pred} {curr} e) (k, x, y, h, g, ne) =
      quiet_step o u v (has_both w key pred curr) (leaving (again w key) pred curr) (k, h, g, ne)
        refl (λ c. cc)
  Move-Refined {u = u} v (add_over c ec eq) l =
      let at = Local-Locked o u v to_add l.5.0 c l l.5.2 ec in
      let (ns', v', e) = over-Inv o v at eq in (ns', v', e, refl)
  Move-Refined {u = u} v (add_new p c ep ec ne) l =
      let at = Local-Locked o u v to_add p c l ep ec in
      let (v', e) = new-Inv o v at ne in (_, v', e, refl)
  Move-Refined {u = u} v (remove_none {key} {pred} {curr} c ec ne) l =
      let at = Local-Locked o u v to_remove l.5.0 c l l.5.2 ec in
      let (none_there, same) = missed o v at ne in
      quiet_step o u v (valid to_remove key pred curr) (leaving (answer false) pred curr)
        (tt, l.3, l.4, pred_ne_curr o v at) same (rw none_there refl)
  Move-Refined {u = u} v (remove_one p c ep ec eq) l =
      let at = Local-Locked o u v to_remove p c l ep ec in
      let (ns', v', e) = cut-Inv o v at eq in (ns', v', e, rw (spotted o v at eq) refl)
  Move-Refined {ns = ns} v (free c ec) l = (ns, free-Inv o v l, refl, λ e. cc)
  Move-Refined v (unlock_deleted c ec) (h, lt, e) = absurd (some_not_none ec e)
  Move-Refined {u = u} v (unlock_curr {next} {pred} {curr} c ec) (k, h, g, ne) =
      drop_step o u v curr (leaving next pred curr) (leaving_pred next pred) g.0
        (k, (kept_lock o u v curr pred ne h.0, h.1, h.2)) refl (λ e. cc)
  Move-Refined {u = u} {m = m} v (unlock_pred {next} {pred} p ep) (k, h) =
      drop_step o u v pred (leaving_pred next pred) (go_on next) h.0
        (go_on-Local cmp max_val (drop_lock m pred) u next k) refl (go_on-alive next)
  Move-Refined {u = u} {q = q} {ns = ns} v (call_get key r) l =
      let (e, ans) = Rests-quiet cmp (entries ns) q (looking key) r in
      quiet_step o u v q (looking key) tt (sym e) ans
  Move-Refined {u = u} {q = q} v (enter_get {key} {a} n e x) l =
      quiet_step o u v (looking key) (reading key a) tt refl tt
  Move-Refined {u = u} v (step_get {key} {curr} {a} n e more x) l =
      quiet_step o u v (reading key curr) (reading key a) tt refl tt
  Move-Refined {u = u} v (end_get {key} {curr} n e less) l =
      quiet_step o u v (reading key curr) (got _) tt refl tt
  Move-Refined {u = u} v (null_link {w} {key} {pred} {curr} n e more x) l =
      quiet_step o u v (walking w key pred curr) faulted tt refl tt
  Move-Refined {u = u} v (null_get {key} {curr} n e more x) l =
      quiet_step o u v (reading key curr) faulted tt refl tt
  Move-Refined {u = u} {m = m} {q = q} {ns = ns} v (call_contains key r) l =
      let (e, ans) = Rests-quiet cmp (entries ns) q (asking key m.list.head) r in
      quiet_step o u v q (asking key m.list.head) tt (sym e) ans
  Move-Refined {u = u} v (step_contains {key} {curr} {a} n e more x) l =
      quiet_step o u v (asking key curr) (asking key a) tt refl tt
  Move-Refined {u = u} v (end_contains {key} {curr} n e less) l =
      quiet_step o u v (asking key curr) (returned _) tt refl tt
  Move-Refined {u = u} v (null_contains {key} {curr} n e more x) l =
      quiet_step o u v (asking key curr) faulted tt refl tt
  Move-Refined {u = u} {q = q} v (fault a touch e) l =
      let (same, ans) = fault-quiet o u v q a l touch e in quiet_step o u v q faulted tt same ans

  begin-Inv : Inv cmp max_val default (begin cmp default max_val).mem (λ t. idle) []
  unfolding init
  begin-Inv = record {
    list = init-IsList;
    nodes = λ a n e mk nh nt away.
        elim (store_cases (store (λ j. none) 0 (cell default 1)) 1 a (some (end_node max_val)) n
          e) [
            | inl (same, q) ↦ nt same
            | inr (other, q) ↦ elim (store_cases (λ j. none) 0 a (cell default 1) n q) [
              | inl (same, q') ↦ nh same
              | inr (away', q') ↦ some_not_none q' refl
            ]
          ];
    bounded = λ a le. ground (arith, le);
    links = λ a b n e q.
        elim (store_cases (store (λ j. none) 0 (cell default 1)) 1 a (some (end_node max_val)) n
          e) [
            | inl (same, r) ↦
                let it : end_node max_val ≡ n = one_some refl r in
                absurd (some_not_none q (sym (ap (λ y. y.next) it)))
            | inr (other, r) ↦ elim (store_cases (λ j. none) 0 a (cell default 1) n r) [
              | inl (same, r') ↦
                  let it : record { entry = default; next = some 1; marked = false } ≡ n =
                    one_some refl r' in
                  let to : some 1 ≡ some b = ap (λ y. y.next) it ∙ q in ground (arith, to)
              | inr (away', r') ↦ absurd (some_not_none r' refl)
            ]
          ];
    local = λ t. tt;
  }

  Reach-Inv :
      {s : System T}
      → Reach cmp default max_val s
      → (ns : List (ℕ × T)) × Inv cmp max_val default s.mem s.pcs ns
  Reach-Inv here = ([], begin-Inv)
  Reach-Inv (later {s} r (by t mv)) =
      let (ns, v) = Reach-Inv r in
      let (ns', v', e, ans) = Move-Refined v mv (v.local t) in (ns', v')

  -- In every state that any number of threads reach from the constructor by add, remove, get and
  -- contains, with keys below the largest value for add and remove, the heap holds a sorted list,
  -- and so it does after the next step of each thread: a thread that has validated inserts its key,
  -- or deletes it or answers false by whether the list has it, in that one step, and no other step
  -- changes the list. The next step of a thread that has the locks of both nodes, or releases one,
  -- is no fault, but for that of a thread that has deleted its node, which is a fault, at the lock
  -- of that node.
  pub Reach-refines : {s : System T} → Reach cmp default max_val s → AtOnce cmp default max_val s
  Reach-refines r =
      let (ns, v) = Reach-Inv r in
      (
        entries ns,
        (ns, v.list, refl),
        λ t m p mv.
            let (ns', v', e, ans) = Move-Refined v mv (v.local t) in ((ns', v'.list, e), ans),
      )
