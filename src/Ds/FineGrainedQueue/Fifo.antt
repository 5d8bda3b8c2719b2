-- ===== src/Ds/FineGrainedQueue/Fifo.antt =====
-- The queue hands out its entries in the order in which they were pushed.
use libeva.Base.{ℕ, ◌≤◌, ◌<◌, suc, ◌≡◌, refl, Option, none, some, List, [], ◌∷◌, ◌++◌, arith}
use libeva.Ds.FineGrainedQueue.{Cell, FineGrainedQueue, put, init, push, take_head, try_pop}

module _ {T : Type 0} where
  -- Nodes with the entries `xs` are linked from `a` to `t`, at rising addresses.
  abbrev pub Linked : (ℕ → Option (Cell T)) → ℕ → List T → ℕ → Type 0
  Linked h a [] t = a ≡ t
  Linked h a (x ∷ xs) t =
      (b : ℕ) × (h a ≡ some (record { entry = x; next = some b })) × (a < b) × Linked h b xs t

  -- The queue holds the entries `xs`, oldest first.
  pub record Contains (q : FineGrainedQueue T) (xs : List T) : Type 0 where
    pub linked : Linked q.heap q.head xs q.tail
    pub dummy : Cell T
    pub at_tail : q.heap q.tail ≡ some dummy
    pub in_heap : q.tail < q.fresh
    pub dummy_end : dummy.next ≡ none

  pub Linked-le : (h : ℕ → Option (Cell T)) (a : ℕ) (xs : List T) (t : ℕ) → Linked h a xs t → a ≤ t
  Linked-le h a [] t l = omega arith
  Linked-le h a (x ∷ xs) t (b, e, lt, l) = omega (arith, Linked-le h b xs t l)

  Linked-push :
      (h : ℕ → Option (Cell T)) (a : ℕ) (xs : List T) (t fr : ℕ) (new_node : Option (Cell T))
      (v : T)
      → Linked h a xs t
      → t < fr
      → Linked
          (put (put h fr new_node) t (some (record { entry = v; next = some fr })))
          a
          (xs ++ (v ∷ []))
          fr
  Linked-push h a [] t fr new_node v l lt = (fr, ground (arith, l), omega arith, refl)
  Linked-push h a (x ∷ xs) t fr new_node v (b, e, up, l) lt =
      let le' = Linked-le h b xs t l in
      (b, ground (arith, e, le'), up, Linked-push h b xs t fr new_node v l lt)

  pub Linked-free :
      (h : ℕ → Option (Cell T)) (a b : ℕ) (xs : List T) (t : ℕ)
      → a < b
      → Linked h b xs t
      → Linked (put h a none) b xs t
  Linked-free h a b [] t lt l = l
  Linked-free h a b (x ∷ xs) t lt (c, e, up, l) =
      (c, ground (arith, e), up, Linked-free h a c xs t (omega arith) l)

  pub init-Contains : (default : T) → Contains (init default) []
  unfolding init
  init-Contains default = record {
    linked = refl;
    dummy = record { entry = default; next = none };
    at_tail = refl;
    in_heap = omega arith;
    dummy_end = refl;
  }

  -- A new queue is empty, and push on a queue that holds a list of entries returns one with the
  -- value behind them.
  pub push-Contains :
      (default : T) (q : FineGrainedQueue T) (xs : List T) (v : T)
      → Contains q xs
      → Contains (init default) []
        × ((q' : FineGrainedQueue T) × (push default q v ≡ some q') × Contains q' (xs ++ (v ∷ [])))
  unfolding push
  push-Contains default q xs v c = (
    init-Contains default,
    (
      record {
        heap =
            put (put q.heap q.fresh (some (record { entry = default; next = none }))) q.tail
              (some (record { entry = v; next = some q.fresh }));
        head = q.head;
        tail = q.fresh;
        fresh = suc q.fresh;
      },
      rw c.at_tail refl,
      record {
        linked = Linked-push q.heap q.head xs q.tail q.fresh _ v c.linked c.in_heap;
        dummy = record { entry = default; next = none };
        at_tail = ground (arith, c.in_heap);
        in_heap = omega arith;
        dummy_end = refl;
      },
    ),
  )

  -- What is left of the entries, and what a pop gives.
  abbrev pub rest_of : List T → List T
  rest_of [] = []
  rest_of (x ∷ xs) = xs

  abbrev pub first_of : List T → Option T
  first_of [] = none
  first_of (x ∷ xs) = some x

  -- tryPop on a queue that holds a list of entries returns: it gives the oldest entry and leaves
  -- the others, or says that there is none.
  pub try_pop-Contains :
      (q : FineGrainedQueue T) (xs : List T)
      → Contains q xs
      → (q' : FineGrainedQueue T) × (try_pop q ≡ some (q', first_of xs)) × Contains q' (rest_of xs)
  unfolding try_pop take_head
  try_pop-Contains q [] c = (q, ground (arith, c.linked), c)
  try_pop-Contains q (x ∷ xs) c =
      let (b, e, up, l) = c.linked in
      let le' = Linked-le q.heap b xs q.tail l in
      (
        record q { heap = put q.heap q.head none; head = b },
        ground (arith, e, le', up),
        record {
          linked = Linked-free q.heap q.head b xs q.tail up l;
          dummy = c.dummy;
          at_tail = ground (arith, c.at_tail, le', up);
          in_heap = c.in_heap;
          dummy_end = c.dummy_end;
        },
      )
