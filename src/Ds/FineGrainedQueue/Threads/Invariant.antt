-- ===== src/Ds/FineGrainedQueue/Threads/Invariant.antt =====
-- What the nodes, the mutexes and the local variables of the threads keep to.
use libeva.Base.{ℕ, ◌≤◌, ◌≡◌, ◌≢◌, sym, subst, ◌∙◌, Option, some, List}
use libeva.Ds.FineGrainedQueue.{Cell}
use libeva.Ds.FineGrainedQueue.Threads.{
  Shared, Pc, idle, made, writing, linking, moving, leaving, notifying, pushed, entering, has_head,
  in_tail, knows, sleeping, took, took_node, reading, deleting, popped, found_empty, faulted,
}
use libeva.Ds.FineGrainedQueue.Threads.Chain.{Owner, nobody, held, Linked}

module _ {T : Type 0} where
  -- The thread has a node that no other thread reads.
  abbrev pub Mine : Shared T → (ℕ → Owner) → ℕ → ℕ → Type 0
  Mine m own t n = (own n ≡ held t) × ((c : Cell T) × (m.queue.heap n ≡ some c))

  abbrev pub Local : Shared T → (ℕ → Owner) → ℕ → Pc T → Type 0
  Local m own t (made v n) = Mine m own t n
  Local m own t (writing v n) = (m.tail_mutex ≡ some t) × Mine m own t n
  Local m own t (linking v n) =
      (m.tail_mutex ≡ some t)
      × Mine m own t n
      × ((b : Option ℕ) × (m.queue.heap m.queue.tail ≡ some (record { entry = v; next = b })))
  Local m own t (moving v n) =
      (m.tail_mutex ≡ some t)
      × Mine m own t n
      × (m.queue.heap m.queue.tail ≡ some (record { entry = v; next = some n }))
  Local m own t leaving = m.tail_mutex ≡ some t
  Local m own t (has_head w) = m.head_mutex ≡ some t
  Local m own t (in_tail w) = (m.head_mutex ≡ some t) × (m.tail_mutex ≡ some t)
  Local m own t (knows w a) =
      (m.head_mutex ≡ some t) × (m.queue.head ≢ a → m.queue.head ≢ m.queue.tail)
  Local m own t (took n x) = (m.head_mutex ≡ some t) × Mine m own t n
  Local m own t (took_node n) = (m.head_mutex ≡ some t) × Mine m own t n
  Local m own t (reading n) = Mine m own t n
  Local m own t (deleting n x) = Mine m own t n
  Local m own t p = Unit

  -- The queue holds the entries `xs`, the oldest in the node of the number `i`.
  pub record Inv (m : Shared T) (pcs : ℕ → Pc T) (own : ℕ → Owner) (i : ℕ) (xs : List T)
      : Type 0 where
    pub linked : Linked m.queue.heap own i m.queue.head xs m.queue.tail
    pub last : (c : Cell T) × (m.queue.heap m.queue.tail ≡ some c)
    pub above : (a : ℕ) → m.queue.fresh ≤ a → own a ≡ nobody
    pub local : (t : ℕ) → Local m own t (pcs t)

  -- What a step of the thread `u` leaves the others.
  pub record Frame (u : ℕ) (m m' : Shared T) (own own' : ℕ → Owner) : Type 0 where
    pub mine :
        (t a : ℕ) → t ≢ u → own a ≡ held t → (own' a ≡ held t) × (m'.queue.heap a ≡ m.queue.heap a)
    pub under_tail :
        (t : ℕ)
        → t ≢ u
        → m.tail_mutex ≡ some t
        → (m'.tail_mutex ≡ some t)
          × (m'.queue.tail ≡ m.queue.tail)
          × (m'.queue.heap m.queue.tail ≡ m.queue.heap m.queue.tail)
    pub under_head :
        (t : ℕ)
        → t ≢ u
        → m.head_mutex ≡ some t
        → (m'.head_mutex ≡ some t)
          × (m'.queue.head ≡ m.queue.head)
          × (m.queue.head ≢ m.queue.tail → m.queue.head ≢ m'.queue.tail)

  module _ {u : ℕ} {m m' : Shared T} {own own' : ℕ → Owner} (f : Frame u m m' own own') (t : ℕ)
      (other : t ≢ u) where
    Mine-stable : (n : ℕ) → Mine m own t n → Mine m' own' t n
    Mine-stable n (o, (c, e)) = let (o', same) = f.mine t n other o in (o', (c, same ∙ e))

    at_tail :
        {c : Option (Cell T)}
        → m.tail_mutex ≡ some t
        → m.queue.heap m.queue.tail ≡ c
        → m'.queue.heap m'.queue.tail ≡ c
    at_tail {c} h e =
        let (h', tl, same) = f.under_tail t other h in
        subst (λ a. m'.queue.heap a ≡ c) (sym tl) (same ∙ e)

    -- A step of another thread keeps what a thread knows.
    pub Local-stable : (p : Pc T) → Local m own t p → Local m' own' t p
    Local-stable idle l = tt
    Local-stable (made v n) l = Mine-stable n l
    Local-stable (writing v n) (h, l) = ((f.under_tail t other h).0, Mine-stable n l)
    Local-stable (linking v n) (h, l, (b, e)) =
        ((f.under_tail t other h).0, Mine-stable n l, (b, at_tail h e))
    Local-stable (moving v n) (h, l, e) = ((f.under_tail t other h).0, Mine-stable n l, at_tail h e)
    Local-stable leaving h = (f.under_tail t other h).0
    Local-stable notifying l = tt
    Local-stable pushed l = tt
    Local-stable (entering w) l = tt
    Local-stable (has_head w) h = (f.under_head t other h).0
    Local-stable (in_tail w) (h, g) = ((f.under_head t other h).0, (f.under_tail t other g).0)
    Local-stable (knows w a) (h, far) =
        let (h', hd, later) = f.under_head t other h in
        (h', λ ne e. later (far (λ q. ne (hd ∙ q))) (sym hd ∙ e))
    Local-stable sleeping l = tt
    Local-stable (took n x) (h, l) = ((f.under_head t other h).0, Mine-stable n l)
    Local-stable (took_node n) (h, l) = ((f.under_head t other h).0, Mine-stable n l)
    Local-stable (reading n) l = Mine-stable n l
    Local-stable (deleting n x) l = Mine-stable n l
    Local-stable (popped x) l = tt
    Local-stable found_empty l = tt
    Local-stable faulted l = tt
