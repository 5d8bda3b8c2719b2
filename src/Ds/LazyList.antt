-- ===== src/Ds/LazyList.antt =====
-- ds/LazyList/LazyList.h, run by one thread at a time (Threads has any number): a sorted list of nodes between two sentinels.
-- The nodes stand on a heap; an address with no node is null or freed, and reading it is a fault,
-- `none`. `new` takes the address `fresh`. Both loops run on fuel, and `none` is also what they give
-- when it is used up. A lock is free whenever the single thread takes it, so taking one is left out;
-- the guard that releases it accesses its node.
pub mod Chain
pub mod Shape
pub mod Writes
pub mod Refine
pub mod Faults
pub mod Destroy
pub mod Threads
use libeva.Base.{
  ℕ, zero, suc, ◌+◌, ◌==◌, Bool, true, false, not, ◌&&◌, ◌||◌, Option, none, some, List, [], ◌∷◌,
  if◌then◌else◌,
}

pub record Node {ℓ} (T : Type ℓ) : Type ℓ where
  pub entry : T
  pub next : Option ℕ
  pub marked : Bool

pub record LazyList {ℓ} (T : Type ℓ) : Type ℓ where
  pub heap : ℕ → Option (Node T)
  pub head : ℕ
  pub tail : ℕ
  pub fresh : ℕ

infixl 5 ◌>>=◌
abbrev pub ◌>>=◌ {ℓ κ} : {A : Type ℓ} {B : Type κ} → Option A → (A → Option B) → Option B
some a >>= f = f a
none >>= f = none

abbrev pub points_to : Option ℕ → ℕ → Bool
points_to none a = false
points_to (some b) a = b == a

module _ {ℓ} {T : Type ℓ} where
  -- The heap with another node, or none, at `a`.
  abbrev pub store : (ℕ → Option (Node T)) → ℕ → Option (Node T) → ℕ → Option (Node T)
  store h a n b = if b == a then n else h b

  -- The constructor from the largest value; `default` is what `T()` makes.
  pub init : T → T → LazyList T
  init default max_val = record {
    heap =
        store
          (store (λ a. none) 0 (some (record { entry = default; next = some 1; marked = false }))) 1
          (some (record { entry = max_val; next = none; marked = false }));
    head = 0;
    tail = 1;
    fresh = 2;
  }

  -- The loop of `~LazyList`, which frees the nodes before the tail; `garbage_` is always empty.
  pub free_nodes : ℕ → (ℕ → Option (Node T)) → ℕ → Option ℕ → Option (ℕ → Option (Node T))
  free_nodes zero h tail p = none
  free_nodes (suc fuel) h tail none = none
  free_nodes (suc fuel) h tail (some p) =
      let rest = h p >>= (λ node. free_nodes fuel (store h p none) tail node.next) in
      if p == tail then some h else rest

  pub destroy : ℕ → LazyList T → Option (ℕ → Option (Node T))
  unfolding free_nodes
  destroy fuel l = free_nodes fuel l.heap l.tail (some l.head)

  pub set_max_key : LazyList T → T → Option (LazyList T)
  set_max_key l key = do
    n ← l.heap l.tail
    some (record l { heap = store l.heap l.tail (some (record n { entry = key })) })

  -- `!pred->marked() && !curr->marked() && pred->next_ == curr`
  pub validate : LazyList T → ℕ → ℕ → Option Bool
  validate l pred curr = do
    p ← l.heap pred
    c ← l.heap curr
    some (not p.marked && (not c.marked && points_to p.next curr))

  -- `curr->entry_ = std::move( key )`
  pub overwrite : LazyList T → T → ℕ → Node T → LazyList T
  overwrite l key curr c = record l { heap = store l.heap curr (some (record c { entry = key })) }

  -- A new node between `pred` and `curr`.
  pub link_new : LazyList T → T → ℕ → Node T → ℕ → LazyList T
  link_new l key pred p curr =
      let entry = some (record { entry = key; next = some curr; marked = false }) in
      record l {
        heap = store (store l.heap l.fresh entry) pred (some (record p { next = some l.fresh }));
        fresh = suc l.fresh;
      }

  -- `curr->mark( true ); pred->next_ = curr->next_;`
  pub mark_unlink : LazyList T → ℕ → Node T → ℕ → Node T → LazyList T
  mark_unlink l pred p curr c = record l {
    heap =
        store (store l.heap pred (some (record p { next = c.next }))) curr
          (some (record c { marked = true }));
  }

  -- `delete curr`
  pub free_node : LazyList T → ℕ → LazyList T
  free_node l curr = record l { heap = store l.heap curr none }

  -- The node is freed as soon as it is unlinked.
  pub unlink : LazyList T → ℕ → Node T → ℕ → Node T → LazyList T
  unfolding mark_unlink free_node
  unlink l pred p curr c = free_node (mark_unlink l pred p curr c) curr

  -- The destructors of the two guards, the inner first: each writes to the lock inside its node.
  abbrev pub drop_guards : {R : Type ℓ} → LazyList T → ℕ → ℕ → R → Option R
  drop_guards l pred curr result = do inner ← l.heap curr; outer ← l.heap pred; some result

  pub entries_from : ℕ → LazyList T → ℕ → Option (List T)
  entries_from zero l curr = none
  entries_from (suc fuel) l curr = elim (curr == l.tail) [
    | true ↦ some []
    | false ↦ do n ← l.heap curr; a ← n.next; rest ← entries_from fuel l a; some (n.entry ∷ rest)
  ]

  -- `traversal`: the entries that the function is called with, in order.
  pub traversal : ℕ → LazyList T → Option (List T)
  unfolding entries_from
  traversal fuel l = do h ← l.heap l.head; a ← h.next; entries_from fuel l a

module _ {ℓ} {T : Type ℓ} (cmp : T → T → Bool) where
  unfoldable pub equal : T → T → Bool
  equal a b = not (cmp a b) && not (cmp b a)

  -- `while ( cmp_( curr->key(), key ) ) { pred = curr; curr = curr->next_; }`
  pub walk : ℕ → (ℕ → Option (Node T)) → T → ℕ → ℕ → Option (ℕ × ℕ)
  walk zero h key pred curr = none
  walk (suc fuel) h key pred curr = do
    n ← h curr
    elim (cmp n.entry key) [
      | true ↦ do a ← n.next; walk fuel h key curr a
      | false ↦ some (pred, curr)
    ]

  -- One round of the outer loop of `add`, behind the locks: none asks for another round.
  pub add_locked : LazyList T → T → ℕ → ℕ → Option (Option (LazyList T × Bool))
  unfolding equal
  add_locked l key pred curr = do
    valid ← validate l pred curr
    p ← l.heap pred
    c ← l.heap curr
    let over = overwrite l key curr c
    let linked = link_new l key pred p curr
    if valid
        then (if equal c.entry key
            then drop_guards over pred curr (some (over, true))
            else drop_guards linked pred curr (some (linked, true)))
        else drop_guards l pred curr none

  pub add : ℕ → LazyList T → T → Option (LazyList T × Bool)
  unfolding walk add_locked
  add zero l key = none
  add (suc fuel) l key = do
    h ← l.heap l.head
    first ← h.next
    at ← walk (suc fuel) l.heap key l.head first
    done ← add_locked l key at.0 at.1
    elim done [ some result ↦ some result | none ↦ add fuel l key ]

  pub remove_locked : LazyList T → T → ℕ → ℕ → Option (Option (LazyList T × Bool))
  unfolding equal
  remove_locked l key pred curr = do
    valid ← validate l pred curr
    p ← l.heap pred
    c ← l.heap curr
    let cut = unlink l pred p curr c
    if valid
        then (if equal c.entry key
            then drop_guards cut pred curr (some (cut, true))
            else drop_guards l pred curr (some (l, false)))
        else drop_guards l pred curr none

  pub remove : ℕ → LazyList T → T → Option (LazyList T × Bool)
  unfolding walk remove_locked
  remove zero l key = none
  remove (suc fuel) l key = do
    h ← l.heap l.head
    first ← h.next
    at ← walk (suc fuel) l.heap key l.head first
    done ← remove_locked l key at.0 at.1
    elim done [ some result ↦ some result | none ↦ remove fuel l key ]

  -- The walk begins at `head_` itself, whose entry is `T()`.
  pub contains : ℕ → LazyList T → T → Option Bool
  unfolding walk equal
  contains fuel l key = do
    at ← walk fuel l.heap key l.head l.head
    c ← l.heap at.1
    some (equal c.entry key && not c.marked)

  pub get : ℕ → T → LazyList T → T → Option T
  unfolding walk equal
  get fuel default l key = do
    h ← l.heap l.head
    first ← h.next
    at ← walk fuel l.heap key l.head first
    c ← l.heap at.1
    some (if c.marked || not (equal c.entry key) then default else c.entry)
