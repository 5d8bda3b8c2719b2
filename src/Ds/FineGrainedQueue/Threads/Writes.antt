-- ===== src/Ds/FineGrainedQueue/Threads/Writes.antt =====
-- The steps that change a node, the head or the tail.
use libeva.Base.{
  ℕ, suc, ◌≤◌, ◌≡◌, ◌≢◌, refl, sym, ◌∙◌, subst, Option, none, some, List, [], ◌∷◌, arith, ◌==◌,
  if◌then◌else◌,
}
use libeva.Ds.FineGrainedQueue.{Cell, put}
use libeva.Ds.FineGrainedQueue.Threads.{
  Shared, Pc, made, moving, leaving, deleting, popped, faulted, new_node, set_cell, with_queue,
}
use libeva.Ds.FineGrainedQueue.Threads.Chain.{
  Owner, nobody, part, held, Linked, last_part, Linked-keep, Linked-push, part_one,
}
use libeva.Ds.FineGrainedQueue.Threads.Invariant.{Mine, Local, Inv}
use libeva.Ds.FineGrainedQueue.Threads.Steps.{Answers, Refined, effect, stepped, given}

-- A node goes over to an owner.
abbrev pub owned : (ℕ → Owner) → ℕ → Owner → ℕ → Owner
owned own a o b = if b == a then o else own b

pub owned_same : (own : ℕ → Owner) (a : ℕ) (o : Owner) → owned own a o a ≡ o
owned_same own a o = ground arith

pub owned_other : (own : ℕ → Owner) (a b : ℕ) (o : Owner) → b ≢ a → owned own a o b ≡ own b
owned_other own a b o ne = ground (arith, ne)

pub held_part : {o : Owner} {t j : ℕ} {A : Type 0} → o ≡ held t → o ≡ part j → A
held_part {t = t} {j} e q = let clash : held t ≡ part j = sym e ∙ q in absurd (cc)

pub held_one : {o : Owner} {t u : ℕ} → o ≡ held t → o ≡ held u → t ≡ u
held_one {t = t} {u} e q = let one : held t ≡ held u = sym e ∙ q in cc

pub nobody_part : {o : Owner} {j : ℕ} {A : Type 0} → o ≡ nobody → o ≡ part j → A
nobody_part {j = j} e q = let clash : nobody ≡ part j = sym e ∙ q in absurd (cc)

pub nobody_held : {o : Owner} {t : ℕ} {A : Type 0} → o ≡ nobody → o ≡ held t → A
nobody_held {t = t} e q = let clash : nobody ≡ held t = sym e ∙ q in absurd (cc)

module _ {T : Type 0} where
  pub put_same : (h : ℕ → Option (Cell T)) (a : ℕ) (c : Option (Cell T)) → put h a c a ≡ c
  put_same h a c = ground arith

  pub put_other :
      (h : ℕ → Option (Cell T)) (a b : ℕ) (c : Option (Cell T)) → b ≢ a → put h a c b ≡ h b
  put_other h a b c ne = ground (arith, ne)

  pub head_part :
      (h : ℕ → Option (Cell T)) (own : ℕ → Owner) (i a : ℕ) (xs : List T) (t : ℕ)
      → Linked h own i a xs t
      → own a ≡ part i
  head_part h own i a [] t (e, o) = subst (λ y. own y ≡ part i) (sym e) o
  head_part h own i a (x ∷ xs) t (b, e, o, l) = o

  module _ {m : Shared T} {pcs : ℕ → Pc T} {own : ℕ → Owner} {i : ℕ} {xs : List T} (u : ℕ)
      (v : Inv m pcs own i xs) where
    open m.queue use {heap, head, tail, fresh}

    -- The address of the tail belongs to no thread and was made before.
    tail_part : (k : ℕ) × (own tail ≡ part k) × (i ≤ k)
    tail_part = last_part heap own i head xs tail v.linked

    tail_apart : (n t : ℕ) → own n ≡ held t → n ≢ tail
    tail_apart n t o e = held_part (subst (λ y. own y ≡ held t) e o) tail_part.1

    -- A node is made.
    pub new_step :
        (default : T) (q : Pc T) (val : T)
        → xs ≡ effect m q xs
        → Answers m xs q (made val fresh)
        → Refined m u q (with_queue m (new_node default m.queue)) (made val fresh) pcs own xs
    unfolding new_node
    new_step default q val e ans =
        let free : own fresh ≡ nobody = v.above fresh (omega arith) in
        let apart : (b j : ℕ) → own b ≡ part j → b ≢ fresh =
          λ b j o same. nobody_part free (subst (λ y. own y ≡ part j) same o) in
        let (k, o, le) = tail_part in
        let (c, at) = v.last in
        stepped u v {own' = owned own fresh (held u)} i q (made val fresh)
          (Linked-keep heap _ own _ i head xs tail
            (λ b j le' o'. owned_other own fresh b (held u) (apart b j o') ∙ o')
            (λ b j o' ne. put_other heap fresh b _ (apart b j o')) v.linked)
          (c, put_other heap fresh tail _ (apart tail k o) ∙ at)
          (λ a le'.
            owned_other own fresh a (held u) (omega (arith, le')) ∙ v.above a (omega (arith, le')))
          (record {
            mine = λ t a other o'.
                let ne : a ≢ fresh =
                  λ same. nobody_held free (subst (λ y. own y ≡ held t) same o') in
                (owned_other own fresh a (held u) ne ∙ o', put_other heap fresh a _ ne);
            under_tail = λ t other h. (h, refl, put_other heap fresh tail _ (apart tail k o));
            under_head = λ t other h. (h, refl, λ ne. ne);
          })
          (owned_same own fresh (held u), (_, put_same heap fresh _)) e (λ x. cc) ans

    -- The cell of the tail is written by the thread that has its mutex.
    pub fill_step :
        (c : Cell T) (n : ℕ) (q p : Pc T)
        → m.tail_mutex ≡ some u
        → Mine m own u n
        → (Mine (with_queue m (set_cell m.queue tail (some c))) own u n
            → (set_cell m.queue tail (some c)).heap (set_cell m.queue tail (some c)).tail ≡ some c
            → Local (with_queue m (set_cell m.queue tail (some c))) own u p)
        → xs ≡ effect m q xs
        → p ≢ faulted
        → Answers m xs q p
        → Refined m u q (with_queue m (set_cell m.queue tail (some c))) p pcs own xs
    unfolding set_cell
    fill_step c n q p has (o', (d, there)) mine =
        stepped u v i q p
          (Linked-keep heap _ own own i head xs tail (λ b j le o. o)
            (λ b j o ne. put_other heap tail b _ ne) v.linked)
          (c, put_same heap tail _) v.above
          (record {
            mine = λ t a other o. (o, put_other heap tail a _ (tail_apart a t o));
            under_tail = λ t other h. given u has t other h;
            under_head = λ t other h. (h, refl, λ ne. ne);
          })
          (mine (o', (d, put_other heap tail n _ (tail_apart n u o') ∙ there))
            (put_same heap tail _))

    pub move_step :
        (val : T) (n : ℕ)
        → m.tail_mutex ≡ some u
        → Mine m own u n
        → heap tail ≡ some (record { entry = val; next = some n })
        → Refined m u (moving val n) (with_queue m (record m.queue { tail = n })) leaving pcs own xs
    move_step val n has (mine, there) at =
        let (k, o, le) = tail_part in
        let apart : (b j : ℕ) → own b ≡ part j → b ≢ n =
          λ b j o' same. held_part mine (subst (λ y. own y ≡ part j) same o') in
        stepped u v {own' = owned own n (part (suc k))} i (moving val n) leaving
          (Linked-push heap _ i head xs tail n k val at
            (owned_other own n tail (part (suc k)) (apart tail k o) ∙ o)
            (owned_same own n (part (suc k)))
            (Linked-keep heap heap own _ i head xs tail
              (λ b j le' o'. owned_other own n b (part (suc k)) (apart b j o') ∙ o')
              (λ b j o' ne. refl) v.linked))
          there
          (λ a le'.
            let ne : a ≢ n =
              λ same. nobody_held (v.above a le') (subst (λ y. own y ≡ held u) (sym same) mine) in
            owned_other own n a (part (suc k)) ne ∙ v.above a le')
          (record {
            mine = λ t a other o'.
                let ne : a ≢ n =
                  λ same. other (held_one (subst (λ y. own y ≡ held t) same o') mine) in
                (owned_other own n a (part (suc k)) ne ∙ o', refl);
            under_tail = λ t other h. given u has t other h;
            under_head = λ t other h.
                (h, refl, λ ne. apart head i (head_part heap own i head xs tail v.linked));
          })
          has refl (λ x. cc) tt

    -- A node is freed by the thread that has it.
    pub delete_step :
        (n : ℕ) (x : T)
        → Mine m own u n
        → Refined m u (deleting n x) (with_queue m (set_cell m.queue n none)) (popped x) pcs own xs
    unfolding set_cell
    delete_step n x (mine, there) =
        let (k, o, le) = tail_part in
        let (c, at) = v.last in
        let apart : (b j : ℕ) → own b ≡ part j → b ≢ n =
          λ b j o' same. held_part mine (subst (λ y. own y ≡ part j) same o') in
        stepped u v i (deleting n x) (popped x)
          (Linked-keep heap _ own own i head xs tail (λ b j le o'. o')
            (λ b j o' ne. put_other heap n b _ (apart b j o')) v.linked)
          (c, put_other heap n tail _ (apart tail k o) ∙ at) v.above
          (record {
            mine = λ t a other o'. (
              o',
              put_other heap n a _
                  (λ same. other (held_one (subst (λ y. own y ≡ held t) same o') mine)),
            );
            under_tail = λ t other h. (h, refl, put_other heap n tail _ (apart tail k o));
            under_head = λ t other h. (h, refl, λ ne. ne);
          })
          tt refl (λ e. cc) tt

module _ {T : Type 0} {m : Shared T} {pcs : ℕ → Pc T} {own : ℕ → Owner} {i : ℕ} (u : ℕ) where
  open m.queue use {heap, head, tail, fresh}

  -- The head is moved by the thread that has its mutex, which then has the old one.
  pub take_step :
      (x : T) (xs : List T) (b : ℕ) (q p : Pc T)
      → Inv m pcs own i (x ∷ xs)
      → heap head ≡ some (record { entry = x; next = some b })
      → own head ≡ part i
      → Linked heap own (suc i) b xs tail
      → m.head_mutex ≡ some u
      → (Mine (with_queue m (record m.queue { head = b })) (owned own head (held u)) u head
          → Local (with_queue m (record m.queue { head = b })) (owned own head (held u)) u p)
      → xs ≡ effect m q (x ∷ xs)
      → p ≢ faulted
      → Answers m (x ∷ xs) q p
      → Refined m u q (with_queue m (record m.queue { head = b })) p pcs own (x ∷ xs)
  take_step x xs b q p v at o l has mine e alive ans =
      let keep : (a j : ℕ) → suc i ≤ j → own a ≡ part j → owned own head (held u) a ≡ part j =
        λ a j le o'.
          owned_other own head a (held u) (λ same.
            let two : j ≡ i = part_one (subst (λ y. own y ≡ part j) same o') o in
            omega (arith, two, le))
          ∙ o' in
      stepped u v {own' = owned own head (held u)} (suc i) q p
        (Linked-keep heap heap own _ (suc i) b xs tail keep (λ a j o' ne. refl) l) v.last
        (λ a le.
          owned_other own head a (held u)
            (λ same. nobody_part (v.above a le) (subst (λ y. own y ≡ part i) (sym same) o))
          ∙ v.above a le)
        (record {
          mine = λ t a other o'. (
            owned_other own head a (held u)
                  (λ same. held_part o' (subst (λ y. own y ≡ part i) (sym same) o))
                ∙ o',
            refl,
          );
          under_tail = λ t other h. (h, refl, refl);
          under_head = λ t other h. given u has t other h;
        })
        (mine (owned_same own head (held u), (_, at))) e alive ans
