-- ===== src/Ds/HashSet/Laws.antt =====
-- The list and the hash set fill the interface of Ds/KeySet.
use libeva.Base.{
  ℕ, ◌%◌, ◌<◌, ◌≡◌, refl, ap, subst, ◌∙◌, Bool, true, false, Option, none, some, List, [], arith,
  length, get_elem?, if◌then◌else◌,
}
use native.Mathlib.Nat.{mod-lt}
use libeva.Ds.Sorted.{IsOrder, insert, find, same, find-insert, IsSorted}
use libeva.Ds.LazyList.{LazyList}
use libeva.Ds.LazyList
use libeva.Ds.LazyList.Shape.{Holds, length-entries}
use libeva.Ds.LazyList.Refine.{found_or, Removed, Calls, Calls-refine}
use libeva.Ds.LazyList.Faults.{init-Holds, past_max_faults, past_max-NullRead, NullRead}
use libeva.Ds.KeySet.{KeySet, update_at, read_at, table, table_past, replicate-TableHas}
use libeva.Ds.HashSet.{HashSet, init, add, remove, get}

module _ {T : Type 0} (cmp : T → T → Bool) (o : IsOrder cmp) (default max_val : T)
    (Ok : T → Type 0) where
  abbrev pub ListHas : LazyList T → (T → Option T) → Type 0
  ListHas l f = (xs : List T) × Holds cmp default max_val l xs × ((j : T) → find cmp j xs ≡ f j)

  list-Calls :
      (l : LazyList T) (xs : List T) (key : T)
      → Holds cmp default max_val l xs
      → cmp key max_val ≡ true
      → Calls cmp default max_val key l.fresh l xs
  list-Calls l xs key (ns, v, e) fits =
      Calls-refine o key l xs l.fresh (ns, v, e) fits
        (omega (arith, v.count, ap length e, length-entries ns))

  Holds-IsSorted : (l : LazyList T) (xs : List T) → Holds cmp default max_val l xs → IsSorted cmp xs
  Holds-IsSorted l xs (ns, v, e) = subst (IsSorted cmp) e v.sorted

  pub list_added :
      (l : LazyList T) (f : T → Option T) (key : T)
      → ListHas l f
      → Ok key
      → cmp key max_val ≡ true
      → (l' : LazyList T) × (LazyList.add cmp l.fresh l key ≡ some (l', true))
        × ListHas l' (λ j. if same cmp key j then some key else f j)
  list_added l f key (xs, h, all) ok fits =
      let (l', e, h') = (list-Calls l xs key h fits).added in
      (
        l',
        e,
        (
          insert cmp key xs,
          h',
          λ j.
              find-insert cmp o key j xs ∙ ap (λ r. if same cmp key j then some key else r) (all j),
        ),
      )

  pub list_removed :
      (l : LazyList T) (f : T → Option T) (key : T)
      → ListHas l f
      → Ok key
      → cmp key max_val ≡ true
      → f key ≡ none
      → LazyList.remove cmp l.fresh l key ≡ some (l, false)
  list_removed l f key (xs, h, all) ok fits away =
      subst (Removed cmp default max_val key l.fresh l xs) (all key ∙ away)
        (list-Calls l xs key h fits).removed

  pub list_got :
      (l : LazyList T) (f : T → Option T) (key : T)
      → ListHas l f
      → Ok key
      → cmp key max_val ≡ true
      → LazyList.get cmp l.fresh default l key ≡ some (found_or (f key) default)
  list_got l f key (xs, h, all) ok fits =
      (list-Calls l xs key h fits).got ∙ ap (λ r. some (found_or r default)) (all key)

  abbrev pub list_set :
      KeySet cmp default max_val Ok
        (λ l key. LazyList.add cmp l.fresh l key)
        (λ l key. LazyList.remove cmp l.fresh l key)
        (λ l key. LazyList.get cmp l.fresh default l key)
  list_set = record { Has = ListHas; added = list_added; removed = list_removed; got = list_got }

  pub list-init : ListHas (LazyList.init default max_val) (λ j. none)
  list-init = ([], init-Holds, λ j. unfold find in refl)

  module _ (hash : T → ℕ) (len : ℕ) (pos : 0 < len)
      (respects : (i j : T) → Ok i → Ok j → same cmp i j ≡ true → hash i ≡ hash j) where
    abbrev pub index : T → ℕ
    index key = hash key % len

    index_in_range : (j : T) → index j < len
    index_in_range j = mod-lt (hash j) pos

    index_respects : (i j : T) → Ok i → Ok j → same cmp i j ≡ true → index i ≡ index j
    index_respects i j a b h = ap (λ k. k % len) (respects i j a b h)

    pub buckets_set :
        KeySet cmp default max_val Ok
          (λ ls key. update_at ls (index key) (λ l. LazyList.add cmp l.fresh l key))
          (λ ls key. update_at ls (index key) (λ l. LazyList.remove cmp l.fresh l key))
          (λ ls key. read_at ls (index key) (λ l. LazyList.get cmp l.fresh default l key))
    buckets_set = table list_set index len index_in_range index_respects

    abbrev pub HashHas : HashSet T → (T → Option T) → Type 0
    HashHas s f = buckets_set.Has s.buckets f

    -- HashSet::add of a key below the largest value returns true, and from then on the set finds
    -- the key itself under the keys equal to it, and what it found before under the others, where
    -- equal keys have equal hashes.
    pub hash_added :
        (s : HashSet T) (f : T → Option T) (key : T)
        → HashHas s f
        → Ok key
        → cmp key max_val ≡ true
        → (s' : HashSet T) × (add cmp hash len s key ≡ some (s', true))
          × HashHas s' (λ j. if same cmp key j then some key else f j)
    unfolding add
    hash_added s f key h ok fits =
        let (ls, e, h') = buckets_set.added s.buckets f key h ok fits in
        (record { buckets = ls }, rw e refl, h')

    -- HashSet::remove of a key below the largest value under which the set finds nothing returns
    -- false and leaves the set as it is.
    pub hash_removed :
        (s : HashSet T) (f : T → Option T) (key : T)
        → HashHas s f
        → Ok key
        → cmp key max_val ≡ true
        → f key ≡ none
        → remove cmp hash len s key ≡ some (s, false)
    unfolding remove
    hash_removed s f key h ok fits away =
        rw (buckets_set.removed s.buckets f key h ok fits away) refl

    -- HashSet::get of a key below the largest value returns what the set finds under it, or T(),
    -- where equal keys have equal hashes.
    pub hash_got :
        (s : HashSet T) (f : T → Option T) (key : T)
        → HashHas s f
        → Ok key
        → cmp key max_val ≡ true
        → get cmp hash len default s key ≡ some (found_or (f key) default)
    unfolding get
    hash_got s f key h ok fits = buckets_set.got s.buckets f key h ok fits

    -- The list of a key, in which the loop of every call reads through a null link.
    abbrev pub ReadsNull : HashSet T → T → Type 0
    ReadsNull s key =
        (l : LazyList T) × (get_elem? s.buckets (hash key % len) ≡ some l) × NullRead cmp l key

    -- With a key greater than the largest value every call faults.
    pub hash_past :
        (s : HashSet T) (f : T → Option T) (key : T)
        → HashHas s f
        → cmp max_val key ≡ true
        → ReadsNull s key
          × (add cmp hash len s key ≡ none)
          × (remove cmp hash len s key ≡ none)
          × (get cmp hash len default s key ≡ none)
    unfolding add remove get buckets_set
    hash_past s f key h past =
        let (n, a, r, g) =
          table_past list_set index len index_in_range index_respects s.buckets f key h
            (λ l. NullRead cmp l key)
            (λ l f' has.
              let off = past_max_faults o key past l has.0 l.fresh has.1 in
              (past_max-NullRead o key past l has.0 has.1, off.0, off.1, off.2)) in
        (n, rw a refl, rw r refl, g)

    -- A hash set of `len` lists between their sentinels is a container of entries.
    abbrev pub hash_set :
        KeySet cmp default max_val Ok
          (add cmp hash len)
          (remove cmp hash len)
          (get cmp hash len default)
    hash_set = record { Has = HashHas; added = hash_added; removed = hash_removed; got = hash_got }

    -- A new hash set is empty.
    pub hash-init : HashHas (init len default max_val) (λ j. none)
    unfolding init buckets_set
    hash-init =
        replicate-TableHas list_set index len index_in_range index_respects
          (LazyList.init default max_val) list-init
