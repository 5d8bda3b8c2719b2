-- ===== src/Ds/Tests.antt =====
-- Lists and hash sets of numbers at concrete inputs.
use libeva.Base.{
  ℕ, ◌≡◌, ◌≢◌, ◌<◌, refl, zero, suc, true, false, Option, none, some, [], ◌∷◌, ltb, arith, List,
}
use libeva.Ds.Sorted.{IsOrder, find, same}
use libeva.Ds.LazyList.{LazyList, Node}
use libeva.Ds.LazyList
use libeva.Ds.LazyList.Chain.{Apart}
use libeva.Ds.LazyList.Shape.{Holds, IsList, end_node}
use libeva.Ds.LazyList.Destroy.{AllFreed, destroy-AllFreed}
use libeva.Ds.LazyList.Refine.{Calls, Calls-refine}
use libeva.Ds.LazyList.Faults.{contains_refines}
use libeva.Ds.UnorderedLazyList
use libeva.Ds.UnorderedLazyList.{still_running, get_lem}
use libeva.Ds.FineGrainedQueue.{FineGrainedQueue}
use libeva.Ds.FineGrainedQueue
use libeva.Ds.FineGrainedQueue.Calls as Queues
use libeva.Ds.FineGrainedQueue.Calls.{push_value, pop_value, calls-popped}
use libeva.Ds.HashSet
use libeva.Ds.HashSet.Calls.{Call, add_key, remove_key, get_key, flag, entry, run, calls-answers}

ltb-IsOrder : IsOrder ltb
ltb-IsOrder = record {
  irrefl = λ x. ground arith;
  trans = λ x y z h k. ground arith;
  cotrans = λ x y z h. ground arith;
}

-- 3 and 8 between the sentinels 0 and 100.
abbrev cells : ℕ → Option (Node ℕ)
cells zero = some (record { entry = 0; next = some 2; marked = false })
cells (suc zero) = some (record { entry = 100; next = none; marked = false })
cells (suc (suc zero)) = some (record { entry = 3; next = some 3; marked = false })
cells (suc (suc (suc zero))) = some (record { entry = 8; next = some 1; marked = false })
cells (suc (suc (suc (suc a)))) = none

abbrev two : LazyList ℕ
two = record { heap = cells; head = 0; tail = 1; fresh = 4 }

abbrev nodes : List (ℕ × ℕ)
nodes = (2, 3) ∷ (3, 8) ∷ []

two-IsList : IsList ltb 0 100 two nodes
two-IsList = record {
  head_cell = refl;
  tail_cell = refl;
  chain = (refl, (refl, tt));
  distinct = (((λ e. omega arith), tt), (tt, tt));
  head_apart = ((λ e. omega arith), ((λ e. omega arith), tt));
  tail_apart = ((λ e. omega arith), ((λ e. omega arith), tt));
  head_ne_tail = λ e. omega arith;
  below = (omega arith, (omega arith, tt));
  head_below = omega arith;
  tail_below = omega arith;
  count = omega arith;
  sorted = ((refl, tt), (tt, tt));
  under = (refl, (refl, tt));
}

two-Holds : Holds ltb 0 100 two (3 ∷ 8 ∷ [])
two-Holds = (nodes, two-IsList, refl)

destroy-AllFreed_example :
    (h' : ℕ → Option (Node ℕ)) × (LazyList.destroy 4 two ≡ some h')
    × (h' 0 ≡ none)
    × AllFreed h' nodes
    × (h' 1 ≡ some (end_node 100))
    × ((b : ℕ) → b ≢ 0 → Apart b nodes → h' b ≡ cells b)
destroy-AllFreed_example = destroy-AllFreed ltb 0 100 two nodes 4 two-IsList (omega arith)

Calls-refine_example : Calls ltb 0 100 8 3 two (3 ∷ 8 ∷ [])
Calls-refine_example = Calls-refine ltb-IsOrder 8 two (3 ∷ 8 ∷ []) 3 two-Holds refl (omega arith)

get_lem_example : UnorderedLazyList.get ltb 9 0 two 8 ≡ some still_running
get_lem_example = get_lem 9 two 3 (8 ∷ []) 8 two-Holds

contains_refines_example : LazyList.contains ltb 4 two 8 ≡ some true
unfolding find
contains_refines_example =
    contains_refines ltb-IsOrder 8 two (3 ∷ 8 ∷ []) 3 two-Holds refl refl (omega arith)

abbrev Any : ℕ → Type 0
Any j = Unit

abbrev id : ℕ → ℕ
id j = j

four_respects : (i j : ℕ) → Any i → Any j → same ltb i j ≡ true → id i ≡ id j
four_respects i j a b h = ground arith

four_positive : 0 < 4
four_positive = omega arith

-- 11 and 7 belong to one list.
abbrev calls : List (Call ℕ)
calls = add_key 7 ∷ add_key 11 ∷ get_key 7 ∷ remove_key 3 ∷ get_key 11 ∷ get_key 3 ∷ []

calls-answers_example :
    run ltb 0 id 4 (HashSet.init 4 0 100) calls
    ≡ some (flag true ∷ flag true ∷ entry 7 ∷ flag false ∷ entry 11 ∷ entry 0 ∷ [])
calls-answers_example =
    calls-answers ltb ltb-IsOrder 0 100 Any id 4 four_positive four_respects calls (
      tt,
      refl,
      tt,
      (tt, refl, tt, (tt, refl, tt, (tt, refl, refl, (tt, refl, tt, (tt, refl, tt, tt))))),
    )

calls-popped_example :
    Queues.run {T = ℕ} 0
      (FineGrainedQueue.init 0)
      (push_value 5 ∷ push_value 6 ∷ pop_value ∷ pop_value ∷ pop_value ∷ [])
    ≡ some (some 5 ∷ some 6 ∷ none ∷ [])
calls-popped_example =
    calls-popped {T = ℕ} 0 (push_value 5 ∷ push_value 6 ∷ pop_value ∷ pop_value ∷ pop_value ∷ [])
