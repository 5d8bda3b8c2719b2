-- ===== src/Ds/FineGrainedQueue/Calls.antt =====
-- ds/FineGrainedQueue/FineGrainedQueue.h: whole sequences of calls against a list.
use libeva.Base.{◌≡◌, refl, Option, some, List, [], ◌∷◌, ◌++◌}
use libeva.Ds.LazyList.{◌>>=◌}
use libeva.Ds.FineGrainedQueue.{FineGrainedQueue, init, push, try_pop}
use libeva.Ds.FineGrainedQueue.Fifo.{
  Contains, init-Contains, push-Contains, try_pop-Contains, first_of, rest_of,
}

pub data Call (T : Type 0) : Type 0 where
  push_value : T → Call T
  pop_value : Call T

module _ {T : Type 0} where
  -- What the pops of a sequence of calls give.
  pub run : T → FineGrainedQueue T → List (Call T) → Option (List (Option T))
  run default q [] = some []
  run default q (push_value v ∷ cs) = do q' ← push default q v; run default q' cs
  run default q (pop_value ∷ cs) = do r ← try_pop q; rest ← run default r.0 cs; some (r.1 ∷ rest)

  -- The same calls on a list, the oldest value first.
  abbrev pub popped : List T → List (Call T) → List (Option T)
  popped xs [] = []
  popped xs (push_value v ∷ cs) = popped (xs ++ (v ∷ [])) cs
  popped xs (pop_value ∷ cs) = first_of xs ∷ popped (rest_of xs) cs

  run-popped :
      (default : T) (cs : List (Call T)) (q : FineGrainedQueue T) (xs : List T)
      → Contains q xs
      → run default q cs ≡ some (popped xs cs)
  unfolding run
  run-popped default [] q xs c = refl
  run-popped default (push_value v ∷ cs) q xs c =
      let (q', e, c') = (push-Contains default q xs v c).1 in
      rw e (run-popped default cs q' (xs ++ (v ∷ [])) c')
  run-popped default (pop_value ∷ cs) q xs c =
      let (q', e, c') = try_pop-Contains q xs c in
      rw e (rw (run-popped default cs q' (rest_of xs) c') refl)

  -- Every sequence of push and tryPop calls on a new queue returns, and its pops give what they give
  -- on a list that the pushes append to and the pops take the front of, or say that it is empty.
  pub calls-popped :
      (default : T) (cs : List (Call T)) → run default (init default) cs ≡ some (popped [] cs)
  calls-popped default cs = run-popped default cs (init default) [] (init-Contains default)
