-- ===== src/Ds/HashSet/Calls.antt =====
-- ds/HashSet/HashSet.h: whole sequences of calls against a map.
use libeva.Base.{
  ℕ, ◌<◌, ◌≡◌, refl, Bool, true, false, Option, none, some, List, [], ◌∷◌, if◌then◌else◌,
}
use libeva.Ds.LazyList.{◌>>=◌}
use libeva.Ds.LazyList.Refine.{found_or}
use libeva.Ds.Sorted.{IsOrder, same}
use libeva.Ds.HashSet.{HashSet, add, remove, get, init}
use libeva.Ds.HashSet.Laws.{HashHas, hash_added, hash_removed, hash_got, hash-init}

pub data Call (T : Type 0) : Type 0 where
  add_key : T → Call T
  remove_key : T → Call T
  get_key : T → Call T

pub data Answer (T : Type 0) : Type 0 where
  flag : Bool → Answer T
  entry : T → Answer T

abbrev key_of : {T : Type 0} → Call T → T
key_of (add_key k) = k
key_of (remove_key k) = k
key_of (get_key k) = k

module _ {T : Type 0} (cmp : T → T → Bool) (default : T) where
  -- One call on a hash set.
  pub call : (T → ℕ) → ℕ → HashSet T → Call T → Option (HashSet T × Answer T)
  call hash len s (add_key k) = do r ← add cmp hash len s k; some (r.0, flag r.1)
  call hash len s (remove_key k) = do r ← remove cmp hash len s k; some (r.0, flag r.1)
  call hash len s (get_key k) = do x ← get cmp hash len default s k; some (s, entry x)

  pub run : (T → ℕ) → ℕ → HashSet T → List (Call T) → Option (List (Answer T))
  unfolding call
  run hash len s [] = some []
  run hash len s (c ∷ cs) = do r ← call hash len s c; rest ← run hash len r.0 cs; some (r.1 ∷ rest)

  -- The same calls on a map.
  abbrev map_answer : (T → Option T) → Call T → Answer T
  map_answer f (add_key k) = flag true
  map_answer f (remove_key k) = flag false
  map_answer f (get_key k) = entry (found_or (f k) default)

  abbrev map_after : (T → Option T) → Call T → T → Option T
  map_after f (add_key k) j = if same cmp k j then some k else f j
  map_after f (remove_key k) j = f j
  map_after f (get_key k) j = f j

  abbrev pub answers : (T → Option T) → List (Call T) → List (Answer T)
  answers f [] = []
  answers f (c ∷ cs) = map_answer f c ∷ answers (map_after f c) cs

  -- No call removes a key that the map has.
  abbrev Harmless : (T → Option T) → Call T → Type 0
  Harmless f (add_key k) = Unit
  Harmless f (remove_key k) = f k ≡ none
  Harmless f (get_key k) = Unit

  -- Every key may be used and is below the largest value, and none that is there is removed.
  abbrev pub AllFit : T → (T → Type 0) → (T → Option T) → List (Call T) → Type 0
  AllFit max_val Ok f [] = Unit
  AllFit max_val Ok f (c ∷ cs) =
      Ok (key_of c)
      × (cmp (key_of c) max_val ≡ true)
      × Harmless f c
      × AllFit max_val Ok (map_after f c) cs

module _ {T : Type 0} (cmp : T → T → Bool) (o : IsOrder cmp) (default max_val : T) (Ok : T → Type 0)
    (hash : T → ℕ) (len : ℕ) (pos : 0 < len)
    (respects : (i j : T) → Ok i → Ok j → same cmp i j ≡ true → hash i ≡ hash j) where
  abbrev Has : HashSet T → (T → Option T) → Type 0
  Has = HashHas cmp o default max_val Ok hash len pos respects

  call_lem :
      (c : Call T) (s : HashSet T) (f : T → Option T)
      → Has s f
      → Ok (key_of c)
      → cmp (key_of c) max_val ≡ true
      → Harmless cmp default f c
      → (s' : HashSet T) × (call cmp default hash len s c ≡ some (s', map_answer cmp default f c))
        × Has s' (map_after cmp default f c)
  unfolding call
  call_lem (add_key k) s f h ok fits harmless =
      let (s', e, h') = hash_added cmp o default max_val Ok hash len pos respects s f k h ok fits in
      (s', rw e refl, h')
  call_lem (remove_key k) s f h ok fits away = (
    s,
    rw (hash_removed cmp o default max_val Ok hash len pos respects s f k h ok fits away) refl,
    h,
  )
  call_lem (get_key k) s f h ok fits harmless =
      (s, rw (hash_got cmp o default max_val Ok hash len pos respects s f k h ok fits) refl, h)

  run-answers :
      (cs : List (Call T)) (s : HashSet T) (f : T → Option T)
      → Has s f
      → AllFit cmp default max_val Ok f cs
      → run cmp default hash len s cs ≡ some (answers cmp default f cs)
  unfolding run
  run-answers [] s f h b = refl
  run-answers (c ∷ cs) s f h (ok, fits, harmless, b) =
      let (s', e, h') = call_lem c s f h ok fits harmless in
      rw e (rw (run-answers cs s' (map_after cmp default f c) h' b) refl)

  -- Every sequence of add, get and remove calls on a new hash set, with keys below the largest value
  -- and no remove of a key that is there, returns, and gives the answers of the same calls on an
  -- empty map, where equal keys have equal hashes; a remove answers false.
  pub calls-answers :
      (cs : List (Call T))
      → AllFit cmp default max_val Ok (λ j. none) cs
      → run cmp default hash len (init len default max_val) cs
        ≡ some (answers cmp default (λ j. none) cs)
  calls-answers cs b =
      run-answers cs (init len default max_val) (λ j. none)
        (hash-init cmp o default max_val Ok hash len pos respects) b
