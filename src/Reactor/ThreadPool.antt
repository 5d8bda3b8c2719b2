-- ===== src/Reactor/ThreadPool.antt =====
-- libeva/Reactor/ReactorThreadPool.h and ReactorThreadPool.cc: the reactors that new connections are
-- given to in turn. `started` is what `startDispatch` returns for each thread that is started. An
-- index past the end of the vector throws, which is `none`.
use libeva.Base.{
  ◌==◌, length-append, ℕ, zero, suc, ◌+◌, ◌%◌, ◌<◌, ◌≡◌, refl, ap, ◌∙◌, Option, some, List, [], ◌∷◌,
  ◌++◌, arith, ltb, if◌then◌else◌, get_elem?, length, lt→ltb, subst, replicate,
}
use native.Mathlib.Nat.{mod-lt, suc-mod, zero-mod}
use libeva.Ds.LazyList.{◌>>=◌}

pub record ReactorThreadPool (R : Type 0) : Type 0 where
  pub reactor : R
  pub reactors : List R
  pub thread_num : ℕ
  pub next_index : ℕ

module _ {R : Type 0} where
  pub init : R → ReactorThreadPool R
  init reactor = record { reactor = reactor; reactors = []; thread_num = 0; next_index = 0 }

  pub set_thread_num : ReactorThreadPool R → ℕ → ReactorThreadPool R
  set_thread_num p n = record p { thread_num = n }

  -- The loop of `start` from the thread `i` on, `n` threads left.
  pub start_from : (ℕ → R) → ℕ → ℕ → List R → List R
  start_from started i zero reactors = reactors
  start_from started i (suc n) reactors =
      start_from started (suc i) n (reactors ++ (started i ∷ []))

  pub start : ReactorThreadPool R → (ℕ → R) → ReactorThreadPool R
  unfolding start_from
  start p started = record p { reactors = start_from started 0 p.thread_num p.reactors }

  unfoldable pub get_next_reactor : ReactorThreadPool R → Option (R × ReactorThreadPool R)
  get_next_reactor p =
      if ltb 0 p.thread_num
      then (do
        ret ← get_elem? p.reactors p.next_index
        some (ret, record p { next_index = (p.next_index + 1) % p.thread_num }))
      else some (p.reactor, p)

  -- What `n` calls return.
  unfoldable pub calls : ℕ → ReactorThreadPool R → Option (List R × ReactorThreadPool R)
  unfolding get_next_reactor
  calls zero p = some ([], p)
  calls (suc n) p = do r ← get_next_reactor p; rest ← calls n r.1; some (r.0 ∷ rest.0, rest.1)

  -- The reactors of the threads `i`, `i + 1` and so on, modulo the number of threads.
  abbrev pub in_turn : (ℕ → R) → ℕ → ℕ → ℕ → List R
  in_turn started threads i zero = []
  in_turn started threads i (suc n) = started (i % threads) ∷ in_turn started threads (suc i) n

  -- With no thread, the reactor of the pool itself each time.
  abbrev pub served : R → ℕ → (ℕ → R) → ℕ → List R
  served reactor threads started n =
      if ltb 0 threads then in_turn started threads 0 n else replicate n reactor

  -- The reactors of the first threads, one for each.
  abbrev FirstOf : (ℕ → R) → ℕ → List R → Type 0
  FirstOf started k rs = (j : ℕ) → j < k → get_elem? rs j ≡ some (started j)

  get_elem?-snoc :
      (rs : List R) (x : R) (j : ℕ)
      → get_elem? (rs ++ (x ∷ [])) j ≡ (if j == length rs then some x else get_elem? rs j)
  get_elem?-snoc [] x zero = refl
  get_elem?-snoc [] x (suc j) = ground arith
  get_elem?-snoc (r ∷ rs) x zero = ground arith
  get_elem?-snoc (r ∷ rs) x (suc j) = ground (arith, get_elem?-snoc rs x j)

  start_from-FirstOf :
      (started : ℕ → R) (n i : ℕ) (rs : List R)
      → length rs ≡ i
      → FirstOf started i rs
      → FirstOf started (i + n) (start_from started i n rs)
  unfolding start_from
  start_from-FirstOf started zero i rs e h j lt = h j (omega arith)
  start_from-FirstOf started (suc n) i rs e h j lt =
      start_from-FirstOf started n (suc i) (rs ++ (started i ∷ []))
        (length-append rs (started i ∷ []) ∙ omega arith) last j (omega arith)
    where
      last : FirstOf started (suc i) (rs ++ (started i ∷ []))
      last k below = get_elem?-snoc rs (started i) k ∙ ground (arith, e, h k)

  -- What `n` calls give, the pool at the index of `i`.
  calls_at :
      (n i threads : ℕ) (reactor : R) (reactors : List R) (started : ℕ → R)
      → 0 < threads
      → FirstOf started threads reactors
      → (p' : ReactorThreadPool R) × (calls n (record {
        reactor = reactor;
        reactors = reactors;
        thread_num = threads;
        next_index = i % threads;
      })
          ≡ some (in_turn started threads i n, p'))
  unfolding calls get_next_reactor
  calls_at zero i threads reactor reactors started pos h = (_, refl)
  calls_at (suc n) i threads reactor reactors started pos h =
      let (p', c) = calls_at n (suc i) threads reactor reactors started pos h in
      let next : suc i % threads ≡ (i % threads + 1) % threads =
        suc-mod i threads ∙ ap (λ k. k % threads) {x = suc (i % threads)} (omega arith) in
      let c' =
        subst
          (λ k.
            calls n (record {
              reactor = reactor;
              reactors = reactors;
              thread_num = threads;
              next_index = k;
            })
            ≡ some (in_turn started threads (suc i) n, p'))
          next c in
      (p', rw (lt→ltb 0 threads pos) (rw (h (i % threads) (mod-lt i pos)) (rw c' refl)))

  idle_at :
      (n : ℕ) (reactor : R) (reactors : List R)
      → calls n (record { reactor = reactor; reactors = reactors; thread_num = 0; next_index = 0 })
        ≡ some (
          replicate n reactor,
          record { reactor = reactor; reactors = reactors; thread_num = 0; next_index = 0 },
        )
  unfolding calls get_next_reactor
  idle_at zero reactor reactors = refl
  idle_at (suc n) reactor reactors = rw (idle_at n reactor reactors) refl

  -- After setThreadNum and start, any number of calls of getNextReactor return: they give the
  -- reactors of the started threads in turn, or, where there is no thread, the pool's own reactor
  -- each time.
  pub calls-served :
      (reactor : R) (threads n : ℕ) (started : ℕ → R)
      → (p' : ReactorThreadPool R) × (calls n
            (start (set_thread_num (init reactor) threads) started)
          ≡ some (served reactor threads started n, p'))
  unfolding start set_thread_num init
  calls-served reactor zero n started = (_, idle_at n reactor [])
  calls-served reactor (suc t) n started =
      let (p', c) =
        calls_at n 0 (suc t) reactor (start_from started 0 (suc t) []) started (omega arith)
          (λ j lt.
            start_from-FirstOf started (suc t) 0 [] refl (λ k below. absurd (omega arith)) j
              (omega arith)) in
      (
        p',
        rw (lt→ltb 0 (suc t) (omega arith)) (
            subst
              (λ k.
                calls n (record {
                  reactor = reactor;
                  reactors = start_from started 0 (suc t) [];
                  thread_num = suc t;
                  next_index = k;
                })
                ≡ some (in_turn started (suc t) 0 n, p'))
              (zero-mod (suc t)) c),
      )
