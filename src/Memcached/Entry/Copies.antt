-- ===== src/Memcached/Entry/Copies.antt =====
-- What `append` and `clone` make of the value of an entry.
use libeva.Base.{
  ℕ, ◌+◌, ◌-◌, ◌≤◌, ◌≡◌, refl, sym, ap, ap₂, ◌∙◌, some, List, ◌++◌, arith, length, take, drop,
  slice, replicate, copy_at, length-copy_at, length-replicate, length-take, take-copy_at,
  take-copy_at_before, slice-copy_at_end, drop-take, take-take,
}
use libeva.Memcached.Entry.{
  Entry, hash_str, clone, append, key, value, retrieve, num_free, entry_length, add_int, sub_int,
}
use libeva.Memcached.Entry.Valid.{IsEntry, size_small, int_small, mem_move_lem}

module _ (e : Entry) (v : IsEntry e) where
  pub key-take : key e ≡ take e.key_len e.block
  unfolding key
  key-take = ap (λ n. take n e.block) (size_small e.key_len (omega (arith, v.small, v.fits)))

  pub value-slice : value e ≡ slice e.key_len e.value_len e.block
  unfolding value
  value-slice =
      ap₂ (λ m n. slice m n e.block) (size_small e.key_len (omega (arith, v.small, v.fits)))
        (size_small e.value_len (omega (arith, v.small, v.fits)))

  pub num_free_lem : num_free e ≡ e.free
  unfolding num_free
  num_free_lem = size_small e.free (omega (arith, v.small, v.fits))

  -- The entry with more bytes behind its value.
  abbrev pub longer : List ℕ → Entry
  longer xs = record e {
    value_len = e.value_len + length xs;
    free = e.free - length xs;
    block = copy_at e.block (e.key_len + e.value_len) xs;
  }

  module _ (xs : List ℕ) (h : length xs ≤ e.free) where
    append-longer : append e xs ≡ some (longer xs)
    unfolding append retrieve entry_length
    append-longer =
        let at : add_int e.key_len e.value_len ≡ e.key_len + e.value_len =
          omega (arith, v.small, v.fits) in
        let n : add_int e.value_len (length xs) ≡ e.value_len + length xs =
          omega (arith, v.small, v.fits) in
        let f : sub_int e.free (length xs) ≡ e.free - length xs = omega (arith, v.small, v.fits) in
        rw
          (
            at,
            size_small (e.key_len + e.value_len) (omega (arith, v.small, v.fits)),
            int_small (length xs) (omega (arith, v.small, v.fits)),
            n,
            f,
            mem_move_lem e.block (e.key_len + e.value_len) xs (omega (arith, v.fits)),
          )
          refl

    key-longer : key (longer xs) ≡ key e
    unfolding key
    key-longer =
        let s = size_small e.key_len (omega (arith, v.small, v.fits)) in
        rw s (take-copy_at_before e.block xs e.key_len (e.key_len + e.value_len) (omega arith))

    longer-IsEntry : IsEntry (longer xs)
    longer-IsEntry = record {
      fits = omega (arith, v.fits, length-copy_at e.block (e.key_len + e.value_len) xs);
      small = omega (arith, v.small, length-copy_at e.block (e.key_len + e.value_len) xs);
      hashed = v.hashed ∙ ap hash_str (sym key-longer);
    }

    value-longer : value (longer xs) ≡ value e ++ xs
    unfolding value
    value-longer =
        let s = size_small e.key_len (omega (arith, v.small, v.fits)) in
        let s' = size_small e.value_len (omega (arith, v.small, v.fits)) in
        let s'' = size_small (e.value_len + length xs) (omega (arith, v.small, v.fits)) in
        rw (s, s', s'')
          (slice-copy_at_end e.block xs e.key_len e.value_len (e.key_len + e.value_len)
            (e.value_len + length xs) refl refl (omega (arith, v.fits)))

    -- Entry::append within the free space adds the bytes to the value, leaves the key and keeps
    -- the invariant.
    pub append_adds :
        (append e xs ≡ some (longer xs))
        × IsEntry (longer xs)
        × (key (longer xs) ≡ key e)
        × (value (longer xs) ≡ value e ++ xs)
    append_adds = (append-longer, longer-IsEntry, key-longer, value-longer)

  -- What `clone` makes of the entry.
  abbrev pub cloned : Entry
  cloned =
      let filled = e.key_len + e.value_len in
      record e {
        block = copy_at (replicate (filled + e.free) 0) 0 (take filled e.block);
        hash = hash_str (key e);
      }

  taken : take (e.key_len + e.value_len) cloned.block ≡ take (e.key_len + e.value_len) e.block
  taken =
      let l : length (take (e.key_len + e.value_len) e.block) ≡ e.key_len + e.value_len =
        omega (arith, length-take (e.key_len + e.value_len) e.block, v.fits) in
      ap (λ n. take n cloned.block) (sym l)
      ∙ take-copy_at (replicate (e.key_len + e.value_len + e.free) 0)
          (take (e.key_len + e.value_len) e.block)
          (omega (arith, l, length-replicate {A = ℕ} (e.key_len + e.value_len + e.free) 0))

  clone_is : clone e.block e.key_len e.value_len e.free ≡ some cloned
  unfolding clone key
  clone_is =
      let at : add_int e.key_len e.value_len ≡ e.key_len + e.value_len =
        omega (arith, v.small, v.fits) in
      let total : add_int (e.key_len + e.value_len) e.free ≡ e.key_len + e.value_len + e.free =
        omega (arith, v.small, v.fits) in
      let l = length-replicate {A = ℕ} (e.key_len + e.value_len + e.free) 0 in
      let l' = length-take (e.key_len + e.value_len) e.block in
      rw
        (
          at,
          total,
          size_small (e.key_len + e.value_len) (omega (arith, v.small, v.fits)),
          size_small (e.key_len + e.value_len + e.free) (omega (arith, v.small, v.fits)),
          mem_move_lem (replicate (e.key_len + e.value_len + e.free) 0) 0
              (take (e.key_len + e.value_len) e.block) (omega (arith, l, l', v.fits)),
        )
        refl

  key-cloned : key cloned ≡ key e
  unfolding key
  key-cloned =
      let s = size_small e.key_len (omega (arith, v.small, v.fits)) in
      rw s (
        sym (take-take e.key_len (e.key_len + e.value_len) cloned.block (omega arith))
        ∙ ap (take e.key_len) taken
        ∙ take-take e.key_len (e.key_len + e.value_len) e.block (omega arith))

  value-cloned : value cloned ≡ value e
  unfolding value
  value-cloned =
      let s = size_small e.key_len (omega (arith, v.small, v.fits)) in
      let s' = size_small e.value_len (omega (arith, v.small, v.fits)) in
      rw (s, s')
        (sym (drop-take e.key_len e.value_len cloned.block)
          ∙ ap (drop e.key_len) taken
          ∙ drop-take e.key_len e.value_len e.block)

  -- Entry(data, keyLen, valueLen, free) of the data of a valid entry makes a valid entry with the
  -- same key and value.
  pub clone_lem :
      (clone e.block e.key_len e.value_len e.free ≡ some cloned)
      × IsEntry cloned
      × (key cloned ≡ key e)
      × (value cloned ≡ value e)
  clone_lem = (
    clone_is,
    record {
      fits = omega (
        arith,
        length-copy_at (replicate (e.key_len + e.value_len + e.free) 0) 0
            (take (e.key_len + e.value_len) e.block),
        length-replicate {A = ℕ} (e.key_len + e.value_len + e.free) 0,
        v.fits,
        v.small,
      );
      small = omega (
        arith,
        length-copy_at (replicate (e.key_len + e.value_len + e.free) 0) 0
            (take (e.key_len + e.value_len) e.block),
        length-replicate {A = ℕ} (e.key_len + e.value_len + e.free) 0,
        v.fits,
        v.small,
      );
      hashed = ap hash_str (sym key-cloned);
    },
    key-cloned,
    value-cloned,
  )
