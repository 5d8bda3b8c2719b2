-- ===== src/Memcached/Conversation/Receive.antt =====
-- What `receiveValue` stores.
use libeva.Base.{
  ℕ, ◌+◌, ◌≤◌, ◌≡◌, refl, sym, ap, subst, ◌∙◌, true, Option, some, List, [], ◌++◌, arith, length,
  take, drop, if◌then◌else◌, min, int_of_size, length-take,
}
use libeva.Ds.Sorted.{same}
use libeva.Net.Buffer.{Buffer, readable_bytes, peek}
use libeva.Net.Buffer
use libeva.Net.Buffer.Valid.{
  IsValid, contents, length-contents, contents-retrieve, retrieve-IsValid,
}
use libeva.Net.Buffer.Ints.Trips.{peek-contents}
use libeva.Memcached.Entry.{Entry, key, value, num_free, reset}
use libeva.Memcached.Entry.Valid.{IsEntry, IsSized, IsEntry-IsSized, reset-IsSized, int_small}
use libeva.Memcached.Entry.Copies.{append_adds, longer, clone_lem, cloned, num_free_lem}
use libeva.Memcached.Store.{lt_bytes}
use libeva.Memcached.Store.Laws.{Finds, set_lem}
use libeva.Memcached.Conversation.{
  Connection, Conversation, new_command, reply, receive, reset_request, stored_line,
}

-- The room of the current entry's block that its lengths count.
abbrev pub total : {C : Type 0} → Conversation C → ℕ
total w = w.curr_entry.key_len + w.curr_entry.value_len + w.curr_entry.free

module _ {C : Type 0} (N : Connection C) (greatest : Entry) where
  -- A conversation whose current entry is valid and whose store finds what `g` gives.
  pub record Ready (w : Conversation C) (g : List ℕ → Option Entry) : Type 0 where
    pub entry : IsEntry w.curr_entry
    pub finds : Finds greatest w.store g
    pub fits : lt_bytes (key w.curr_entry) (key greatest) ≡ true

  -- The conversation and the buffer after `n` bytes were stored.
  pub record Received (w : Conversation C) (g : List ℕ → Option Entry) (buf : Buffer) (n : ℕ)
      (w' : Conversation C) (buf' : Buffer) : Type 0 where
    pub stored : Entry
    pub same_key : key stored ≡ key w.curr_entry
    pub same_value : value stored ≡ value w.curr_entry ++ take n (contents buf)
    pub finds :
        Finds greatest w'.store (λ k. if same lt_bytes (key stored) k then some stored else g k)
    pub left : contents buf' ≡ drop n (contents buf)
    pub valid : IsValid buf'
    pub next_state : w'.state ≡ new_command
    pub sized : IsSized w'.curr_entry
    pub same_total : total w' ≡ total w
    pub same_output : w'.output_buf ≡ w.output_buf
    pub answered : w'.conn ≡ N.send w.conn stored_line

  module _ (w : Conversation C) (g : List ℕ → Option Entry) (buf : Buffer) (v : IsValid buf)
      (h : Ready w g) where
    open w use {curr_entry as e}

    -- The bytes that are taken: what is readable, or what is still missing of the value.
    abbrev pub taken : ℕ
    taken = min (readable_bytes buf) e.free

    -- Where the current entry is valid, its key is below the greatest and the input buffer is
    -- valid, receiveValue returns, stores the current key with the bytes that it finds in the
    -- buffer, at most as many as are missing, takes them off the buffer, answers STORED and waits
    -- for a new command. It does not wait for missing bytes.
    pub receive_lem :
        (w' : Conversation C) × (buf' : Buffer) × (receive N w buf ≡ some (w', buf'))
        × Received w g buf taken w' buf'
    unfolding receive reset_request reply
    receive_lem =
        let xs = peek buf taken in
        let p : xs ≡ take taken (contents buf) = peek-contents taken v (omega arith) in
        let l : length xs ≤ e.free =
          omega (arith, ap length p, length-take taken (contents buf), length-contents v) in
        let (a, va, ka, ua) = append_adds e h.entry xs l in
        let e' = longer e h.entry xs in
        let (c, vc, kc, uc) = clone_lem e' va in
        let stored = cloned e' va in
        let f : int_of_size (num_free e') ≡ e'.free =
          ap int_of_size (num_free_lem e' va)
          ∙ int_small e'.free (omega (arith, va.small, va.fits)) in
        let (s', q, hs) =
          set_lem greatest w.store g stored h.finds vc.hashed
            (subst (λ k. lt_bytes k (key greatest) ≡ true) (sym (kc ∙ ka)) h.fits) in
        (
          record w {
            conn = N.send w.conn stored_line;
            curr_entry = reset e';
            command = [];
            store = s';
            state = new_command;
          },
          Buffer.retrieve buf taken,
          rw (num_free_lem e h.entry, a, f, c, q) refl,
          record {
            stored = stored;
            same_key = kc ∙ ka;
            same_value = uc ∙ ua ∙ ap (λ ys. value e ++ ys) p;
            finds = hs;
            left = contents-retrieve taken v;
            valid = retrieve-IsValid taken v;
            next_state = refl;
            sized = (reset-IsSized e' (IsEntry-IsSized va)).0;
            same_total = (reset-IsSized e' (IsEntry-IsSized va)).1 ∙ omega (arith, l);
            same_output = refl;
            answered = refl;
          },
        )
