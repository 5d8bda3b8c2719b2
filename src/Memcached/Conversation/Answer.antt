-- ===== src/Memcached/Conversation/Answer.antt =====
-- What `GetHandler` answers.
use libeva.Base.{
  ℕ, ◌+◌, ◌-◌, ◌≤◌, ◌<◌, ◌^◌, ◌≡◌, refl, sym, ap, subst, ◌∙◌, true, Option, none, some, List, ◌∷◌,
  arith, length,
}
use libeva.Net.Buffer.{Buffer}
use libeva.Net.Buffer
use libeva.Memcached.Tokenizer.{next_token}
use libeva.Memcached.Entry.{Entry, key}
use libeva.Memcached.Entry.Valid.{
  IsEntry, IsSized, keyed, key-keyed, keyed-IsEntry, reset_key_lem, reset_key_overflows,
}
use libeva.Memcached.Store.{lt_bytes}
use libeva.Memcached.Store.Laws.{Finds, get_lem}
use libeva.Memcached.Conversation.{
  Connection, Conversation, sep, get_handler, copy_found, shrink_output, end_line,
}

module _ {C : Type 0} (N : Connection C) (w : Conversation C) (text left : List ℕ) (c : ℕ)
    (cs : List ℕ) (first : next_token sep text ≡ (c ∷ cs, left)) where
  open w use {curr_entry as e}

  abbrev token : List ℕ
  token = c ∷ cs

  -- The room of the current entry's block that its lengths count.
  abbrev pub total : ℕ
  total = e.key_len + e.value_len + e.free

  -- The current entry with the key that is asked for.
  abbrev pub asked : Entry
  asked = keyed e.block token (total - length token)

  -- The answer: the entry, if one was found, and the end.
  abbrev pub answer : Option Entry → Buffer
  answer found = Buffer.append (copy_found found w.output_buf) end_line

  -- GetHandler on a request whose first token fits in the lengths of the current entry, which lie
  -- in its block, and
  -- is below the greatest key answers with the entry that the store finds under the token, or with
  -- the end alone, and makes the current entry valid.
  pub get_handler_lem :
      (greatest : Entry) (g : List ℕ → Option Entry)
      → IsSized e
      → Finds greatest w.store g
      → length token ≤ total
      → lt_bytes token (key greatest) ≡ true
      → let sent = N.send_buffer (shrink_output N w.conn (answer (g token))) (answer (g token)) in
        (get_handler N w text
          ≡ some (record w { conn = sent.0; curr_entry = asked; output_buf = sent.1 }))
        × IsEntry asked
  unfolding get_handler
  get_handler_lem greatest g v f h fits =
      let k : key asked ≡ token =
        key-keyed e.block token (total - length token) (omega (arith, v.fits))
          (omega (arith, v.fits, v.small)) in
      let va : IsEntry asked =
        keyed-IsEntry e.block token (total - length token) (omega (arith, v.fits)) v.small in
      let found =
        get_lem greatest w.store g asked f va.hashed
          (subst (λ k. lt_bytes k (key greatest) ≡ true) (sym k) fits)
        ∙ ap (λ k. some (g k)) k in
      (rw (first, get_handler) (rw (reset_key_lem e token v h, found) refl), va)

  -- GetHandler on a request whose first token is longer than the block of the current entry, and
  -- shorter than 2^31, writes past the end of the block.
  pub get_handler_overflows :
      length e.block < length token → length token < 2 ^ 31 → get_handler N w text ≡ none
  unfolding get_handler
  get_handler_overflows h lt = rw (first, get_handler) (rw (reset_key_overflows e token h lt) refl)
