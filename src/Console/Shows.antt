-- ===== src/Console/Shows.antt =====
-- What a session of lab2/lab2_test.c shows of the device.
use mathlib.Core.Path.{subst}
use model_lib.Prelude.{
  ℕ, zero, suc, ◌+◌, ◌-◌, ◌≤◌, ◌<◌, ◌≡◌, ◌≢◌, refl, sym, ◌∙◌, ap, drop, true, some, List, [], ◌∷◌,
  ◌++◌, length, take, arith, append-nil, take-append_self, min, take_of_le,
}
use model_lib.Prelude.Int.{pos, ltb_ℤ}
use model_lib.Prelude.Text.{Text, until_nul_text, IsText}
use model_lib.Driver.{
  UserAccess, Copies, Driver, read, buffer_size, open_device, close_device, open_request,
  write_request, close_request,
}
use model_lib.Driver.Log.{Stores}
use model_lib.Driver.Read.{read_lem}
use model_lib.Driver.Run.{kept, Stores-open, Stores-close, handle_all_keeps}
use model_lib.Console.Typed.{
  Command, reads, writes, newline, typed, AllLines, expected, held, fgets-line, line-IsText,
}
use model_lib.Console.{fgets, data_read, left, shows, get_all, read_command, write_command, session}

module _ (u : UserAccess) (c : Copies u) (block : List ℕ) (room : buffer_size ≤ length block) where
  -- A read of a whole block.
  read_block :
      (d : Driver) (bytes : List ℕ) (offset n : ℕ)
      → Stores d bytes
      → offset + n ≡ length bytes
      → (d' : Driver) × (read u d block (length block) (pos offset)
          ≡ some (pos n, take n bytes ++ drop n block, pos (length bytes), d'))
        × Stores d' bytes
  read_block d bytes offset n s e =
      let (d', done, s') =
        (read_lem u c d bytes block (length block) offset s (omega arith)).0 (omega arith) in
      (d', done ∙ rw (short, e) refl, s')
    where
      short : min (length block) (length bytes - offset) ≡ n
      short = omega (arith, s.fits)

  get_all_lem :
      (k n : ℕ) (d : Driver) (bytes : List ℕ)
      → Stores d bytes
      → length bytes ≡ n
      → (d' : Driver) × (get_all u block (suc (suc k)) d (pos 0) ≡ some (bytes, d'))
        × Stores d' bytes
  unfolding get_all
  get_all_lem k zero d bytes s e =
      let (d1, first, s1) = read_block d bytes 0 0 s (omega arith) in
      (d1, rw (get_all, first) (ap (λ l. some (l, d1)) (sym (empty bytes e))), s1)
    where
      empty : (l : List ℕ) → length l ≡ 0 → l ≡ []
      empty [] h = refl
      empty (b ∷ l) h = absurd (omega arith)
  get_all_lem k (suc n) d bytes s e =
      let (d1, first, s1) = read_block d bytes 0 (suc n) s (omega arith) in
      let (d2, second, s2) = read_block d1 bytes (length bytes) 0 s1 (omega arith) in
      (d2, rw (get_all, first, some_bytes, second) (ap (λ l. some (l, d2)) whole), s2)
    where
      some_bytes : ltb_ℤ (pos 0) (pos (suc n)) ≡ true
      some_bytes = ground arith

      all : take (suc n) bytes ≡ bytes
      all = take_of_le (suc n) bytes (omega arith)

      whole : take (suc n) (take (suc n) bytes ++ drop (suc n) block) ++ [] ≡ bytes
      whole =
          append-nil _
          ∙ ap (λ l. take (suc n) (l ++ drop (suc n) block)) all
          ∙ ap (λ k. take k (bytes ++ drop (suc n) block)) (sym e)
          ∙ take-append_self bytes (drop (suc n) block)

  read_command_lem :
      (k : ℕ) (d : Driver) (bytes : List ℕ)
      → Stores d bytes
      → (d' : Driver) × (read_command u block (suc (suc k)) d ≡ some (bytes, d')) × Stores d' bytes
  unfolding read_command
  read_command_lem k d bytes s =
      let (d1, all, s1) =
        get_all_lem k (length bytes) (open_device d).1 bytes (Stores-open d bytes s) refl in
      ((close_device d1).1, rw (read_command, all) refl, Stores-close d1 bytes s1)

  write_command_lem :
      (d : Driver) (bytes : List ℕ) (t : Text)
      → Stores d bytes
      → (d' : Driver) × (write_command u block true d t ≡ some d') × Stores d' (kept bytes t)
  unfolding write_command
  write_command_lem d bytes t s =
      let (d', done, s') =
        handle_all_keeps u c (open_request ∷ write_request t (length t) ∷ close_request ∷ []) d
          bytes s (tt, (omega arith, (tt, tt))) in
      (
        d',
        done,
        subst (λ l. Stores d' (kept bytes l))
            (append-nil (take (length t) t) ∙ take_of_le (length t) t (omega arith)) s',
      )

  -- The line of a command of one letter.
  letter : (b : ℕ) (rest : List ℕ) → b ≢ 10 → fgets 255 (b ∷ newline rest) ≡ (b ∷ newline [], rest)
  letter b rest ne = fgets-line 255 (b ∷ []) rest (ne, tt) (omega arith)

  read_round :
      (rounds fuel : ℕ) (input input' bytes : List ℕ) (d d' : Driver)
      → fgets 255 input ≡ (114 ∷ newline [], input')
      → read_command u block rounds d ≡ some (bytes, d')
      → session u block true rounds (suc fuel) input d
        ≡ shows (data_read bytes) (session u block true rounds fuel input' d')
  unfolding session
  read_round rounds fuel input input' bytes d d' e f =
      rw (session, ap (λ x. x.0) e, f, ap (λ x. x.1) e) refl

  write_round :
      (rounds fuel : ℕ) (input input' input'' t : List ℕ) (d d' : Driver)
      → fgets 255 input ≡ (119 ∷ newline [], input')
      → fgets 127 input' ≡ (t ++ newline [], input'')
      → IsText t
      → write_command u block true d (t ++ newline []) ≡ some d'
      → session u block true rounds (suc fuel) input d ≡ session u block true rounds fuel input'' d'
  unfolding session
  write_round rounds fuel input input' input'' [] d d' e f text g =
      rw
        (
          session,
          ap (λ x. x.0) e,
          ap (λ x. (fgets 127 x.1).0) e ∙ ap (λ x. x.0) f,
          until_nul_text (newline []) (line-IsText [] text),
          g,
          ap (λ x. (fgets 127 x.1).1) e ∙ ap (λ x. x.1) f,
        )
        refl
  write_round rounds fuel input input' input'' (b ∷ t) d d' e f text g =
      rw
        (
          session,
          ap (λ x. x.0) e,
          ap (λ x. (fgets 127 x.1).0) e ∙ ap (λ x. x.0) f,
          until_nul_text (b ∷ (t ++ newline [])) (line-IsText (b ∷ t) text),
          g,
          ap (λ x. (fgets 127 x.1).1) e ∙ ap (λ x. x.1) f,
        )
        refl

  -- A session of commands that are typed as a line each, with lines of at most 126 bytes to write,
  -- where the device can be opened and holds `bytes`, and stdio reads it in blocks of 1024 bytes at
  -- least: each r shows the first 1024 bytes of what the device held and of the lines written before
  -- it, newlines included, in order; the session ends at e, and the device holds them. A fuel above the
  -- number of commands is enough, and two rounds of `getc` for each r.
  pub session_shows :
      (rounds fuel : ℕ) (cs : List Command) (d : Driver) (bytes : List ℕ)
      → Stores d bytes
      → AllLines cs
      → length cs < fuel
      → (d' : Driver) × (session u block true (suc (suc rounds)) fuel (typed cs) d
          ≡ left (expected bytes cs) d')
        × Stores d' (held bytes cs)
  unfolding session typed expected held shows
  session_shows rounds zero cs d bytes s lines lt = absurd (omega arith)
  session_shows rounds (suc fuel) [] d bytes s lines lt =
      (d, rw (session, typed, letter 101 [] (omega arith)) refl, s)
  session_shows rounds (suc fuel) (reads ∷ cs) d bytes s lines lt =
      let (d1, shown, s1) = read_command_lem rounds d bytes s in
      let (d2, later, s2) = session_shows rounds fuel cs d1 bytes s1 lines (omega arith) in
      (
        d2,
        read_round (suc (suc rounds)) fuel _ (typed cs) bytes d d1
              (letter 114 (typed cs) (omega arith)) shown
            ∙ ap (shows (data_read bytes)) later,
        s2,
      )
  session_shows rounds (suc fuel) (writes t ∷ cs) d bytes s (one, text, fits, lines) lt =
      let (d1, done, s1) = write_command_lem d bytes (t ++ newline []) s in
      let (d2, later, s2) =
        session_shows rounds fuel cs d1 (kept bytes (t ++ newline [])) s1 lines (omega arith) in
      (
        d2,
        write_round (suc (suc rounds)) fuel _ _ (typed cs) t d d1
              (letter 119 (t ++ newline (typed cs)) (omega arith))
              (fgets-line 127 t (typed cs) one (omega arith)) text done
            ∙ later,
        s2,
      )
