-- ===== src/Crypt/Files.antt =====
-- The files by their paths, as lab5/aes-crypt-util.c and lab5/pa5-endfs.c open them for `do_crypt` of
-- lab5/aes-crypt.c, and what its runs on them do.
use model_lib.Prelude.{ℕ, ◌≡◌, ◌≢◌, refl, ◌∙◌, ap, true, Bool, Option, none, some, List, []}
use model_lib.Prelude.Int.{ℤ}
use model_lib.Prelude.Text.{Text}
use model_lib.Crypt.{Streams, Evp, do_crypt}
use model_lib.Crypt.Stream.{Returns}

-- `fopen` for reading ("rb", "rb+") and for writing ("wb+", which empties the file), whether each
-- succeeds; the stream of a file that is open; `fclose`, with which a file holds what was written; and
-- `remove`.
pub record Stdio (W In Out : Type 0) : Type 0 where
  pub open_read : W → Text → Bool
  pub open_write : W → Text → Bool × W
  pub reader : W → Text → In
  pub writer : W → Text → Out
  pub close : W → Text → Out → W
  pub remove : W → Text → W

module _ {W In Out Ctx : Type 0} (stdio : Stdio W In Out) (streams : Streams In Out)
    (evp : Evp Ctx) where
  -- A call of `do_crypt` on two files that are open, and the `fclose` of both: what it returns, and the
  -- files behind it.
  unfoldable pub crypt_files : ℕ → W → Text → Text → ℤ → Option Text → Option (ℤ × W)
  crypt_files fuel w from to action key_str =
      elim (do_crypt streams evp fuel (stdio.reader w from) (stdio.writer w to) action key_str) [
        | none ↦ none
        | some run ↦ some (run.code, stdio.close w to run.output)
      ]

-- The system's files: a file that can be read has a content, a file just opened for writing has none,
-- and the other files stay as they are.
pub record Lawful {W In Out : Type 0} (stdio : Stdio W In Out) (content : In → List ℕ)
    (written : Out → List ℕ) (file : W → Text → Option (List ℕ)) : Type 0 where
  pub can_read :
      (w : W) (p : Text) (bytes : List ℕ) → file w p ≡ some bytes → stdio.open_read w p ≡ true
  pub read :
      (w : W) (p : Text) (bytes : List ℕ)
      → file w p ≡ some bytes
      → content (stdio.reader w p) ≡ bytes
  pub can_write : (w : W) (p : Text) → (stdio.open_write w p).0 ≡ true
  pub emptied : (w : W) (p : Text) → file (stdio.open_write w p).1 p ≡ some []
  pub open_keeps : (w : W) (p q : Text) → q ≢ p → file (stdio.open_write w p).1 q ≡ file w q
  pub write : (w : W) (p : Text) → file w p ≡ some [] → written (stdio.writer w p) ≡ []
  pub closed : (w : W) (p : Text) (o : Out) → file (stdio.close w p o) p ≡ some (written o)
  pub close_keeps : (w : W) (p q : Text) (o : Out) → q ≢ p → file (stdio.close w p o) q ≡ file w q
  pub removed : (w : W) (p : Text) → file (stdio.remove w p) p ≡ none
  pub remove_keeps : (w : W) (p q : Text) → q ≢ p → file (stdio.remove w p) q ≡ file w q

-- A run of `do_crypt` on files: it returns `code`, the file `to` holds `text`, and the others are as
-- they were.
pub record Crypted {W : Type 0} (file : W → Text → Option (List ℕ)) (w : W) (to : Text)
    (run : Option (ℤ × W)) (code : ℤ) (text : List ℕ) : Type 0 where
  pub state : W
  pub runs : run ≡ some (code, state)
  pub holds : file state to ≡ some text
  pub keeps : (q : Text) → q ≢ to → file state q ≡ file w q

module _ {W In Out Ctx : Type 0} (stdio : Stdio W In Out) (streams : Streams In Out) (evp : Evp Ctx)
    (content : In → List ℕ) (written : Out → List ℕ) (file : W → Text → Option (List ℕ))
    (laws : Lawful stdio content written file) where
  pub returns-Crypted :
      (fuel : ℕ) (w : W) (from to : Text) (action : ℤ) (key_str : Option Text) (code : ℤ)
      (text : List ℕ)
      → Returns written
          (do_crypt streams evp fuel (stdio.reader w from) (stdio.writer w to) action key_str)
          code
          text
      → Crypted file w to (crypt_files stdio streams evp fuel w from to action key_str) code text
  unfolding crypt_files
  returns-Crypted fuel w from to action key_str code text r = record {
    state = stdio.close w to r.outcome.output;
    runs = rw (crypt_files, r.ends, r.returned) refl;
    holds = laws.closed w to r.outcome.output ∙ ap some r.left;
    keeps = λ q ne. laws.close_keeps w to q r.outcome.output ne;
  }
