-- ===== src/Endfs/Keys.antt =====
-- lab5/pa5-endfs.c: `crypt_text`, by way of the temporary files.
use model_lib.Prelude.{
  ℕ, ◌<◌, ◌≡◌, ◌≢◌, refl, sym, ◌∙◌, ap, Option, some, List, [], ◌∷◌, ◌++◌, length, arith,
}
use model_lib.Prelude.Int.{ℤ, pos}
use model_lib.Prelude.Text.{Text, until_nul_text}
use model_lib.Crypt.{Evp, success}
use model_lib.Crypt.Cipher.{Cipher}
use model_lib.Crypt.Files.{crypt_files, Crypted}
use model_lib.Crypt.Runs.{hidden, decrypted, encrypted}
use model_lib.Endfs.{FilePath, Headers, xmp_getpath}
use model_lib.Endfs.Sealed.{
  ok, and_then, Host, Context, place, infile, outfile, write_text, read_line, run_crypt, crypt_text,
}
use model_lib.Endfs.Runs.{IsLine, System}

first : FilePath → ℕ
first [] = 0
first (b ∷ bs) = b

append-injective : (m p q : FilePath) → m ++ p ≡ m ++ q → p ≡ q
append-injective [] p q e = e
append-injective (b ∷ m) p q e = append-injective m p q (ap rest e)
  where
    rest : FilePath → FilePath
    rest [] = []
    rest (b ∷ bs) = bs

module _ {W In Out Ctx : Type 0} (host : Host W In Out) (evp : Evp Ctx) (headers : Headers)
    (context : Context) (content : In → List ℕ) (written : Out → List ℕ)
    (file : W → Text → Option (List ℕ)) (system : System host content written file)
    (encrypt : List ℕ → List ℕ → List ℕ → List ℕ)
    (decrypt : List ℕ → List ℕ → List ℕ → Option (List ℕ))
    (cipher : Cipher evp encrypt decrypt) where
  abbrev here : FilePath → FilePath
  here p = place host evp headers context p

  pub place-injective : (p q : FilePath) → p ≢ q → here p ≢ here q
  unfolding xmp_getpath
  place-injective p q ne e = ne (append-injective context.mirrordir p q e)

  apart : here infile ≢ here outfile
  unfolding first
  apart = place-injective infile outfile (λ e. absurd (omega (arith, ap first e)))

  -- The file of `write_text` holds the text.
  write-holds :
      (w : W) (p : FilePath) (t : Text)
      → file w p ≡ some []
      → file (write_text host evp headers context w p t) p ≡ some t
  unfolding write_text
  write-holds w p t e =
      system.laws.closed w p _
      ∙ ap some (system.prints _ t ∙ ap (λ o. o ++ t) (system.laws.write w p e))

  write-keeps :
      (w : W) (p q : FilePath) (t : Text)
      → q ≢ p
      → file (write_text host evp headers context w p t) q ≡ file w q
  unfolding write_text
  write-keeps w p q t ne = system.laws.close_keeps w p q _ ne

  read_line_lem :
      (w : W) (p : FilePath) (junk line : Text)
      → IsLine line
      → file w p ≡ some line
      → read_line host evp headers context w p junk ≡ ok line
  unfolding read_line
  read_line_lem w p junk line l f =
      rw
        (
          read_line,
          system.laws.can_read w p line f,
          system.gets _ line l (system.laws.read w p line f),
        )
        (ap ok (until_nul_text line l.text))

  -- A text goes through `do_crypt` by way of the two files, where a run on them gives one line. The
  -- other files are as they were.
  through :
      (fuel : ℕ) (w : W) (text junk line : Text) (action code : ℤ)
      → IsLine line
      → ((v : W)
          → file v (here infile) ≡ some text
          → file v (here outfile) ≡ some []
          → Crypted file v
              (here outfile)
              (crypt_files host.stdio host.streams evp fuel v
                (here infile)
                (here outfile)
                action
                (some context.userkey))
              code
              line)
      → (state : W) × (crypt_text host evp headers context fuel w text junk action
          ≡ ok (line, state))
        × ((q : FilePath) → q ≢ here infile → q ≢ here outfile → file state q ≡ file w q)
  unfolding crypt_text run_crypt and_then
  through fuel w text junk line action code l runs = (
    host.stdio.remove (host.stdio.remove run.state (here infile)) (here outfile),
    rw
        (
          crypt_text,
          system.laws.can_write w (here infile),
          system.laws.can_write w1 (here outfile),
          system.laws.can_read w3 (here infile) text holds_in,
          run_crypt,
          run.runs,
          read_line_lem run.state (here outfile) junk line l run.holds,
        )
        refl,
    λ q ne ne'.
        system.laws.remove_keeps _ (here outfile) q ne'
        ∙ system.laws.remove_keeps _ (here infile) q ne
        ∙ run.keeps q ne'
        ∙ write-keeps w2 (here infile) q text ne
        ∙ system.laws.open_keeps w1 (here outfile) q ne'
        ∙ system.laws.open_keeps w (here infile) q ne,
  )
    where
      w1 : W
      w1 = (host.stdio.open_write w (here infile)).1

      w2 : W
      w2 = (host.stdio.open_write w1 (here outfile)).1

      w3 : W
      w3 = write_text host evp headers context w2 (here infile) text

      holds_in : file w3 (here infile) ≡ some text
      holds_in = write-holds w2 (here infile) text (
          system.laws.open_keeps w1 (here outfile) (here infile) apart
          ∙ system.laws.emptied w (here infile))

      holds_out : file w3 (here outfile) ≡ some []
      holds_out =
          write-keeps w2 (here infile) (here outfile) text (λ e. apart (sym e))
          ∙ system.laws.emptied w1 (here outfile)

      run :
          Crypted file w3
            (here outfile)
            (crypt_files host.stdio host.streams evp fuel w3
              (here infile)
              (here outfile)
              action
              (some context.userkey))
            code
            line
      run = runs w3 holds_in holds_out

  -- The text under the user's key comes out.
  pub unwraps :
      (fuel : ℕ) (w : W) (junk line : Text)
      → (evp.bytes_to_key context.userkey).0 ≡ pos 32
      → IsLine line
      → length (hidden evp encrypt context.userkey line) < fuel
      → (state : W) × (crypt_text host evp headers context fuel w
            (hidden evp encrypt context.userkey line)
            junk
            (pos 0)
          ≡ ok (line, state))
        × ((q : FilePath) → q ≢ here infile → q ≢ here outfile → file state q ≡ file w q)
  unwraps fuel w junk line size l lt =
      through fuel w (hidden evp encrypt context.userkey line) junk line (pos 0) success l (λ v f e.
        decrypted host.stdio host.streams evp content written file system.laws system.regular
          encrypt decrypt cipher fuel v (here infile) (here outfile) context.userkey line size f e
          lt)

  -- The text comes out under the user's key, where it then is one line.
  pub wraps :
      (fuel : ℕ) (w : W) (text junk : Text)
      → (evp.bytes_to_key context.userkey).0 ≡ pos 32
      → IsLine (hidden evp encrypt context.userkey text)
      → length text < fuel
      → (state : W) × (crypt_text host evp headers context fuel w text junk (pos 1)
          ≡ ok (hidden evp encrypt context.userkey text, state))
        × ((q : FilePath) → q ≢ here infile → q ≢ here outfile → file state q ≡ file w q)
  wraps fuel w text junk size l lt =
      through fuel w text junk (hidden evp encrypt context.userkey text) (pos 1) success l (λ v f e.
        encrypted host.stdio host.streams evp content written file system.laws system.regular
          encrypt decrypt cipher fuel v (here infile) (here outfile) context.userkey text size f e
          lt)
