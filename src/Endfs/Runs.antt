-- ===== src/Endfs/Runs.antt =====
-- What the shared parts of lab5/pa5-endfs.c do on lawful files: a file in place, and a key by way of
-- the temporary files.
use model_lib.Prelude.{ℕ, ◌<◌, ◌≡◌, ◌≢◌, refl, sym, ◌∙◌, Option, some, List, [], ◌++◌, length}
use model_lib.Prelude.Int.{ℤ, pos, negsuc}
use model_lib.Prelude.Text.{NoNewline, Text, IsText}
use model_lib.Crypt.{Evp, success}
use model_lib.Crypt.Stream.{Regular}
use model_lib.Crypt.Cipher.{Cipher}
use model_lib.Crypt.Files.{crypt_files, Lawful, Crypted}
use model_lib.Crypt.Runs.{hidden, encrypted, decrypted, copied}
use model_lib.Endfs.{FilePath, on_path, on_file, close, getxattr, Headers}
use model_lib.Endfs.Sealed.{
  Effect, ok, and_then, Host, Context, line_size, run_crypt, crypt_paths, crypt_in_place,
}

-- A text that `fgets` gives whole: it has bytes, none of them a newline or NUL, and fits the buffer.
pub record IsLine (line : Text) : Type 0 where
  pub some_byte : line ≢ []
  pub one_line : NoNewline line
  pub text : IsText line
  pub fits : length line < line_size

-- The system, by its documentation: files and streams are lawful, `fprintf` appends, `fgets` gives a
-- line, and the calls on attributes and descriptors leave the files as they are.
pub record System {W In Out : Type 0} (host : Host W In Out) (content : In → List ℕ)
    (written : Out → List ℕ) (file : W → Text → Option (List ℕ)) : Type 0 where
  pub laws : Lawful host.stdio content written file
  pub regular : Regular host.streams content written
  pub prints : (o : Out) (t : Text) → written (host.fprintf o t) ≡ written o ++ t
  pub gets :
      (i : In) (line : Text) → IsLine line → content i ≡ line → host.fgets line_size i ≡ some line
  pub asks :
      (w : W) (name : Text) (p q : FilePath)
      → file (host.sys w (on_path (getxattr name 0) p)).1 q ≡ file w q
  pub closes : (w : W) (fd : ℤ) (q : FilePath) → file (host.sys w (on_file close fd)).1 q ≡ file w q

module _ {W In Out Ctx : Type 0} (host : Host W In Out) (evp : Evp Ctx) (headers : Headers)
    (context : Context) (content : In → List ℕ) (written : Out → List ℕ)
    (file : W → Text → Option (List ℕ)) (system : System host content written file)
    (encrypt : List ℕ → List ℕ → List ℕ → List ℕ)
    (decrypt : List ℕ → List ℕ → List ℕ → Option (List ℕ))
    (cipher : Cipher evp encrypt decrypt) where
  -- A run that goes on with `state`, where the file `to` holds `text` and the others are as before.
  pub record Leaves (w : W) (to : Text) (run : Effect W) (text : List ℕ) : Type 0 where
    pub state : W
    pub runs : run ≡ ok state
    pub holds : file state to ≡ some text
    pub keeps : (q : Text) → q ≢ to → file state q ≡ file w q

  paths-Leaves :
      (fuel : ℕ) (w : W) (from to : Text) (action code : ℤ) (key : Text) (bytes text : List ℕ)
      → file w from ≡ some bytes
      → Crypted file
          (host.stdio.open_write w to).1
          to
          (crypt_files host.stdio host.streams evp fuel
            (host.stdio.open_write w to).1
            from
            to
            action
            (some key))
          code
          text
      → Leaves w to (crypt_paths host evp headers context fuel w from to action key) text
  unfolding crypt_paths run_crypt
  paths-Leaves fuel w from to action code key bytes text f run = record {
    state = run.state;
    runs =
        rw
          (
            crypt_paths,
            run_crypt,
            system.laws.can_read w from bytes f,
            system.laws.can_write w to,
            run.runs,
          )
          refl;
    holds = run.holds;
    keeps = λ q ne. run.keeps q ne ∙ system.laws.open_keeps w to q ne;
  }

  -- The second half of `crypt_in_place`: the temporary file goes back over the file.
  back :
      (fuel : ℕ) (w : W) (fpath dpath key : Text) (text : List ℕ)
      → file w dpath ≡ some text
      → dpath ≢ fpath
      → length text < fuel
      → Leaves w fpath (crypt_paths host evp headers context fuel w dpath fpath (negsuc 0) key) text
  back fuel w fpath dpath key text f ne lt =
      paths-Leaves fuel w dpath fpath (negsuc 0) success key text text f (
        copied host.stdio host.streams evp content written file system.laws system.regular encrypt
          decrypt cipher fuel _ dpath fpath key text (system.laws.open_keeps w fpath dpath ne ∙ f)
          (system.laws.emptied w fpath) lt)

  in_place-Leaves :
      (fuel : ℕ) (w : W) (fpath dpath : Text) (action : ℤ) (key : Text) (text : List ℕ)
      → dpath ≢ fpath
      → length text < fuel
      → Leaves w dpath (crypt_paths host evp headers context fuel w fpath dpath action key) text
      → (state : W) × (crypt_in_place host evp headers context fuel w fpath dpath action key
          ≡ ok state)
        × (file state fpath ≡ some text)
  unfolding crypt_in_place and_then
  in_place-Leaves fuel w fpath dpath action key text ne lt first =
      let second = back fuel first.state fpath dpath key text first.holds ne lt in
      (
        host.stdio.remove second.state dpath,
        rw (crypt_in_place, first.runs, second.runs) refl,
        system.laws.remove_keeps second.state dpath fpath (λ e. ne (sym e)) ∙ second.holds,
      )

  pub seals :
      (fuel : ℕ) (w : W) (fpath dpath key : Text) (bytes : List ℕ)
      → (evp.bytes_to_key key).0 ≡ pos 32
      → file w fpath ≡ some bytes
      → dpath ≢ fpath
      → length bytes < fuel
      → length (hidden evp encrypt key bytes) < fuel
      → (state : W) × (crypt_in_place host evp headers context fuel w fpath dpath (pos 1) key
          ≡ ok state)
        × (file state fpath ≡ some (hidden evp encrypt key bytes))
  seals fuel w fpath dpath key bytes size f ne lt lt' =
      in_place-Leaves fuel w fpath dpath (pos 1) key _ ne lt' (
        paths-Leaves fuel w fpath dpath (pos 1) success key bytes _ f (
          encrypted host.stdio host.streams evp content written file system.laws system.regular
            encrypt decrypt cipher fuel _ fpath dpath key bytes size
            (system.laws.open_keeps w dpath fpath (λ e. ne (sym e)) ∙ f)
            (system.laws.emptied w dpath) lt))

  pub unseals :
      (fuel : ℕ) (w : W) (fpath dpath key : Text) (bytes : List ℕ)
      → (evp.bytes_to_key key).0 ≡ pos 32
      → file w fpath ≡ some (hidden evp encrypt key bytes)
      → dpath ≢ fpath
      → length bytes < fuel
      → length (hidden evp encrypt key bytes) < fuel
      → (state : W) × (crypt_in_place host evp headers context fuel w fpath dpath (pos 0) key
          ≡ ok state)
        × (file state fpath ≡ some bytes)
  unseals fuel w fpath dpath key bytes size f ne lt lt' =
      in_place-Leaves fuel w fpath dpath (pos 0) key bytes ne lt (
        paths-Leaves fuel w fpath dpath (pos 0) success key _ bytes f (
          decrypted host.stdio host.streams evp content written file system.laws system.regular
            encrypt decrypt cipher fuel _ fpath dpath key bytes size
            (system.laws.open_keeps w dpath fpath (λ e. ne (sym e)) ∙ f)
            (system.laws.emptied w dpath) lt'))
