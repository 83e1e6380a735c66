-- ===== src/Endfs/Created.antt =====
-- lab5/pa5-endfs.c: what `xmp_create` does, and `crypt_text` on the text that it stores.
use model_lib.Prelude.{arith, ℕ, ◌<◌, ◌≡◌, ◌≢◌, refl, false, Option, List, [], length}
use model_lib.Prelude.Int.{pos, negsuc, eq_ℤ}
use model_lib.Prelude.Text.{Text}
use model_lib.Crypt.{Evp}
use model_lib.Crypt.Cipher.{Cipher}
use model_lib.Crypt.Runs.{hidden}
use model_lib.Endfs.{FilePath, on_path, on_file, open_file, close, setxattr, Headers}
use model_lib.Endfs.Sealed.{
  ok, and_then, Host, Context, place, attribute, infile, outfile, crypt_text,
}
use model_lib.Endfs.Handlers.{master, Junk, xmp_create}
use model_lib.Endfs.Runs.{IsLine, System}
use model_lib.Endfs.Keys.{wraps, unwraps}

master-IsLine : IsLine master
master-IsLine = record {
  some_byte = λ e. cc;
  one_line = omega arith;
  text = omega arith;
  fits = omega arith;
}

module _ {W In Out Ctx : Type 0} (host : Host W In Out) (evp : Evp Ctx) (headers : Headers)
    (context : Context) (content : In → List ℕ) (written : Out → List ℕ)
    (file : W → Text → Option (List ℕ)) (system : System host content written file)
    (encrypt : List ℕ → List ℕ → List ℕ → List ℕ)
    (decrypt : List ℕ → List ℕ → List ℕ → Option (List ℕ)) (cipher : Cipher evp encrypt decrypt)
    (o_creat fuel : ℕ) (w : W) (path : FilePath) (mode : ℕ) (junk : Junk) where
  abbrev pub fpath : FilePath
  fpath = place host evp headers context path

  -- The world after the file is made and closed.
  abbrev pub made : W
  made =
      (host.sys (host.sys w (on_path (open_file o_creat mode) fpath)).1
        (on_file close (host.sys w (on_path (open_file o_creat mode) fpath)).0.result)).1

  -- The master key under the user's key.
  abbrev pub stored : Text
  stored = hidden evp encrypt context.userkey master

  -- Where the file can be made, the user's key has 32 bytes for the library, and the master key under
  -- it is one line: `xmp_create` returns 0, and its last call sets the attribute of the user to this
  -- text; until then it has changed no file but the two temporary ones since the file was made. In any
  -- world `crypt_text` makes the master key of this text again. Fuels above the lengths of the two
  -- texts are enough.
  pub create_key :
      (fuel' : ℕ) (later : W) (junk' : Text)
      → eq_ℤ (host.sys w (on_path (open_file o_creat mode) fpath)).0.result (negsuc 0) ≡ false
      → (evp.bytes_to_key context.userkey).0 ≡ pos 32
      → IsLine stored
      → length master < fuel
      → length stored < fuel'
      → (v s : W) × (xmp_create host evp headers context o_creat fuel w path mode junk
          ≡ ok (
            record { code = pos 0; buffer = [] },
            (host.sys v
                (on_path (setxattr (attribute host evp headers context v) stored 0) fpath)).1,
          ))
        × ((q : FilePath)
            → q ≢ place host evp headers context infile
            → q ≢ place host evp headers context outfile
            → file v q ≡ file made q)
        × (crypt_text host evp headers context fuel' later stored junk' (pos 0) ≡ ok (master, s))
  unfolding xmp_create and_then
  create_key fuel' later junk' opened size l lt lt' =
      let (v, wrapped, keeps) =
        wraps host evp headers context content written file system encrypt decrypt cipher fuel made
          master junk.key size l lt in
      let (s, unwrapped, same) =
        unwraps host evp headers context content written file system encrypt decrypt cipher fuel'
          later junk' master size master-IsLine lt' in
      (v, s, rw (xmp_create, opened, wrapped) refl, keeps, unwrapped)
