-- ===== src/Endfs/Unset.antt =====
-- `xmp_release` of lab5/pa5-endfs.c, by what its array `lst` holds, which nothing sets.
use model_lib.Prelude.{ℕ, ◌≡◌, ◌≢◌, false, Option, some, List}
use model_lib.Prelude.Int.{pos, ltb_ℤ}
use model_lib.Prelude.Text.{Text}
use model_lib.Crypt.{Evp}
use model_lib.Crypt.Cipher.{Cipher}
use model_lib.Endfs.{FilePath, on_path, getxattr, Headers}
use model_lib.Endfs.Sealed.{Host, Context, place, attribute, infile, outfile}
use model_lib.Endfs.Handlers.{encrypted}
use model_lib.Endfs.Runs.{System}

module _ {W In Out Ctx : Type 0} (host : Host W In Out) (evp : Evp Ctx) (headers : Headers)
    (context : Context) (content : In → List ℕ) (written : Out → List ℕ)
    (file : W → Text → Option (List ℕ)) (system : System host content written file)
    (encrypt : List ℕ → List ℕ → List ℕ → List ℕ)
    (decrypt : List ℕ → List ℕ → List ℕ → Option (List ℕ)) (cipher : Cipher evp encrypt decrypt)
    (path : FilePath) where
  abbrev pub fpath : FilePath
  fpath = place host evp headers context path

  -- As long as the file is there, it has the attribute of the user.
  abbrev pub Marked : Type 0
  Marked =
      (v : W) (bytes : List ℕ)
      → file v fpath ≡ some bytes
      → ltb_ℤ
          (host.sys v (on_path (getxattr (attribute host evp headers context v) 0) fpath)).0.result
          (pos 0)
        ≡ false

  -- The path is none of those of the temporary files.
  pub record Apart : Type 0 where
    pub not_infile : path ≢ infile
    pub not_outfile : path ≢ outfile
    pub not_encrypted : path ≢ encrypted
