-- ===== src/Crypt/Runs.antt =====
-- What the runs of `do_crypt` of lab5/aes-crypt.c do to files that are open.
use mathlib.Core.Path.{subst}
use model_lib.Prelude.{ℕ, ◌<◌, ◌≡◌, ap, ap₂, Option, some, List, [], ◌++◌, length}
use model_lib.Prelude.Int.{pos, negsuc}
use model_lib.Prelude.Text.{Text}
use model_lib.Crypt.{Streams, Evp, success}
use model_lib.Crypt.Stream.{Regular, Returns}
use model_lib.Crypt.Cipher.{Cipher, encrypt_lem, decrypt_lem, do_crypt_copies}
use model_lib.Crypt.Files.{Stdio, crypt_files, Lawful, Crypted, returns-Crypted}

-- The encrypted text under a key string.
abbrev pub hidden :
    {Ctx : Type 0} → Evp Ctx → (List ℕ → List ℕ → List ℕ → List ℕ) → Text → List ℕ → List ℕ
hidden evp encrypt key bytes = encrypt (evp.bytes_to_key key).1 (evp.bytes_to_key key).2 bytes

module _ {W In Out Ctx : Type 0} (stdio : Stdio W In Out) (streams : Streams In Out) (evp : Evp Ctx)
    (content : In → List ℕ) (written : Out → List ℕ) (file : W → Text → Option (List ℕ))
    (laws : Lawful stdio content written file) (files : Regular streams content written)
    (encrypt : List ℕ → List ℕ → List ℕ → List ℕ)
    (decrypt : List ℕ → List ℕ → List ℕ → Option (List ℕ)) (cipher : Cipher evp encrypt decrypt)
    (fuel : ℕ) (w : W) (from to key : Text) (bytes : List ℕ) where
  pub encrypted :
      (evp.bytes_to_key key).0 ≡ pos 32
      → file w from ≡ some bytes
      → file w to ≡ some []
      → length bytes < fuel
      → Crypted file w to
          (crypt_files stdio streams evp fuel w from to (pos 1) (some key))
          success
          (hidden evp encrypt key bytes)
  encrypted size f e lt =
      returns-Crypted stdio streams evp content written file laws fuel w from to (pos 1) (some key)
        success _
        (subst (Returns written _ success)
          (ap₂ ◌++◌ (laws.write w to e) (ap (hidden evp encrypt key) here))
          (encrypt_lem streams evp content written files encrypt decrypt cipher fuel _ _ key size
            (rw here lt)))
    where
      here : content (stdio.reader w from) ≡ bytes
      here = laws.read w from bytes f

  pub decrypted :
      (evp.bytes_to_key key).0 ≡ pos 32
      → file w from ≡ some (hidden evp encrypt key bytes)
      → file w to ≡ some []
      → length (hidden evp encrypt key bytes) < fuel
      → Crypted file w to
          (crypt_files stdio streams evp fuel w from to (pos 0) (some key))
          success
          bytes
  decrypted size f e lt =
      returns-Crypted stdio streams evp content written file laws fuel w from to (pos 0) (some key)
        success bytes
        (subst (Returns written _ success) (ap (λ o. o ++ bytes) (laws.write w to e)) (
          decrypt_lem streams evp content written files encrypt decrypt cipher fuel _ _ key bytes
            size (rw here lt) here))
    where
      here : content (stdio.reader w from) ≡ hidden evp encrypt key bytes
      here = laws.read w from _ f

  pub copied :
      file w from ≡ some bytes
      → file w to ≡ some []
      → length bytes < fuel
      → Crypted file w to
          (crypt_files stdio streams evp fuel w from to (negsuc 0) (some key))
          success
          bytes
  copied f e lt =
      returns-Crypted stdio streams evp content written file laws fuel w from to (negsuc 0)
        (some key) success bytes
        (subst (Returns written _ success) (ap₂ ◌++◌ (laws.write w to e) here) (
          do_crypt_copies streams evp content written files encrypt decrypt cipher fuel _ _ 0
            (some key) (rw here lt)))
    where
      here : content (stdio.reader w from) ≡ bytes
      here = laws.read w from bytes f
