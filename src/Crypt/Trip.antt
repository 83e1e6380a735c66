-- ===== src/Crypt/Trip.antt =====
-- Two runs of lab5/aes-crypt-util.c: a file is encrypted and decrypted.
use model_lib.Prelude.{ℕ, ◌<◌, ◌≡◌, ◌≢◌, refl, ◌∙◌, Option, some, List, [], ◌∷◌, length}
use model_lib.Prelude.Int.{ℤ, pos}
use model_lib.Prelude.Text.{Text, same}
use model_lib.Crypt.{Streams, Evp, success}
use model_lib.Crypt.Stream.{Regular}
use model_lib.Crypt.Cipher.{Cipher}
use model_lib.Crypt.Files.{Stdio, crypt_files, Lawful, Crypted}
use model_lib.Crypt.Runs.{hidden, encrypted, decrypted}
use model_lib.Crypt.Tool.{option_e, option_d, Task, keyed_task, task, exit_success, aes_main}

module _ {W In Out Ctx : Type 0} (stdio : Stdio W In Out) (streams : Streams In Out) (evp : Evp Ctx)
    (content : In → List ℕ) (written : Out → List ℕ) (file : W → Text → Option (List ℕ))
    (laws : Lawful stdio content written file) where
  -- A run of the program that ends with success, and leaves `text` in its output file.
  record Done (argv : List Text) (fuel : ℕ) (w : W) (to : Text) (text : List ℕ) : Type 0 where
    state : W
    runs : aes_main stdio streams evp fuel argv w ≡ some (exit_success, state)
    holds : file state to ≡ some text

  main-Done :
      (fuel : ℕ) (argv : List Text) (w : W) (t : Task) (bytes text : List ℕ) (code : ℤ)
      → task argv ≡ some t
      → file w t.in_path ≡ some bytes
      → Crypted file
          (stdio.open_write w t.out_path).1
          t.out_path
          (crypt_files stdio streams evp fuel
            (stdio.open_write w t.out_path).1
            t.in_path
            t.out_path
            t.action
            t.key_str)
          code
          text
      → Done argv fuel w t.out_path text
  unfolding aes_main
  main-Done fuel argv w t bytes text code e f run = record {
    state = run.state;
    runs =
        rw (aes_main, e, laws.can_read w t.in_path bytes f, laws.can_write w t.out_path, run.runs)
          refl;
    holds = run.holds;
  }

  module _ (files : Regular streams content written) (encrypt : List ℕ → List ℕ → List ℕ → List ℕ)
      (decrypt : List ℕ → List ℕ → List ℕ → Option (List ℕ)) (cipher : Cipher evp encrypt decrypt)
      (key : Text) (size : (evp.bytes_to_key key).0 ≡ pos 32) where
    -- On lawful files, with a cipher that works on streams and a key that the library makes a key of 32
    -- bytes of, `-e` from `a` to `b` and then `-d` from `b` to `c` both end with success, where `b` is
    -- neither `a` nor `c`; `b` then holds the encrypted text, and `c` what `a` held. Fuels above the
    -- lengths of the two texts are enough.
    pub tool_round_trip :
        (fuel fuel' : ℕ) (w : W) (a b c : Text) (bytes : List ℕ)
        → file w a ≡ some bytes
        → a ≢ b
        → b ≢ c
        → length bytes < fuel
        → length (hidden evp encrypt key bytes) < fuel'
        → (w1 w2 : W) × (aes_main stdio streams evp fuel (option_e ∷ key ∷ a ∷ b ∷ []) w
            ≡ some (exit_success, w1))
          × (file w1 b ≡ some (hidden evp encrypt key bytes))
          × (aes_main stdio streams evp fuel' (option_d ∷ key ∷ b ∷ c ∷ []) w1
              ≡ some (exit_success, w2))
          × (file w2 c ≡ some bytes)
    unfolding task keyed_task same
    tool_round_trip fuel fuel' w a b c bytes f ab bc lt lt' =
        let first =
          main-Done fuel (option_e ∷ key ∷ a ∷ b ∷ []) w
            (record { action = pos 1; key_str = some key; in_path = a; out_path = b }) bytes
            (hidden evp encrypt key bytes) success refl f
            (encrypted stdio streams evp content written file laws files encrypt decrypt cipher fuel
              (stdio.open_write w b).1 a b key bytes size (laws.open_keeps w b a ab ∙ f)
              (laws.emptied w b) lt) in
        let second =
          main-Done fuel' (option_d ∷ key ∷ b ∷ c ∷ []) first.state
            (record { action = pos 0; key_str = some key; in_path = b; out_path = c })
            (hidden evp encrypt key bytes) bytes success refl first.holds
            (decrypted stdio streams evp content written file laws files encrypt decrypt cipher
              fuel' (stdio.open_write first.state c).1 b c key bytes size
              (laws.open_keeps first.state c b bc ∙ first.holds) (laws.emptied first.state c)
              lt') in
        (first.state, second.state, first.runs, first.holds, second.runs, second.holds)
