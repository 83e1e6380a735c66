-- ===== src/Crypt/Cipher.antt =====
-- What `do_crypt` of lab5/aes-crypt.c makes of a file, for a cipher that works on streams.
use model_lib.Prelude.{
  ℕ, ◌<◌, ◌≡◌, refl, ◌∙◌, ap, true, false, Option, none, some, List, ◌++◌, arith, length,
}
use model_lib.Prelude.Int.{pos, negsuc, ltb_ℤ, eq_ℤ}
use model_lib.Crypt.{Streams, Evp, success, failure, crypt_loop, do_crypt}
use model_lib.Crypt.Stream.{Regular, Returns, feed, concat, blocks, concat-blocks}
use model_lib.Crypt.Engine.{loop_feeds, loop_fails, loop_copies}

-- The cipher of the library: whatever the cuts between the blocks, an engine that encrypts gives the
-- encrypted text, an engine that decrypts gives the text if there is one, and the second undoes the
-- first.
pub record Cipher {Ctx : Type 0} (evp : Evp Ctx) (encrypt : List ℕ → List ℕ → List ℕ → List ℕ)
    (decrypt : List ℕ → List ℕ → List ℕ → Option (List ℕ)) : Type 0 where
  pub encrypts :
      (key iv : List ℕ) (bs : List (List ℕ))
      → feed evp (evp.cipher_init key iv (pos 1)) bs ≡ some (encrypt key iv (concat bs))
  pub decrypts :
      (key iv : List ℕ) (bs : List (List ℕ))
      → feed evp (evp.cipher_init key iv (pos 0)) bs ≡ decrypt key iv (concat bs)
  pub inverse : (key iv text : List ℕ) → decrypt key iv (encrypt key iv text) ≡ some text

not_negative : (action : ℕ) → ltb_ℤ (pos action) (pos 0) ≡ false
not_negative action = ground arith

negative : (action : ℕ) → ltb_ℤ (negsuc action) (pos 0) ≡ true
negative action = ground arith

module _ {In Out Ctx : Type 0} (streams : Streams In Out) (evp : Evp Ctx) where
  with_key :
      (fuel : ℕ) (i : In) (o : Out) (action : ℕ) (text : List ℕ)
      → (evp.bytes_to_key text).0 ≡ pos 32
      → do_crypt streams evp fuel i o (pos action) (some text)
        ≡ crypt_loop streams evp fuel
            (some
              (evp.cipher_init (evp.bytes_to_key text).1 (evp.bytes_to_key text).2 (pos action)))
            i
            o
  unfolding do_crypt
  with_key fuel i o action text e = rw (do_crypt, not_negative action, e) refl

  -- Where a key is needed and there is none, or the library does not make one of 32 bytes of it,
  -- `do_crypt` returns 0, and has neither read nor written.
  do_crypt_bad_key :
      (fuel : ℕ) (i : In) (o : Out) (action : ℕ)
      → (do_crypt streams evp fuel i o (pos action) none
          ≡ some (record { code = failure; input = i; output = o }))
        × ((text : List ℕ)
            → eq_ℤ (evp.bytes_to_key text).0 (pos 32) ≡ false
            → do_crypt streams evp fuel i o (pos action) (some text)
              ≡ some (record { code = failure; input = i; output = o }))
  unfolding do_crypt
  do_crypt_bad_key fuel i o action = (
    rw (do_crypt, not_negative action) refl,
    λ text e. rw (do_crypt, not_negative action, e) refl,
  )

  module _ (content : In → List ℕ) (written : Out → List ℕ)
      (files : Regular streams content written) (encrypt : List ℕ → List ℕ → List ℕ → List ℕ)
      (decrypt : List ℕ → List ℕ → List ℕ → Option (List ℕ))
      (cipher : Cipher evp encrypt decrypt) where
    -- With a negative action `do_crypt` copies the file, whatever the key, and returns 1; a fuel above
    -- the length of the file is enough.
    pub do_crypt_copies :
        (fuel : ℕ) (i : In) (o : Out) (action : ℕ) (key_str : Option (List ℕ))
        → length (content i) < fuel
        → Returns written
            (do_crypt streams evp fuel i o (negsuc action) key_str)
            success
            (written o ++ content i)
    unfolding do_crypt
    do_crypt_copies fuel i o action key_str lt =
        rw (do_crypt, negative action) (loop_copies streams evp content written files fuel i o lt)

    pub encrypt_lem :
        (fuel : ℕ) (i : In) (o : Out) (text : List ℕ)
        → (evp.bytes_to_key text).0 ≡ pos 32
        → length (content i) < fuel
        → Returns written
            (do_crypt streams evp fuel i o (pos 1) (some text))
            success
            (written o ++ encrypt (evp.bytes_to_key text).1 (evp.bytes_to_key text).2 (content i))
    encrypt_lem fuel i o text size lt = rw (with_key fuel i o 1 text size) (
        loop_feeds streams evp content written files fuel _ i o _ lt (
          cipher.encrypts _ _ (blocks streams fuel i)
          ∙ ap (λ x. some (encrypt (evp.bytes_to_key text).1 (evp.bytes_to_key text).2 x))
              (concat-blocks streams evp content written files fuel i lt)))

    decrypt_text :
        (fuel : ℕ) (i : In) (text : List ℕ)
        → length (content i) < fuel
        → feed evp
            (evp.cipher_init (evp.bytes_to_key text).1 (evp.bytes_to_key text).2 (pos 0))
            (blocks streams fuel i)
          ≡ decrypt (evp.bytes_to_key text).1 (evp.bytes_to_key text).2 (content i)
    decrypt_text fuel i text lt =
        cipher.decrypts _ _ (blocks streams fuel i)
        ∙ ap (decrypt (evp.bytes_to_key text).1 (evp.bytes_to_key text).2)
            (concat-blocks streams evp content written files fuel i lt)

    pub decrypt_lem :
        (fuel : ℕ) (j : In) (o : Out) (text bytes : List ℕ)
        → (evp.bytes_to_key text).0 ≡ pos 32
        → length (content j) < fuel
        → content j ≡ encrypt (evp.bytes_to_key text).1 (evp.bytes_to_key text).2 bytes
        → Returns written
            (do_crypt streams evp fuel j o (pos 0) (some text))
            success
            (written o ++ bytes)
    decrypt_lem fuel j o text bytes size lt e = rw (with_key fuel j o 0 text size) (
        loop_feeds streams evp content written files fuel _ j o _ lt
          (decrypt_text fuel j text lt ∙ ap (decrypt _ _) e ∙ cipher.inverse _ _ bytes))

    -- With a key, `do_crypt` with action 1 returns 1 and appends the encrypted text, and on a file that
    -- holds this text `do_crypt` with action 0 and the same key returns 1 and appends what the first
    -- file held; fuels above the lengths of the files are enough.
    pub round_trip :
        (fuel fuel' : ℕ) (i j : In) (o o' : Out) (text : List ℕ)
        → (evp.bytes_to_key text).0 ≡ pos 32
        → length (content i) < fuel
        → length (content j) < fuel'
        → content j ≡ encrypt (evp.bytes_to_key text).1 (evp.bytes_to_key text).2 (content i)
        → Returns written
            (do_crypt streams evp fuel i o (pos 1) (some text))
            success
            (written o ++ content j)
          × Returns written
              (do_crypt streams evp fuel' j o' (pos 0) (some text))
              success
              (written o' ++ content i)
    round_trip fuel fuel' i j o o' text size lt lt' e = (
      rw e (encrypt_lem fuel i o text size lt),
      decrypt_lem fuel' j o' text (content i) size lt' e,
    )

    -- On a file that the cipher does not decrypt with this key `do_crypt` returns 0.
    pub do_crypt_bad_text :
        (fuel : ℕ) (i : In) (o : Out) (text : List ℕ)
        → (evp.bytes_to_key text).0 ≡ pos 32
        → length (content i) < fuel
        → decrypt (evp.bytes_to_key text).1 (evp.bytes_to_key text).2 (content i) ≡ none
        → (bytes : List ℕ) × Returns written
            (do_crypt streams evp fuel i o (pos 0) (some text))
            failure
            bytes
    do_crypt_bad_text fuel i o text size lt e = rw (with_key fuel i o 0 text size) (
        loop_fails streams evp content written files fuel _ i o lt
          (decrypt_text fuel i text lt ∙ e))
