-- ===== src/Crypt.antt =====
-- lab5/aes-crypt.c: `do_crypt` encrypts, decrypts or copies one file to another, block by block.
pub mod Stream
pub mod Round
pub mod Engine
pub mod Cipher
pub mod Files
pub mod Runs
pub mod Tool
pub mod Trip
pub mod Disk
pub mod Tests
use model_lib.Prelude.{ℕ, zero, suc, Option, none, some, List, [], ◌∷◌, length, ◌==◌, if◌then◌else◌}
use model_lib.Prelude.Int.{ℤ, pos, ltb_ℤ, eq_ℤ}

-- The files: `fread(inbuf, 1, BLOCKSIZE, in)` gives what it read, nothing at the end or on an error,
-- and `fwrite` of some bytes gives how many it wrote. The last is what EVP_CIPHER_CTX_cleanup of a
-- context that was never initialised makes of the run, which is undefined: any end, or none.
pub record Streams (In Out : Type 0) : Type 0 where
  pub fread : In → List ℕ × In
  pub fwrite : Out → List ℕ → ℕ × Out
  pub unset_cleanup : In → Out → Option (ℤ × In × Out)

-- The calls of libcrypto: the size that EVP_BytesToKey returns with the key and the vector,
-- EVP_CipherInit_ex on a fresh context, EVP_CipherUpdate and EVP_CipherFinal_ex, which may fail.
pub record Evp (Ctx : Type 0) : Type 0 where
  pub bytes_to_key : List ℕ → ℤ × List ℕ × List ℕ
  pub cipher_init : List ℕ → List ℕ → ℤ → Ctx
  pub cipher_update : Ctx → List ℕ → Option (Ctx × List ℕ)
  pub cipher_final : Ctx → Option (List ℕ)

abbrev pub success : ℤ
success = pos 1

abbrev pub failure : ℤ
failure = pos 0

-- What a call returns, and the two files after it.
pub record Outcome (In Out : Type 0) : Type 0 where
  pub code : ℤ
  pub input : In
  pub output : Out

module _ {In Out Ctx : Type 0} (streams : Streams In Out) (evp : Evp Ctx) where
  -- One block through the engine; without one (`action < 0`) it passes as it is.
  unfoldable pub transform : Option Ctx → List ℕ → Option (Option Ctx × List ℕ)
  transform none block = some (none, block)
  transform (some c) block = elim (evp.cipher_update c block) [
    | none ↦ none
    | some (c', bytes) ↦ some (some c', bytes)
  ]

  -- The end, after the loop. What this `fwrite` returns is not looked at.
  unfoldable pub finish : Option Ctx → In → Out → Outcome In Out
  finish none i o = record { code = success; input = i; output = o }
  finish (some c) i o = elim (evp.cipher_final c) [
    | none ↦ record { code = failure; input = i; output = o }
    | some bytes ↦ record { code = success; input = i; output = (streams.fwrite o bytes).1 }
  ]

  -- After an `fwrite` that falls short the context is cleaned up, also where there is no engine.
  unfoldable pub short_write : Option Ctx → In → Out → Option (Outcome In Out)
  short_write (some c) i o = some (record { code = failure; input = i; output = o })
  short_write none i o = elim (streams.unset_cleanup i o) [
    | none ↦ none
    | some (code, i', o') ↦ some (record { code = code; input = i'; output = o' })
  ]

  -- The loop `for(;;)` on fuel and what follows it; `none` means that the fuel ran out.
  unfoldable pub crypt_loop : ℕ → Option Ctx → In → Out → Option (Outcome In Out)
  crypt_loop zero engine i o = none
  crypt_loop (suc fuel) engine i o =
      let (inbuf, i') = streams.fread i in
      elim inbuf [
        | [] ↦ some (finish engine i' o)
        | b ∷ bs ↦ elim (transform engine (b ∷ bs)) [
          | none ↦ some (record { code = failure; input = i'; output = o })
          | some (engine', outbuf) ↦
              let (writelen, o') = streams.fwrite o outbuf in
              let rest = crypt_loop fuel engine' i' o' in
              if writelen == length outbuf then rest else short_write engine' i' o'
        ]
      ]

  unfoldable pub do_crypt : ℕ → In → Out → ℤ → Option (List ℕ) → Option (Outcome In Out)
  do_crypt fuel i o action key_str =
      if ltb_ℤ action (pos 0) then crypt_loop fuel none i o else elim key_str [
        | none ↦ some (record { code = failure; input = i; output = o })
        | some text ↦
            let (size, key, iv) = evp.bytes_to_key text in
            if eq_ℤ size (pos 32)
            then crypt_loop fuel (some (evp.cipher_init key iv action)) i o
            else some (record { code = failure; input = i; output = o })
      ]
