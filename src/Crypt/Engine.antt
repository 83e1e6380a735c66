-- ===== src/Crypt/Engine.antt =====
-- The loop of lab5/aes-crypt.c with an engine, and without one.
use model_lib.Prelude.{
  ℕ, zero, suc, ◌<◌, ◌≡◌, refl, sym, ◌∙◌, ap, none, some, List, ◌∷◌, ◌++◌, arith, length,
  append_assoc, append-nil, Option-cases, inl, inr,
}
use model_lib.Crypt.{Streams, Evp, success, failure, crypt_loop}
use model_lib.Crypt.Round.{
  transform-some, transform-fails, transform-plain, finish-some, finish_fails, finish_plain,
  feed_end, feed_refused, feed_takes, join-some, join-none, Returns-as, at_once,
}
use model_lib.Crypt.Stream.{
  Regular, Returns, feed, blocks, look, at_end, a_block, blocks_end, blocks_more, less, loop_end,
  loop_refused, loop_block,
}

some_ne : {A : Type 0} {a : A} → ¬ (some a ≡ none)
some_ne e = cc

module _ {In Out Ctx : Type 0} (streams : Streams In Out) (evp : Evp Ctx) (content : In → List ℕ)
    (written : Out → List ℕ) (files : Regular streams content written) where
  -- One block of a run that the engine takes, before the rest of it.
  block_feeds :
      (fuel : ℕ) (c : Ctx) (i : In) (o : Out) (text : List ℕ)
      → ((c' : Ctx) (i' : In) (o' : Out) (rest : List ℕ)
          → length (content i') < length (content i)
          → feed evp c' (blocks streams fuel i') ≡ some rest
          → Returns written
              (crypt_loop streams evp fuel (some c') i' o')
              success
              (written o' ++ rest))
      → (b : ℕ) (bs : List ℕ) (i' : In) → streams.fread i ≡ (b ∷ bs, i')
      → content i ≡ (b ∷ bs) ++ content i'
      → feed evp c ((b ∷ bs) ∷ blocks streams fuel i') ≡ some text
      → Returns written (crypt_loop streams evp (suc fuel) (some c) i o) success (written o ++ text)
  block_feeds fuel c i o text again b bs i' f more g =
      elim (Option-cases (evp.cipher_update c (b ∷ bs))) [
        | inl fails ↦
            absurd (some_ne (sym g ∙ feed_refused evp c (b ∷ bs) (blocks streams fuel i') fails))
        | inr ((c', bytes), takes) ↦
            let (rest, later, whole) =
              join-some bytes text (feed evp c' (blocks streams fuel i'))
                (sym (feed_takes evp c c' (b ∷ bs) bytes (blocks streams fuel i') takes) ∙ g) in
            Returns-as
              (loop_block streams evp content written files fuel (some c) (some c') i i' o b bs
                bytes f (transform-some streams evp c c' (b ∷ bs) bytes takes))
              (ap (λ x. x ++ rest) (files.write_text o bytes)
                ∙ append_assoc (written o) bytes rest
                ∙ ap (λ x. written o ++ x) whole)
              (again c' i' (streams.fwrite o bytes).1 rest
                (less streams evp content written files i i' b bs more) later)
      ]

  -- With an engine the loop returns 1 and appends what the engine makes of the blocks, if the
  -- engine takes them all.
  pub loop_feeds :
      (fuel : ℕ) (c : Ctx) (i : In) (o : Out) (text : List ℕ)
      → length (content i) < fuel
      → feed evp c (blocks streams fuel i) ≡ some text
      → Returns written (crypt_loop streams evp fuel (some c) i o) success (written o ++ text)
  loop_feeds zero c i o text lt e = absurd (omega arith)
  loop_feeds (suc fuel) c i o text lt e = elim (look streams evp content written files i) [
    | at_end i' f ↦
        at_once (record { code = success; input = i'; output = (streams.fwrite o text).1 })
          (loop_end streams evp content written files fuel (some c) i i' o f
            ∙ ap some (
                finish-some streams evp c i' o text (
                  sym (feed_end evp c)
                  ∙ ap (feed evp c)
                      (sym (blocks_end streams evp content written files (suc fuel) i i' f))
                  ∙ e)))
          (files.write_text o text)
    | a_block b bs i' f more ↦
        block_feeds fuel c i o text
          (λ c2 i2 o2 rest below h. loop_feeds fuel c2 i2 o2 rest (omega arith) h) b bs i' f more
          (ap (feed evp c) (sym (blocks_more streams evp content written files fuel i i' b bs f))
            ∙ e)
  ]

  block_fails :
      (fuel : ℕ) (c : Ctx) (i : In) (o : Out)
      → ((c' : Ctx) (i' : In) (o' : Out)
          → length (content i') < length (content i)
          → feed evp c' (blocks streams fuel i') ≡ none
          → (text : List ℕ) × Returns written
              (crypt_loop streams evp fuel (some c') i' o')
              failure
              text)
      → (b : ℕ) (bs : List ℕ) (i' : In) → streams.fread i ≡ (b ∷ bs, i')
      → content i ≡ (b ∷ bs) ++ content i'
      → feed evp c ((b ∷ bs) ∷ blocks streams fuel i') ≡ none
      → (text : List ℕ) × Returns written
          (crypt_loop streams evp (suc fuel) (some c) i o)
          failure
          text
  block_fails fuel c i o again b bs i' f more g =
      elim (Option-cases (evp.cipher_update c (b ∷ bs))) [
        | inl fails ↦ (
          written o,
          at_once (record { code = failure; input = i'; output = o })
              (loop_refused streams evp content written files fuel (some c) i i' o b bs f
                (transform-fails streams evp c (b ∷ bs) fails))
              refl,
        )
        | inr ((c', bytes), takes) ↦
            let later =
              join-none bytes (feed evp c' (blocks streams fuel i'))
                (sym (feed_takes evp c c' (b ∷ bs) bytes (blocks streams fuel i') takes) ∙ g) in
            let (text, v) =
              again c' i' (streams.fwrite o bytes).1
                (less streams evp content written files i i' b bs more) later in
            (
              text,
              Returns-as
                  (loop_block streams evp content written files fuel (some c) (some c') i i' o b bs
                    bytes f (transform-some streams evp c c' (b ∷ bs) bytes takes))
                  refl v,
            )
      ]

  -- If the engine refuses a block or the end, the loop returns 0.
  pub loop_fails :
      (fuel : ℕ) (c : Ctx) (i : In) (o : Out)
      → length (content i) < fuel
      → feed evp c (blocks streams fuel i) ≡ none
      → (text : List ℕ) × Returns written (crypt_loop streams evp fuel (some c) i o) failure text
  loop_fails zero c i o lt e = absurd (omega arith)
  loop_fails (suc fuel) c i o lt e = elim (look streams evp content written files i) [
    | at_end i' f ↦ (
      written o,
      at_once (record { code = failure; input = i'; output = o })
          (loop_end streams evp content written files fuel (some c) i i' o f
            ∙ ap some (
                finish_fails streams evp c i' o (
                  sym (feed_end evp c)
                  ∙ ap (feed evp c)
                      (sym (blocks_end streams evp content written files (suc fuel) i i' f))
                  ∙ e)))
          refl,
    )
    | a_block b bs i' f more ↦
        block_fails fuel c i o (λ c2 i2 o2 below h. loop_fails fuel c2 i2 o2 (omega arith) h) b bs
          i' f more
          (ap (feed evp c) (sym (blocks_more streams evp content written files fuel i i' b bs f))
            ∙ e)
  ]

  -- Without an engine the loop copies.
  pub loop_copies :
      (fuel : ℕ) (i : In) (o : Out)
      → length (content i) < fuel
      → Returns written (crypt_loop streams evp fuel none i o) success (written o ++ content i)
  loop_copies zero i o lt = absurd (omega arith)
  loop_copies (suc fuel) i o lt = elim (look streams evp content written files i) [
    | at_end i' f ↦
        at_once (record { code = success; input = i'; output = o })
          (loop_end streams evp content written files fuel none i i' o f
            ∙ ap some (finish_plain streams evp i' o))
          (sym (append-nil (written o))
            ∙ ap (λ x. written o ++ x) (sym (files.read_end i (ap (λ x. x.0) f))))
    | a_block b bs i' f more ↦
        Returns-as
          (loop_block streams evp content written files fuel none none i i' o b bs (b ∷ bs) f
            (transform-plain streams evp (b ∷ bs)))
          (ap (λ x. x ++ content i') (files.write_text o (b ∷ bs))
            ∙ append_assoc (written o) (b ∷ bs) (content i')
            ∙ ap (λ x. written o ++ x) (sym more))
          (loop_copies fuel i' (streams.fwrite o (b ∷ bs)).1
            (omega (arith, less streams evp content written files i i' b bs more)))
  ]
