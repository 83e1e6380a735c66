-- ===== src/Crypt/Stream.antt =====
-- The loop of lab5/aes-crypt.c on regular files: the blocks that it reads and what it writes.
use model_lib.Prelude.{
  ℕ, zero, suc, ◌<◌, ◌≡◌, refl, sym, ◌∙◌, ap, Option, none, some, List, [], ◌∷◌, ◌++◌, arith,
  length, length-append, ◌==◌, if◌then◌else◌,
}
use model_lib.Prelude.Int.{ℤ}
use model_lib.Crypt.{Streams, Evp, Outcome, failure, transform, finish, crypt_loop}

-- The library's calls on regular files: a block is the next part of what is left, it is empty at
-- the end only, and a write on a disk with room writes everything.
pub record Regular {In Out : Type 0} (streams : Streams In Out) (content : In → List ℕ)
    (written : Out → List ℕ) : Type 0 where
  pub read_block : (i : In) → content i ≡ (streams.fread i).0 ++ content (streams.fread i).1
  pub read_end : (i : In) → (streams.fread i).0 ≡ [] → content i ≡ []
  pub write_all : (o : Out) (b : List ℕ) → (streams.fwrite o b).0 ≡ length b
  pub write_text : (o : Out) (b : List ℕ) → written (streams.fwrite o b).1 ≡ written o ++ b

-- The run returns `code` and leaves `text` in the file that it writes.
pub record Returns {In Out : Type 0} (written : Out → List ℕ) (run : Option (Outcome In Out))
    (code : ℤ) (text : List ℕ) : Type 0 where
  pub outcome : Outcome In Out
  pub ends : run ≡ some outcome
  pub returned : outcome.code ≡ code
  pub left : written outcome.output ≡ text

-- All blocks through an engine and its end, as one text.
unfoldable pub feed : {Ctx : Type 0} → Evp Ctx → Ctx → List (List ℕ) → Option (List ℕ)
feed evp c [] = evp.cipher_final c
feed evp c (block ∷ blocks) = elim (evp.cipher_update c block) [
  | none ↦ none
  | some (c', bytes) ↦ elim (feed evp c' blocks) [ none ↦ none | some rest ↦ some (bytes ++ rest) ]
]

unfoldable pub concat : List (List ℕ) → List ℕ
concat [] = []
concat (block ∷ blocks) = block ++ concat blocks

-- The blocks that the loop reads.
unfoldable pub blocks : {In Out : Type 0} → Streams In Out → ℕ → In → List (List ℕ)
blocks streams zero i = []
blocks streams (suc fuel) i =
    let (inbuf, i') = streams.fread i in
    elim inbuf [ [] ↦ [] | b ∷ bs ↦ (b ∷ bs) ∷ blocks streams fuel i' ]

if_same {ℓ} : {A : Type ℓ} (n k : ℕ) (x y : A) → n ≡ k → (if n == k then x else y) ≡ x
if_same n k x y e = ground arith

module _ {In Out Ctx : Type 0} (streams : Streams In Out) (evp : Evp Ctx) (content : In → List ℕ)
    (written : Out → List ℕ) (files : Regular streams content written) where
  -- What one `fread` gives.
  pub data Read (i : In) : Type 0 where
    at_end : (i' : In) → streams.fread i ≡ ([], i') → Read i
    a_block :
        (b : ℕ) (bs : List ℕ) (i' : In)
        → streams.fread i ≡ (b ∷ bs, i')
        → content i ≡ (b ∷ bs) ++ content i'
        → Read i

  pub look : (i : In) → Read i
  look i = go (streams.fread i) refl
    where
      go : (x : List ℕ × In) → streams.fread i ≡ x → Read i
      go ([], i') e = at_end i' e
      go (b ∷ bs, i') e = a_block b bs i' e (files.read_block i ∙ ap (λ x. x.0 ++ content x.1) e)

  pub blocks_end : (fuel : ℕ) (i i' : In) → streams.fread i ≡ ([], i') → blocks streams fuel i ≡ []
  unfolding blocks
  blocks_end zero i i' e = refl
  blocks_end (suc fuel) i i' e = rw (blocks, e) refl

  pub blocks_more :
      (fuel : ℕ) (i i' : In) (b : ℕ) (bs : List ℕ)
      → streams.fread i ≡ (b ∷ bs, i')
      → blocks streams (suc fuel) i ≡ (b ∷ bs) ∷ blocks streams fuel i'
  unfolding blocks
  blocks_more fuel i i' b bs e = rw (blocks, ap (λ x. x.0) e, ap (λ x. x.1) e) refl

  pub less :
      (i i' : In) (b : ℕ) (bs : List ℕ)
      → content i ≡ (b ∷ bs) ++ content i'
      → length (content i') < length (content i)
  less i i' b bs e = omega (arith, ap length e, length-append (b ∷ bs) (content i'))

  pub concat-blocks :
      (fuel : ℕ) (i : In) → length (content i) < fuel → concat (blocks streams fuel i) ≡ content i
  unfolding concat
  concat-blocks zero i lt = absurd (omega arith)
  concat-blocks (suc fuel) i lt = elim (look i) [
    | at_end i' e ↦
        ap concat (blocks_end (suc fuel) i i' e) ∙ sym (files.read_end i (ap (λ x. x.0) e))
    | a_block b bs i' e text ↦
        ap concat (blocks_more fuel i i' b bs e)
        ∙ ap (λ x. (b ∷ bs) ++ x) (concat-blocks fuel i' (omega (arith, less i i' b bs text)))
        ∙ sym text
  ]

  pub loop_end :
      (fuel : ℕ) (engine : Option Ctx) (i i' : In) (o : Out)
      → streams.fread i ≡ ([], i')
      → crypt_loop streams evp (suc fuel) engine i o ≡ some (finish streams evp engine i' o)
  unfolding crypt_loop
  loop_end fuel engine i i' o e = rw (crypt_loop, ap (λ x. x.0) e, ap (λ x. x.1) e) refl

  pub loop_refused :
      (fuel : ℕ) (engine : Option Ctx) (i i' : In) (o : Out) (b : ℕ) (bs : List ℕ)
      → streams.fread i ≡ (b ∷ bs, i')
      → transform streams evp engine (b ∷ bs) ≡ none
      → crypt_loop streams evp (suc fuel) engine i o
        ≡ some (record { code = failure; input = i'; output = o })
  unfolding crypt_loop
  loop_refused fuel engine i i' o b bs e t =
      rw (crypt_loop, ap (λ x. x.0) e, t, ap (λ x. x.1) e) refl

  pub loop_block :
      (fuel : ℕ) (engine engine' : Option Ctx) (i i' : In) (o : Out) (b : ℕ) (bs bytes : List ℕ)
      → streams.fread i ≡ (b ∷ bs, i')
      → transform streams evp engine (b ∷ bs) ≡ some (engine', bytes)
      → crypt_loop streams evp (suc fuel) engine i o
        ≡ crypt_loop streams evp fuel engine' i' (streams.fwrite o bytes).1
  unfolding crypt_loop
  loop_block fuel engine engine' i i' o b bs bytes e t =
      rw (crypt_loop, ap (λ x. x.0) e, t, ap (λ x. x.1) e)
        (if_same _ _ _ _ (files.write_all o bytes))
