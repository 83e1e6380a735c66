-- ===== src/Crypt/Round.antt =====
-- One round of the loop of lab5/aes-crypt.c: `transform` and `finish` with an engine and without one,
-- and the same round of what the engine makes of the blocks.
use model_lib.Prelude.{ℕ, ◌≡◌, refl, ◌∙◌, Option, none, some, List, [], ◌∷◌, ◌++◌}
use model_lib.Prelude.Int.{ℤ}
use model_lib.Crypt.{Streams, Evp, Outcome, success, failure, transform, finish}
use model_lib.Crypt.Stream.{Returns, feed}

module _ {In Out Ctx : Type 0} (streams : Streams In Out) (evp : Evp Ctx) where
  pub transform-some :
      (c c' : Ctx) (block bytes : List ℕ)
      → evp.cipher_update c block ≡ some (c', bytes)
      → transform streams evp (some c) block ≡ some (some c', bytes)
  unfolding transform
  transform-some c c' block bytes e = rw (transform, e) refl

  pub transform-fails :
      (c : Ctx) (block : List ℕ)
      → evp.cipher_update c block ≡ none
      → transform streams evp (some c) block ≡ none
  unfolding transform
  transform-fails c block e = rw (transform, e) refl

  pub transform-plain : (block : List ℕ) → transform streams evp none block ≡ some (none, block)
  unfolding transform
  transform-plain block = refl

  pub finish-some :
      (c : Ctx) (i : In) (o : Out) (bytes : List ℕ)
      → evp.cipher_final c ≡ some bytes
      → finish streams evp (some c) i o
        ≡ record { code = success; input = i; output = (streams.fwrite o bytes).1 }
  unfolding finish
  finish-some c i o bytes e = rw (finish, e) refl

  pub finish_fails :
      (c : Ctx) (i : In) (o : Out)
      → evp.cipher_final c ≡ none
      → finish streams evp (some c) i o ≡ record { code = failure; input = i; output = o }
  unfolding finish
  finish_fails c i o e = rw (finish, e) refl

  pub finish_plain :
      (i : In) (o : Out)
      → finish streams evp none i o ≡ record { code = success; input = i; output = o }
  unfolding finish
  finish_plain i o = refl

-- How `feed` goes on after a block: the engine takes it, and the rest, or not.
abbrev pub join : List ℕ → Option (List ℕ) → Option (List ℕ)
join bytes none = none
join bytes (some rest) = some (bytes ++ rest)

module _ {Ctx : Type 0} (evp : Evp Ctx) where
  pub feed_end : (c : Ctx) → feed evp c [] ≡ evp.cipher_final c
  unfolding feed
  feed_end c = refl

  pub feed_refused :
      (c : Ctx) (block : List ℕ) (bs : List (List ℕ))
      → evp.cipher_update c block ≡ none
      → feed evp c (block ∷ bs) ≡ none
  unfolding feed
  feed_refused c block bs e = rw (feed, e) refl

  pub feed_takes :
      (c c' : Ctx) (block bytes : List ℕ) (bs : List (List ℕ))
      → evp.cipher_update c block ≡ some (c', bytes)
      → feed evp c (block ∷ bs) ≡ join bytes (feed evp c' bs)
  unfolding feed
  feed_takes c c' block bytes bs e = rw (feed, e) refl

pub join-some :
    (bytes text : List ℕ) (x : Option (List ℕ))
    → join bytes x ≡ some text
    → (rest : List ℕ) × (x ≡ some rest) × (bytes ++ rest ≡ text)
join-some bytes text none e = absurd cc
join-some bytes text (some rest) e = (rest, refl, cc)

pub join-none : (bytes : List ℕ) (x : Option (List ℕ)) → join bytes x ≡ none → x ≡ none
join-none bytes none e = refl
join-none bytes (some rest) e = absurd cc

-- A run that goes on as another one.
pub Returns-as :
    {In Out : Type 0} {written : Out → List ℕ} {run run' : Option (Outcome In Out)} {code : ℤ}
    {text text' : List ℕ}
    → run ≡ run'
    → text' ≡ text
    → Returns written run' code text'
    → Returns written run code text
Returns-as e t v = record {
  outcome = v.outcome;
  ends = e ∙ v.ends;
  returned = v.returned;
  left = v.left ∙ t;
}

pub at_once :
    {In Out : Type 0} {written : Out → List ℕ} {run : Option (Outcome In Out)} {text : List ℕ}
    (r : Outcome In Out)
    → run ≡ some r
    → written r.output ≡ text
    → Returns written run r.code text
at_once r e t = record { outcome = r; ends = e; returned = refl; left = t }
