-- ===== src/Transfer/Whole.antt =====
-- The loop of lab4/rw.c from its start to its end.
use native.Mathlib.Nat.{div-add-mod'}
use model_lib.Prelude.{
  ℕ, zero, suc, ◌+◌, ◌*◌, ◌/◌, ◌<◌, ◌≤◌, ◌≡◌, refl, sym, ◌∙◌, ap, ap₂, true, false, Option, none,
  List, ◌++◌, arith, length, append_assoc, append-nil, take, drop, dec_lt,
}
use model_lib.Prelude.Int.{ℤ, pos, pos_part, neg_part, ◌+ℤ◌, +ℤ-pos, ltb_ℤ, negsuc}
use model_lib.Transfer.{Settings, Files, Totals, Checked, transfer, no_totals}
use model_lib.Transfer.Arguments.{Accepted}
use model_lib.Transfer.Cycle.{
  Regular, cycled, block, block-Copied, block-Reset, continue, transfer_step, Ends, cycled_here,
  cycled_again,
}

ltb-true : (z y : ℤ) (a b : ℕ) → z ≡ pos a → y ≡ pos b → a < b → ltb_ℤ z y ≡ true
ltb-true z y a b e f h = rw (e, f) (ground arith)

ltb-false : (z y : ℤ) (a b : ℕ) → z ≡ pos a → y ≡ pos b → b ≤ a → ltb_ℤ z y ≡ false
ltb-false z y a b e f h = rw (e, f) (ground arith)

pos_of : (z : ℤ) → neg_part z ≡ 0 → z ≡ pos (pos_part z)
pos_of (pos n) e = refl
pos_of (negsuc n) e = absurd (omega arith)

module _ {W : Type 0} (files : Files W) (content : List ℕ) (offset : W → ℕ) (written : W → List ℕ)
    (regular : Regular files content offset written) (s : Settings)
    (natural : neg_part s.blocksize ≡ 0) (positive : 1 ≤ block s) where
  Ends-as :
      {run run' : Option (Checked (W × Totals))} {n n' : ℕ} {text text' : List ℕ}
      → run ≡ run'
      → n' ≡ n
      → text' ≡ text
      → Ends written run' n' text'
      → Ends written run n text
  Ends-as e f g v = record {
    state = v.state;
    totals = v.totals;
    runs = e ∙ v.runs;
    counted = v.counted ∙ ap pos f;
    left = v.left ∙ g;
  }

  -- From the test of the loop on, with `k` blocks to go, two rounds for each are enough.
  abbrev Going : ℕ → Type 0
  Going k =
      (fuel : ℕ) (w : W) (t : Totals) (done : ℕ)
      → block s ≤ length content
      → t.bytes_written ≡ pos done
      → s.transfersize ≡ pos (done + k * block s)
      → 2 * k ≤ fuel
      → Ends written (continue files content offset written regular s natural positive fuel w t)
          (done + k * block s) (written w ++ cycled content (block s) k (offset w))

  Going-none : Going 0
  unfolding cycled
  Going-none fuel w t done room e all enough = record {
    state = w;
    totals = t;
    runs =
        rw (ltb-false t.bytes_written s.transfersize done (done + 0 * block s) e all (omega arith))
          refl;
    counted = e ∙ ap pos (omega arith);
    left = sym (append-nil (written w));
  }

  times_suc : (k b : ℕ) → suc k * b ≡ b + k * b
  times_suc k b = omega arith

  -- A round where a whole block is left, and what comes after it.
  round :
      (k : ℕ)
      → Going k
      → (fuel : ℕ) (w : W) (t : Totals) (done : ℕ) → offset w + block s ≤ length content
      → t.bytes_written ≡ pos done
      → s.transfersize ≡ pos (done + suc k * block s)
      → 2 * k ≤ fuel
      → Ends written
          (transfer files (suc fuel) s w t)
          (done + suc k * block s)
          (written w ++ cycled content (block s) (suc k) (offset w))
  round k going fuel w t done room e all enough =
      let c = block-Copied files content offset written regular s natural positive w t room in
      Ends-as
        (transfer_step files content offset written regular s natural positive fuel w c.state t
          c.totals c.runs)
        (omega (arith, times_suc k (block s)))
        (ap₂ (λ x y. x ++ cycled content (block s) k y) c.text c.moved
          ∙ append_assoc (written w) (take (block s) (drop (offset w) content))
              (cycled content (block s) k (offset w + block s))
          ∙ ap (λ x. written w ++ x)
              (sym (
                cycled_here files content offset written regular s natural positive k (offset w)
                  room)))
        (going fuel c.state c.totals (done + block s) (omega arith)
          (c.counted ∙ ap (λ z. z +ℤ pos (block s)) e ∙ +ℤ-pos done (block s))
          (all ∙ ap pos (omega (arith, times_suc k (block s)))) enough)

  cycled_start :
      (k at : ℕ)
      → length content < at + block s
      → block s ≤ length content
      → cycled content (block s) (suc k) 0 ≡ cycled content (block s) (suc k) at
  cycled_start k at past room =
      cycled_here files content offset written regular s natural positive k 0 (omega arith)
      ∙ ap (λ x. take (block s) content ++ cycled content (block s) k x) (omega arith)
      ∙ sym (cycled_again files content offset written regular s natural positive k at past)

  -- A round that starts the input again, and the one that follows it.
  restarted :
      (k : ℕ)
      → Going k
      → (fuel : ℕ) (w : W) (t : Totals) (done : ℕ) → length content < offset w + block s
      → block s ≤ length content
      → t.bytes_written ≡ pos done
      → s.transfersize ≡ pos (done + suc k * block s)
      → 2 * k ≤ fuel
      → Ends written
          (transfer files (suc (suc fuel)) s w t)
          (done + suc k * block s)
          (written w ++ cycled content (block s) (suc k) (offset w))
  restarted k going fuel w t done past room e all enough =
      let r = block-Reset files content offset written regular s natural positive w t past in
      Ends-as
        (transfer_step files content offset written regular s natural positive (suc fuel) w r.state
            t r.totals r.runs
          ∙ rw
              (ltb-true r.totals.bytes_written s.transfersize done (done + suc k * block s)
                (r.counted ∙ e) all (omega (arith, times_suc k (block s))))
              refl)
        refl
        (ap₂ (λ x y. x ++ cycled content (block s) (suc k) y) r.text r.moved
          ∙ ap (λ x. written w ++ x) (cycled_start k (offset w) past room))
        (round k going fuel r.state r.totals done (omega (arith, r.moved)) (r.counted ∙ e) all
          enough)

  Going-all : (k : ℕ) → Going k
  Going-all zero fuel w t done room e all enough = Going-none fuel w t done room e all enough
  Going-all (suc k) zero w t done room e all enough = absurd (omega arith)
  Going-all (suc k) (suc zero) w t done room e all enough = absurd (omega arith)
  Going-all (suc k) (suc (suc fuel)) w t done room e all enough =
      rw
        (ltb-true t.bytes_written s.transfersize done (done + suc k * block s) e all
          (omega (arith, times_suc k (block s))))
        (elim (dec_lt (length content) (offset w + block s)) [
          | no left ↦ round k (Going-all k) (suc fuel) w t done (omega arith) e all (omega arith)
          | yes past ↦ restarted k (Going-all k) fuel w t done past room e all (omega arith)
        ])

  never_ends :
      (fuel : ℕ) (w : W) (t : Totals)
      → 1 ≤ pos_part s.transfersize
      → neg_part s.transfersize ≡ 0
      → length content < block s
      → t.bytes_written ≡ pos 0
      → transfer files fuel s w t ≡ none
  unfolding transfer
  never_ends zero w t some_size sign short e = refl
  never_ends (suc fuel) w t some_size sign short e =
      let r =
        block-Reset files content offset written regular s natural positive w t (omega arith) in
      transfer_step files content offset written regular s natural positive fuel w r.state t
        r.totals r.runs
      ∙ rw
          (ltb-true r.totals.bytes_written s.transfersize 0 (pos_part s.transfersize)
            (r.counted ∙ e) (pos_of s.transfersize sign) some_size)
          (never_ends fuel r.state r.totals some_size sign short (r.counted ∙ e))

module _ {W : Type 0} (files : Files W) (content : List ℕ) (offset : W → ℕ) (written : W → List ℕ)
    (regular : Regular files content offset written) (s : Settings) (accepted : Accepted s) where
  -- On an input of at least one block, with settings that the program accepts, the loop ends; two
  -- rounds for each block are enough fuel. It has then written exactly `transfersize` bytes: whole
  -- blocks of the input in turn, from its start again where no whole block is left.
  pub transfer_copies :
      (fuel : ℕ) (w : W)
      → block s ≤ length content
      → 2 * (pos_part s.transfersize / block s) ≤ fuel
      → Ends written
          (transfer files fuel s w no_totals)
          (pos_part s.transfersize)
          (written w ++ cycled content (block s) (pos_part s.transfersize / block s) (offset w))
  transfer_copies fuel w room enough =
      Ends-as files content offset written regular s natural accepted.some_block
        (sym (
          rw
            (ltb-true (pos 0) s.transfersize 0 (pos_part s.transfersize) refl sign
              (omega (arith, accepted.one_block, accepted.some_block)))
            refl))
        (sym parts) refl
        (Going-all files content offset written regular s natural accepted.some_block
          (pos_part s.transfersize / block s) fuel w no_totals 0 room refl (sign ∙ ap pos parts)
          enough)
    where
      natural : neg_part s.blocksize ≡ 0
      natural = omega (arith, accepted.natural)

      sign : s.transfersize ≡ pos (pos_part s.transfersize)
      sign = pos_of s.transfersize (omega (arith, accepted.natural))

      parts : pos_part s.transfersize ≡ 0 + pos_part s.transfersize / block s * block s
      parts = omega (arith, div-add-mod' (pos_part s.transfersize) (block s), accepted.whole)

  -- On an input that is shorter than a block the loop never ends: with settings that the program
  -- accepts no fuel is enough.
  pub transfer_never_ends :
      (fuel : ℕ) (w : W) → length content < block s → transfer files fuel s w no_totals ≡ none
  transfer_never_ends fuel w short =
      never_ends files content offset written regular s (omega (arith, accepted.natural))
        accepted.some_block fuel w no_totals
        (omega (arith, accepted.one_block, accepted.some_block)) (omega (arith, accepted.natural))
        short refl
