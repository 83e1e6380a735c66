-- ===== src/Transfer/Cycle.antt =====
-- The loop of lab4/rw.c on regular files.
use model_lib.Prelude.{
  ℕ, zero, suc, ◌+◌, ◌-◌, ◌<◌, ◌≤◌, ◌≡◌, refl, ◌∙◌, ap, ap₂, true, false, Option, some, List, [],
  ◌++◌, arith, length, length-take, length-drop, take, drop, min, leb, if◌then◌else◌,
}
use model_lib.Prelude.Int.{ℤ, pos, pos_part, neg_part, ◌+ℤ◌, ltb_ℤ, eq_ℤ}
use model_lib.Transfer.{Settings, Files, Totals, Checked, ok, transfer_block, transfer}

-- The input is a regular file with the bytes `content`, the output takes every write whole: what the
-- calls document for them. `offset` is the place of the input, `written` the text of the output.
pub record Regular {W : Type 0} (files : Files W) (content : List ℕ) (offset : W → ℕ)
    (written : W → List ℕ) : Type 0 where
  pub read_count : (w : W) (n : ℕ) → (files.read w n).0 ≡ pos (min n (length content - offset w))
  pub read_bytes : (w : W) (n : ℕ) → (files.read w n).1 ≡ take n (drop (offset w) content)
  pub read_moves :
      (w : W) (n : ℕ) → offset (files.read w n).2 ≡ offset w + min n (length content - offset w)
  pub read_keeps : (w : W) (n : ℕ) → written (files.read w n).2 ≡ written w
  pub write_count : (w : W) (b : List ℕ) → (files.write w b).0 ≡ pos (length b)
  pub write_text : (w : W) (b : List ℕ) → written (files.write w b).1 ≡ written w ++ b
  pub write_keeps : (w : W) (b : List ℕ) → offset (files.write w b).1 ≡ offset w
  pub rewind_start : (w : W) → (files.rewind w).0 ≡ pos 0
  pub rewind_moves : (w : W) → offset (files.rewind w).1 ≡ 0
  pub rewind_keeps : (w : W) → written (files.rewind w).1 ≡ written w

-- `k` blocks of `b` bytes from a place of the content, from its start again where no whole block is
-- left.
unfoldable pub cycled : List ℕ → ℕ → ℕ → ℕ → List ℕ
cycled content b zero at = []
cycled content b (suc k) at =
    let here = take b (drop at content) ++ cycled content b k (at + b) in
    let again = take b content ++ cycled content b k b in
    if leb (at + b) (length content) then here else again

leb-true : (n k : ℕ) → n ≤ k → leb n k ≡ true
leb-true n k h = ground arith

leb-false : (n k : ℕ) → k < n → leb n k ≡ false
leb-false n k h = ground arith

count_natural : (z : ℤ) (n : ℕ) → z ≡ pos n → ltb_ℤ z (pos 0) ≡ false
count_natural z n e = rw e (ground arith)

count_whole : (z b : ℤ) (n : ℕ) → z ≡ pos n → neg_part b ≡ 0 → pos_part b ≡ n → eq_ℤ z b ≡ true
count_whole z b n e natural same = rw e (ground arith)

count_short : (z b : ℤ) (n : ℕ) → z ≡ pos n → n < pos_part b → eq_ℤ z b ≡ false
count_short z b n e less = rw e (ground arith)

-- The bytes of a block.
abbrev pub block : Settings → ℕ
block s = pos_part s.blocksize

-- A run that ends well.
pub record Ends {W : Type 0} (written : W → List ℕ) (run : Option (Checked (W × Totals))) (size : ℕ)
    (text : List ℕ) : Type 0 where
  pub state : W
  pub totals : Totals
  pub runs : run ≡ some (ok (state, totals))
  pub counted : totals.bytes_written ≡ pos size
  pub left : written state ≡ text

module _ {W : Type 0} (files : Files W) (content : List ℕ) (offset : W → ℕ) (written : W → List ℕ)
    (regular : Regular files content offset written) (s : Settings)
    (natural : neg_part s.blocksize ≡ 0) (positive : 1 ≤ block s) where
  -- A round that copies a whole block.
  pub record Copied (w : W) (t : Totals) : Type 0 where
    pub state : W
    pub totals : Totals
    pub runs : transfer_block files s w t ≡ ok (state, totals)
    pub moved : offset state ≡ offset w + block s
    pub text : written state ≡ written w ++ take (block s) (drop (offset w) content)
    pub counted : totals.bytes_written ≡ t.bytes_written +ℤ pos (block s)

  -- A round that starts the input again.
  pub record Reset (w : W) (t : Totals) : Type 0 where
    pub state : W
    pub totals : Totals
    pub runs : transfer_block files s w t ≡ ok (state, totals)
    pub moved : offset state ≡ 0
    pub text : written state ≡ written w
    pub counted : totals.bytes_written ≡ t.bytes_written

  pub block-Copied : (w : W) (t : Totals) → offset w + block s ≤ length content → Copied w t
  unfolding transfer_block
  block-Copied w t room = record {
    state = (files.write r.2 r.1).1;
    totals = record t {
      bytes_read = t.bytes_read +ℤ r.0;
      reads = t.reads + 1;
      bytes_written = t.bytes_written +ℤ (files.write r.2 r.1).0;
      writes = t.writes + 1;
    };
    runs =
        rw
          (
            transfer_block,
            count_natural r.0 _ (regular.read_count w (block s)),
            count_whole r.0 s.blocksize _ (regular.read_count w (block s)) natural (omega arith),
            count_natural (files.write r.2 r.1).0 _ (regular.write_count r.2 r.1),
          )
          refl;
    moved = regular.write_keeps r.2 r.1 ∙ regular.read_moves w (block s) ∙ omega arith;
    text =
        regular.write_text r.2 r.1
        ∙ ap₂ ◌++◌ (regular.read_keeps w (block s)) (regular.read_bytes w (block s));
    counted =
        ap (λ z. t.bytes_written +ℤ z)
          (regular.write_count r.2 r.1
            ∙ ap pos (
                ap length (regular.read_bytes w (block s))
                ∙ omega (
                  arith,
                  length-take (block s) (drop (offset w) content),
                  length-drop (offset w) content,
                )));
  }
    where
      r : ℤ × List ℕ × W
      r = files.read w (block s)

  pub block-Reset : (w : W) (t : Totals) → length content < offset w + block s → Reset w t
  unfolding transfer_block
  block-Reset w t past = record {
    state = (files.rewind r.2).1;
    totals = record t {
      bytes_read = t.bytes_read +ℤ r.0;
      reads = t.reads + 1;
      resets = t.resets + 1;
    };
    runs =
        rw
          (
            transfer_block,
            count_natural r.0 _ (regular.read_count w (block s)),
            count_short r.0 s.blocksize (min (block s) (length content - offset w))
                (regular.read_count w (block s)) (omega arith),
            count_whole (files.rewind r.2).0 (pos 0) 0 (regular.rewind_start r.2) refl refl,
          )
          refl;
    moved = regular.rewind_moves r.2;
    text = regular.rewind_keeps r.2 ∙ regular.read_keeps w (block s);
    counted = refl;
  }
    where
      r : ℤ × List ℕ × W
      r = files.read w (block s)

  -- What follows a round: the test of the loop.
  abbrev pub continue : ℕ → W → Totals → Option (Checked (W × Totals))
  continue fuel w t =
      if ltb_ℤ t.bytes_written s.transfersize then transfer files fuel s w t else some (ok (w, t))

  pub transfer_step :
      (fuel : ℕ) (w w' : W) (t t' : Totals)
      → transfer_block files s w t ≡ ok (w', t')
      → transfer files (suc fuel) s w t ≡ continue fuel w' t'
  unfolding transfer
  transfer_step fuel w w' t t' e = rw (transfer, e) refl

  pub cycled_here :
      (k at : ℕ)
      → at + block s ≤ length content
      → cycled content (block s) (suc k) at
        ≡ take (block s) (drop at content) ++ cycled content (block s) k (at + block s)
  unfolding cycled
  cycled_here k at room = rw (cycled, leb-true _ _ room) refl

  pub cycled_again :
      (k at : ℕ)
      → length content < at + block s
      → cycled content (block s) (suc k) at
        ≡ take (block s) content ++ cycled content (block s) k (block s)
  unfolding cycled
  cycled_again k at past = rw (cycled, leb-false _ _ past) refl
