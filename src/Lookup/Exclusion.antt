-- ===== src/Lookup/Exclusion.antt =====
-- The readers and writers of the output file of lab3/multi-lookup.c, by its locks.
use model_lib.Prelude.{ℕ, ◌+◌, ◌≤◌, ◌<◌, ◌≡◌, ◌≢◌, refl, ap, Bool, true, false, min, arith}
use model_lib.Prelude.Int.{pos, pos_part, neg_part, +ℤ_parts, -ℤ_parts}
use model_lib.Lookup.Family.{put, sum_below, sum_below-put, sum_below-all_zero}
use model_lib.Lookup.Output.{
  ReaderPc, outside, blocked, testing, entering, entered, admitted, reading, leaving, checking,
  unlocking, ending, WriterPc, away, waiting, writing, written, FileLocks, unlocked, Reads, first,
  further, enter, lock_again, leave, last, others_left, unlock_file, unlock_again, Writes, Reach,
  begin, read_step, write_step,
}
use model_lib.Lookup.Output

-- 1 at the places that a sum counts.
abbrev at_entering : ReaderPc → ℕ
at_entering entering = 1
at_entering _ = 0

abbrev at_checking : ReaderPc → ℕ
at_checking checking = 1
at_checking _ = 0

abbrev at_unlocking : ReaderPc → ℕ
at_unlocking unlocking = 1
at_unlocking _ = 0

-- The other places at which a helper holds `rlock`.
abbrev locked : ReaderPc → ℕ
locked testing = 1
locked entered = 1
locked leaving = 1
locked ending = 1
locked _ = 0

abbrev blocks : ReaderPc → ℕ
blocks blocked = 1
blocks testing = 1
blocks entering = 1
blocks entered = 1
blocks admitted = 1
blocks _ = 0

-- The helpers that `readCount` counts.
abbrev pub counted : ReaderPc → ℕ
counted entered = 1
counted admitted = 1
counted reading = 1
counted leaving = 1
counted _ = 0

abbrev writer_blocks : WriterPc → ℕ
writer_blocks away = 0
writer_blocks _ = 1

abbrev pub writes : WriterPc → ℕ
writes writing = 1
writes _ = 0

abbrev held : Bool → ℕ
held true = 1
held false = 0

module _ (n m : ℕ) where
  abbrev over : (ReaderPc → ℕ) → (ℕ → ReaderPc) → ℕ
  over w f = sum_below n (λ i. w (f i))

  abbrev over_writers : (WriterPc → ℕ) → (ℕ → WriterPc) → ℕ
  over_writers w f = sum_below m (λ j. w (f j))

  record Inv (s : FileLocks) : Type 0 where
    rlock :
        over at_entering s.readers
          + over at_checking s.readers
          + over at_unlocking s.readers
          + over locked s.readers
        ≡ held s.rlock
    block : over blocks s.readers + over_writers writer_blocks s.writers ≡ held s.read_block
    count : over counted s.readers ≡ pos_part s.read_count
    natural : neg_part s.read_count ≡ 0
    -- The file is locked by a writer, or for the readers.
    file :
        over_writers writes s.writers
          + min 1 (
              pos_part s.read_count
              + over at_entering s.readers
              + over at_checking s.readers
              + over at_unlocking s.readers)
        ≡ held s.flock
    empty : min 1 (pos_part s.read_count) + over at_unlocking s.readers ≤ 1

  -- What a step of a helper does to the sums.
  record Delta (f : ℕ → ReaderPc) (i : ℕ) (p q : ReaderPc) : Type 0 where
    in_entering : over at_entering (put i q f) + at_entering p ≡ over at_entering f + at_entering q
    in_checking : over at_checking (put i q f) + at_checking p ≡ over at_checking f + at_checking q
    in_unlocking :
        over at_unlocking (put i q f) + at_unlocking p ≡ over at_unlocking f + at_unlocking q
    in_locked : over locked (put i q f) + locked p ≡ over locked f + locked q
    in_blocks : over blocks (put i q f) + blocks p ≡ over blocks f + blocks q
    in_counted : over counted (put i q f) + counted p ≡ over counted f + counted q

  delta_one :
      (w : ReaderPc → ℕ) (f : ℕ → ReaderPc) (i : ℕ) (p q : ReaderPc)
      → i < n
      → f i ≡ p
      → over w (put i q f) + w p ≡ over w f + w q
  delta_one w f i p q lt e = omega (arith, sum_below-put w n i q f lt, ap w e)

  delta : (f : ℕ → ReaderPc) (i : ℕ) (p q : ReaderPc) → i < n → f i ≡ p → Delta f i p q
  delta f i p q lt e = record {
    in_entering = delta_one at_entering f i p q lt e;
    in_checking = delta_one at_checking f i p q lt e;
    in_unlocking = delta_one at_unlocking f i p q lt e;
    in_locked = delta_one locked f i p q lt e;
    in_blocks = delta_one blocks f i p q lt e;
    in_counted = delta_one counted f i p q lt e;
  }

  reads-Inv :
      (s t : FileLocks) (i : ℕ) (p q : ReaderPc)
      → Inv s
      → Delta s.readers i p q
      → Reads s p q t
      → Inv (record t { readers = put i q s.readers })
  reads-Inv s t i p q v d (Output.block free) = ground arith
  reads-Inv s t i p q v d (Output.lock free) = ground arith
  reads-Inv s t i p q v d (first none free) = ground arith
  reads-Inv s t i p q v d (further some) = ground arith
  reads-Inv s t i p q v d enter = ground (arith, +ℤ_parts s.read_count (pos 1))
  reads-Inv s t i p q v d Output.unlock = ground arith
  reads-Inv s t i p q v d Output.unblock = ground arith
  reads-Inv s t i p q v d (lock_again free) = ground arith
  reads-Inv s t i p q v d leave = ground (arith, -ℤ_parts s.read_count (pos 1))
  reads-Inv s t i p q v d (last none) = ground arith
  reads-Inv s t i p q v d (others_left some) = ground arith
  reads-Inv s t i p q v d unlock_file = ground arith
  reads-Inv s t i p q v d unlock_again = ground arith

  record WriterDelta (f : ℕ → WriterPc) (j : ℕ) (p q : WriterPc) : Type 0 where
    in_blocks :
        over_writers writer_blocks (put j q f) + writer_blocks p
        ≡ over_writers writer_blocks f + writer_blocks q
    in_writes : over_writers writes (put j q f) + writes p ≡ over_writers writes f + writes q

  writer_delta : (f : ℕ → WriterPc) (j : ℕ) (p q : WriterPc) → j < m → f j ≡ p → WriterDelta f j p q
  writer_delta f j p q lt e = record {
    in_blocks = omega (arith, sum_below-put writer_blocks m j q f lt, ap writer_blocks e);
    in_writes = omega (arith, sum_below-put writes m j q f lt, ap writes e);
  }

  writes-Inv :
      (s t : FileLocks) (j : ℕ) (p q : WriterPc)
      → Inv s
      → WriterDelta s.writers j p q
      → Writes s p q t
      → Inv (record t { writers = put j q s.writers })
  writes-Inv s t j p q v d (Output.block free) = ground arith
  writes-Inv s t j p q v d (Output.lock free) = ground arith
  writes-Inv s t j p q v d Output.unlock = ground arith
  writes-Inv s t j p q v d Output.unblock = ground arith

  Reach-Inv : {s : FileLocks} → Reach n m s → Inv s
  Reach-Inv begin =
      let none_of = λ (w : ReaderPc → ℕ) (e : w outside ≡ 0).
        sum_below-all_zero n (λ i. w outside) (λ i lt. e) in
      let no_writer =
        λ (w : WriterPc → ℕ) (e : w away ≡ 0). sum_below-all_zero m (λ j. w away) (λ j lt. e) in
      ground (
        arith,
        none_of at_entering refl,
        none_of at_checking refl,
        none_of at_unlocking refl,
        none_of locked refl,
        none_of blocks refl,
        none_of counted refl,
        no_writer writer_blocks refl,
        no_writer writes refl,
      )
  Reach-Inv (read_step {s} {t} {p} {q} i r lt e st) =
      reads-Inv s t i p q (Reach-Inv r) (delta s.readers i p q lt e) st
  Reach-Inv (write_step {s} {t} {p} {q} j r lt e st) =
      writes-Inv s t j p q (Reach-Inv r) (writer_delta s.writers j p q lt e) st

  -- In every state that helpers and resolvers come to by the code's locks, whatever the order of their
  -- steps: `readCount` is the number of the helpers that it counts, from `readCount++` to
  -- `readCount--`; at most one resolver is at the file; and none is while a helper reads it.
  pub file_exclusion :
      {s : FileLocks}
      → Reach n m s
      → (s.read_count ≡ pos (sum_below n (λ i. counted (s.readers i))))
        × (sum_below m (λ j. writes (s.writers j)) ≤ 1)
        × ((i j : ℕ) → i < n → j < m → s.readers i ≡ reading → s.writers j ≢ writing)
  file_exclusion {s} r =
      let v = Reach-Inv r in
      (
        ground arith,
        ground arith,
        λ i j lt lt' e f. absurd (
            ground (
              arith,
              delta_one counted s.readers i reading outside lt e,
              (writer_delta s.writers j writing away lt' f).in_writes,
            )),
      )
