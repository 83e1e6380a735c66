-- ===== src/Lookup/Output.antt =====
-- The locks of the output file in lab3/multi-lookup.c: helpers, `checkFunction`, read it, and
-- resolvers, `doLookup`, append to it. A mutex is held or not: that of the file is unlocked by the last
-- reader, which need not be the one that has locked it.
use model_lib.Prelude.{ℕ, ◌<◌, ◌≡◌, ◌≢◌, Bool, true, false}
use model_lib.Prelude.Int.{ℤ, pos, ◌+ℤ◌, ◌-ℤ◌}
use model_lib.Lookup.Family.{put}

-- Where a helper stands.
pub data ReaderPc : Type 0 where
  outside : ReaderPc  -- before `pthread_mutex_lock(&readBlock)`
  blocked : ReaderPc  -- before the first `pthread_mutex_lock(&rlock)`
  testing : ReaderPc  -- at `if (readCount == 0)`, before the file is read
  entering : ReaderPc  -- at `readCount++`
  entered : ReaderPc  -- at the first `pthread_mutex_unlock(&rlock)`
  admitted : ReaderPc  -- at `pthread_mutex_unlock(&readBlock)`
  reading : ReaderPc  -- between there and the second `pthread_mutex_lock(&rlock)`
  leaving : ReaderPc  -- at `readCount--`
  checking : ReaderPc  -- at `if (readCount == 0)`, behind it
  unlocking : ReaderPc  -- at `pthread_mutex_unlock(&flock)`
  ending : ReaderPc  -- at the second `pthread_mutex_unlock(&rlock)`

-- Where a resolver stands.
pub data WriterPc : Type 0 where
  away : WriterPc  -- before `pthread_mutex_lock(&readBlock)`
  waiting : WriterPc  -- before `pthread_mutex_lock(&flock)`
  writing : WriterPc  -- between there and `pthread_mutex_unlock(&flock)`
  written : WriterPc  -- at `pthread_mutex_unlock(&readBlock)`

pub record FileLocks : Type 0 where
  pub read_count : ℤ
  pub rlock : Bool
  pub read_block : Bool
  pub flock : Bool
  pub readers : ℕ → ReaderPc
  pub writers : ℕ → WriterPc

abbrev pub unlocked : FileLocks
unlocked = record {
  read_count = pos 0;
  rlock = false;
  read_block = false;
  flock = false;
  readers = λ i. outside;
  writers = λ j. away;
}

-- A step of helper `i`, from one place to another: what becomes of the rest.
pub data Reads (s : FileLocks) : ReaderPc → ReaderPc → FileLocks → Type 0 where
  block : s.read_block ≡ false → Reads s outside blocked (record s { read_block = true })
  lock : s.rlock ≡ false → Reads s blocked testing (record s { rlock = true })
  first :
      s.read_count ≡ pos 0 → s.flock ≡ false → Reads s testing entering (record s { flock = true })
  further : s.read_count ≢ pos 0 → Reads s testing entering s
  enter : Reads s entering entered (record s { read_count = s.read_count +ℤ pos 1 })
  unlock : Reads s entered admitted (record s { rlock = false })
  unblock : Reads s admitted reading (record s { read_block = false })
  lock_again : s.rlock ≡ false → Reads s reading leaving (record s { rlock = true })
  leave : Reads s leaving checking (record s { read_count = s.read_count -ℤ pos 1 })
  last : s.read_count ≡ pos 0 → Reads s checking unlocking s
  others_left : s.read_count ≢ pos 0 → Reads s checking ending s
  unlock_file : Reads s unlocking ending (record s { flock = false })
  unlock_again : Reads s ending outside (record s { rlock = false })

pub data Writes (s : FileLocks) : WriterPc → WriterPc → FileLocks → Type 0 where
  block : s.read_block ≡ false → Writes s away waiting (record s { read_block = true })
  lock : s.flock ≡ false → Writes s waiting writing (record s { flock = true })
  unlock : Writes s writing written (record s { flock = false })
  unblock : Writes s written away (record s { read_block = false })

-- The states that `n` helpers and `m` resolvers come to, in any order of their steps.
pub data Reach (n m : ℕ) : FileLocks → Type 0 where
  begin : Reach n m unlocked
  read_step :
      {s t : FileLocks} {p q : ReaderPc} (i : ℕ)
      → Reach n m s
      → i < n
      → s.readers i ≡ p
      → Reads s p q t
      → Reach n m (record t { readers = put i q s.readers })
  write_step :
      {s t : FileLocks} {p q : WriterPc} (j : ℕ)
      → Reach n m s
      → j < m
      → s.writers j ≡ p
      → Writes s p q t
      → Reach n m (record t { writers = put j q s.writers })
