-- ===== src/Driver/Log.antt =====
-- simple_char_driver.c as an append-only store of at most BUFFER_SIZE bytes: what a write keeps and
-- what a read gives.
use model_lib.Prelude.{
  ℕ, ◌+◌, ◌-◌, ◌≤◌, ◌≡◌, ◌≢◌, ◌∙◌, ap, some, List, [], ◌∷◌, ◌++◌, length, take, arith, min,
  length-store, take-store, length-append, length-take,
}
use model_lib.Prelude.Int.{pos, negsuc, +ℤ-pos, -ℤ-pos}
use model_lib.Prelude.Machine.{to_int-pos, to_size-pos}
use model_lib.Driver.{
  UserAccess, Copies, Driver, buffer_size, write, write_size, copy_in, store_at, bytes_written,
}

-- The device holds `bytes`: they stand at the start of the buffer, and `eof` is their number.
pub record Stores (d : Driver) (bytes : List ℕ) : Type 0 where
  pub sized : length d.device_buffer ≡ buffer_size
  pub fits : length bytes ≤ buffer_size
  pub end : d.eof ≡ pos (length bytes)
  pub content : take (length bytes) d.device_buffer ≡ bytes

-- How many of `size` bytes a write takes.
abbrev pub taken : List ℕ → ℕ → ℕ
taken bytes size = min size (buffer_size - length bytes)

-- The device after a write that takes `k` bytes.
abbrev pub grown : Driver → List ℕ → ℕ → List ℕ → Driver
grown d bytes k user = record d {
  device_buffer = store_at d.device_buffer (length bytes) (take k user);
  eof = pos (length bytes + k);
  bwrite = pos k;
  log = d.log ++ (bytes_written (pos k) ∷ []);
}

pub write_size_lem :
    (d : Driver) (n size : ℕ)
    → d.eof ≡ pos n
    → n ≤ buffer_size
    → write_size d size ≡ pos (min size (buffer_size - n))
unfolding write_size
write_size_lem d n size e h =
    rw (e, -ℤ-pos buffer_size n h, to_size-pos (buffer_size - n) (omega arith))
      (ground (arith, to_int-pos size, to_int-pos (buffer_size - n)))

module _ (u : UserAccess) (c : Copies u) where
  copy_in_lem :
      (d : Driver) (bytes user : List ℕ) (k : ℕ)
      → Stores d bytes
      → length bytes + k ≤ buffer_size
      → k ≤ length user
      → copy_in u d user (pos k) ≡ some (pos k, grown d bytes k user)
  unfolding copy_in
  copy_in_lem d bytes user k s room h = ground (
    arith,
    s.end,
    s.sized,
    to_size-pos k,
    to_int-pos (length bytes + k),
    +ℤ-pos (length bytes) k,
    c.from_user_all k user h,
  )

  write-room :
      (d : Driver) (bytes user : List ℕ) (size : ℕ)
      → Stores d bytes
      → size ≤ length user
      → length bytes ≢ buffer_size
      → let k = taken bytes size in write u d user size ≡ some (pos k, grown d bytes k user)
  unfolding write
  write-room d bytes user size s h room = ground (
    arith,
    s.end,
    write_size_lem d (length bytes) size s.end s.fits,
    copy_in_lem d bytes user (taken bytes size) s (omega (arith, s.fits)) (omega arith),
  )

  write-full :
      (d : Driver) (bytes user : List ℕ) (size : ℕ)
      → Stores d bytes
      → length bytes ≡ buffer_size
      → write u d user size ≡ some (negsuc 0, d)
  unfolding write
  write-full d bytes user size s full = ground (arith, s.end)

pub grown-Stores :
    (d : Driver) (bytes user : List ℕ) (k : ℕ)
    → Stores d bytes
    → length bytes + k ≤ buffer_size
    → k ≤ length user
    → Stores (grown d bytes k user) (bytes ++ take k user)
grown-Stores d bytes user k s room h = record {
  sized =
      length-store (length bytes) d.device_buffer (take k user) (omega (arith, count, s.sized))
      ∙ s.sized;
  fits = omega (arith, total);
  end = ap pos (omega (arith, total));
  content = take-store d.device_buffer bytes (take k user) _ s.content;
}
  where
    count : length (take k user) ≡ k
    count = omega (arith, length-take k user)

    total : length (bytes ++ take k user) ≡ length bytes + k
    total = omega (arith, length-append bytes (take k user), count)

module _ (u : UserAccess) (c : Copies u) where
  -- A write to a device that holds `bytes` takes as many of the user's bytes as there is room for,
  -- returns their number and appends them; a full device returns -1 and is unchanged.
  pub write_appends :
      (d : Driver) (bytes user : List ℕ) (size : ℕ)
      → Stores d bytes
      → size ≤ length user
      → (length bytes ≢ buffer_size
          → (d' : Driver) × (write u d user size ≡ some (pos (taken bytes size), d'))
            × Stores d' (bytes ++ take (taken bytes size) user))
        × (length bytes ≡ buffer_size → write u d user size ≡ some (negsuc 0, d))
  write_appends d bytes user size s h = (
    λ room. (
      grown d bytes (taken bytes size) user,
      write-room u c d bytes user size s h room,
      grown-Stores d bytes user (taken bytes size) s (omega (arith, s.fits)) (omega arith),
    ),
    write-full u c d bytes user size s,
  )
