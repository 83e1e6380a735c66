-- ===== src/Driver/Overrun.antt =====
-- modded_simple_char_driver.c: writes that fit, a write that does not, and what follows it.
use model_lib.Prelude.{
  ℕ, ◌+◌, ◌-◌, ◌^◌, ◌≤◌, ◌<◌, ◌≡◌, ◌≢◌, none, some, List, [], ◌∷◌, ◌++◌, arith, length, length-take,
  take, drop, ap, ◌∙◌, sym, take_of_le, length-append,
}
use model_lib.Prelude.Int.{pos, +ℤ-pos, -ℤ-pos_lt}
use model_lib.Prelude.Machine.{to_size, to_int-pos, to_size-pos}
use model_lib.Driver.{
  UserAccess, Copies, Driver, buffer_size, read_size, write_size, copy_out, bytes_read,
}
use model_lib.Driver.Log.{Stores, taken, grown, grown-Stores, write_size_lem}
use model_lib.Driver.Modded.{Files, Modded, read_modded, copy_in_modded, ask, write_modded}

-- The device after a write of `size` bytes of which `k` fit.
abbrev claimed : Driver → List ℕ → ℕ → ℕ → List ℕ → Driver
claimed d bytes size k user = record (grown d bytes k user) { eof = pos (length bytes + size) }

module _ (u : UserAccess) (c : Copies u) where
  copy_in_modded_lem :
      (d : Driver) (bytes user : List ℕ) (size k : ℕ)
      → Stores d bytes
      → length bytes + k ≤ buffer_size
      → k ≤ length user
      → length bytes + size < 2 ^ 31
      → copy_in_modded u d user size (pos k) ≡ some (claimed d bytes size k user)
  unfolding copy_in_modded
  copy_in_modded_lem d bytes user size k s room h small = ground (
    arith,
    s.end,
    s.sized,
    to_size-pos k,
    to_int-pos (length bytes + size),
    +ℤ-pos (length bytes) size,
    c.from_user_all k user h,
  )

  write_modded-room :
      (f : Files) (m : Modded) (bytes user : List ℕ) (size : ℕ)
      → Stores m.device bytes
      → size ≤ length user
      → length bytes ≢ buffer_size
      → length bytes + size < 2 ^ 31
      → write_modded u f m user size
        ≡ some (
          pos size,
          ask f (record m { device = claimed m.device bytes size (taken bytes size) user }),
        )
  unfolding write_modded
  write_modded-room f m bytes user size s h room small = ground (
    arith,
    s.end,
    write_size_lem m.device (length bytes) size s.end s.fits,
    copy_in_modded_lem m.device bytes user size (taken bytes size) s (omega (arith, s.fits))
        (omega arith) small,
  )

device-ask : (f : Files) (m : Modded) → (ask f m).device ≡ m.device
unfolding ask
device-ask f m = ground arith

-- With the end behind the buffer, the room is negative, reads as a huge `size_t`, and limits nothing.
write_size-behind :
    (d : Driver) (e size : ℕ)
    → d.eof ≡ pos e
    → buffer_size < e
    → e < 2 ^ 31
    → size < 2 ^ 31
    → write_size d size ≡ pos size
unfolding write_size to_size
write_size-behind d e size h over small fits =
    rw (h, -ℤ-pos_lt buffer_size e over) (ground (arith, to_int-pos size))

write_modded-behind :
    (u : UserAccess) (f : Files) (m : Modded) (user : List ℕ) (e size : ℕ)
    → m.device.eof ≡ pos e
    → length m.device.device_buffer ≡ buffer_size
    → buffer_size < e
    → e < 2 ^ 31
    → 0 < size
    → size < 2 ^ 31
    → write_modded u f m user size ≡ none
unfolding write_modded copy_in_modded
write_modded-behind u f m user e size h sized over small some_bytes fits =
    ground (arith, write_size-behind m.device e size h over small fits, to_size-pos size)

-- A full device's buffer is what it holds.
full-buffer :
    (d : Driver) (bytes : List ℕ)
    → Stores d bytes
    → length bytes ≡ buffer_size
    → d.device_buffer ≡ bytes
full-buffer d bytes s e =
    sym (take_of_le (length bytes) d.device_buffer (omega (arith, s.sized))) ∙ s.content

-- Behind the end the bytes left are negative, and read as a huge `size_t`.
read_size-behind :
    (d : Driver) (n size offset : ℕ)
    → d.eof ≡ pos n
    → n < offset
    → offset < 2 ^ 63
    → size ≤ buffer_size
    → read_size d size (pos offset) ≡ pos size
unfolding read_size to_size
read_size-behind d n size offset h past far short =
    rw (h, -ℤ-pos_lt n offset past) (ground (arith, to_int-pos size))

module _ (u : UserAccess) (c : Copies u) (f : Files) (m : Modded) (bytes user : List ℕ)
    (size : ℕ) where
  -- A write that fits is kept whole, and its size is returned.
  write_modded_fits :
      Stores m.device bytes
      → size ≤ length user
      → length bytes ≢ buffer_size
      → length bytes + size ≤ buffer_size
      → (m' : Modded) × (write_modded u f m user size ≡ some (pos size, m'))
        × Stores m'.device (bytes ++ take size user)
  write_modded_fits s h room fits = (
    _,
    write_modded-room u c f m bytes user size s h room (omega arith),
    rw (device-ask, whole) (grown-Stores m.device bytes user size s fits h),
  )
    where
      whole : taken bytes size ≡ size
      whole = omega arith

  -- A write of more than there is room for, to a device that is not full, returns the whole size, as
  -- if all had been written, though the buffer took only what fits; the end then lies behind the
  -- buffer, and every later write of at least one byte goes outside the buffer.
  pub write_modded_overruns :
      Stores m.device bytes
      → size ≤ length user
      → length bytes ≢ buffer_size
      → buffer_size < length bytes + size
      → length bytes + size < 2 ^ 31
      → (m' : Modded) × (write_modded u f m user size ≡ some (pos size, m'))
        × (m'.device.eof ≡ pos (length bytes + size))
        × (m'.device.device_buffer ≡ bytes ++ take (buffer_size - length bytes) user)
        × ((later : List ℕ) (n : ℕ) → 0 < n → n < 2 ^ 31 → write_modded u f m' later n ≡ none)
  write_modded_overruns s h room over small = (
    ask f after,
    write_modded-room u c f m bytes user size s h room small,
    ap (λ x. x.eof) (device-ask f after),
    ap (λ x. x.device_buffer) (device-ask f after) ∙ filled,
    λ later n some_bytes fits.
        write_modded-behind u f (ask f after) later (length bytes + size) n
          (ap (λ x. x.eof) (device-ask f after))
          (ap (λ x. length x.device_buffer) (device-ask f after) ∙ now.sized) over small some_bytes
          fits,
  )
    where
      after : Modded
      after = record m { device = claimed m.device bytes size (taken bytes size) user }

      left : taken bytes size ≡ buffer_size - length bytes
      left = omega arith

      now :
          Stores
            (grown m.device bytes (taken bytes size) user)
            (bytes ++ take (taken bytes size) user)
      now =
          grown-Stores m.device bytes user (taken bytes size) s (omega (arith, s.fits))
            (omega arith)

      filled : after.device.device_buffer ≡ bytes ++ take (buffer_size - length bytes) user
      filled =
          full-buffer _ _ now (
            omega (
              arith,
              s.fits,
              length-append bytes (take (taken bytes size) user),
              length-take (taken bytes size) user,
            ))
          ∙ ap (λ k. bytes ++ take k user) left

module _ (u : UserAccess) (c : Copies u) where
  -- A read of some bytes at an offset behind the end of the device still returns the size that was
  -- asked for, where simple_char_driver.c returns 0.
  read_modded_past_end :
      (d : Driver) (bytes user : List ℕ) (size offset : ℕ)
      → Stores d bytes
      → size ≤ length user
      → size ≤ buffer_size
      → length bytes < offset
      → offset < 2 ^ 63
      → (d' : Driver) × (read_modded u d user size (pos offset)
          ≡ some (pos size, take size d.device_buffer ++ drop size user, pos (offset + size), d'))
  unfolding read_modded copy_out
  read_modded_past_end d bytes user size offset s h short past far = (
    record d { bread = pos size; log = d.log ++ (bytes_read (pos size) ∷ []) },
    ground (
      arith,
      s.end,
      s.sized,
      read_size-behind d (length bytes) size offset s.end past far short,
      to_size-pos size,
      +ℤ-pos offset size,
      c.to_user_all size d.device_buffer user,
    ),
  )
