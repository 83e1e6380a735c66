-- ===== src/Driver/Run.antt =====
-- Sequences of requests to simple_char_driver.c.
use model_lib.Prelude.{
  ℕ, ◌≤◌, ◌≡◌, refl, sym, ◌∙◌, ap, some, List, [], ◌∷◌, ◌++◌, length, take, arith, append-nil,
  append_assoc, take_of_le, take-append_self, take-take-append, append-take-room, ℕ_discrete,
  dec_lt,
}
use mathlib.Core.Path.{subst}
use model_lib.Driver.{
  UserAccess, Copies, Driver, buffer_size, open_device, close_device, Request, open_request,
  close_request, read_request, write_request, handle, handle_all,
}
use model_lib.Driver.Log.{Stores, taken, write_appends}
use model_lib.Driver.Read.{read_lem}

-- The user's buffer of every request is as long as the request says.
abbrev pub IsBacked : Request → Type 0
IsBacked (read_request buffer size offset) = size ≤ length buffer
IsBacked (write_request buffer size) = size ≤ length buffer
IsBacked _ = Unit

abbrev pub AllBacked : List Request → Type 0
AllBacked [] = Unit
AllBacked (r ∷ rs) = IsBacked r × AllBacked rs

-- The bytes that the requests offer, in order.
abbrev pub offered : Request → List ℕ
offered (write_request buffer size) = take size buffer
offered _ = []

abbrev pub all_offered : List Request → List ℕ
all_offered [] = []
all_offered (r ∷ rs) = offered r ++ all_offered rs

-- What a device that holds `bytes` holds once more is offered.
pub kept : List ℕ → List ℕ → List ℕ
kept bytes more = take buffer_size (bytes ++ more)

kept-nil : (bytes : List ℕ) → length bytes ≤ buffer_size → kept bytes [] ≡ bytes
unfolding kept
kept-nil bytes h = rw append-nil (take_of_le buffer_size bytes h)

kept-kept : (bytes xs ys : List ℕ) → kept (kept bytes xs) ys ≡ kept bytes (xs ++ ys)
unfolding kept
kept-kept bytes xs ys =
    take-take-append buffer_size (bytes ++ xs) ys ∙ ap (take buffer_size) (append_assoc bytes xs ys)

kept-taken :
    (bytes user : List ℕ) (size : ℕ)
    → length bytes ≤ buffer_size
    → bytes ++ take (taken bytes size) user ≡ kept bytes (take size user)
unfolding kept
kept-taken bytes user size h = append-take-room buffer_size size bytes user h

-- A full device keeps nothing more.
kept-full : (bytes more : List ℕ) → length bytes ≡ buffer_size → kept bytes more ≡ bytes
unfolding kept
kept-full bytes more e = ap (λ n. take n (bytes ++ more)) (sym e) ∙ take-append_self bytes more

pub Stores-open : (d : Driver) (bytes : List ℕ) → Stores d bytes → Stores (open_device d).1 bytes
unfolding open_device
Stores-open d bytes s = record { sized = s.sized; fits = s.fits; end = s.end; content = s.content }

pub Stores-close : (d : Driver) (bytes : List ℕ) → Stores d bytes → Stores (close_device d).1 bytes
unfolding close_device
Stores-close d bytes s = record { sized = s.sized; fits = s.fits; end = s.end; content = s.content }

unchanged : (d : Driver) (bytes : List ℕ) → Stores d bytes → Stores d (kept bytes [])
unchanged d bytes s = subst (Stores d) (sym (kept-nil bytes s.fits)) s

module _ (u : UserAccess) (c : Copies u) where
  handle-Stores :
      (d : Driver) (bytes : List ℕ) (r : Request)
      → Stores d bytes
      → IsBacked r
      → (d' : Driver) × (handle u d r ≡ some d') × Stores d' (kept bytes (offered r))
  unfolding handle
  handle-Stores d bytes open_request s h =
      ((open_device d).1, refl, unchanged _ bytes (Stores-open d bytes s))
  handle-Stores d bytes close_request s h =
      ((close_device d).1, refl, unchanged _ bytes (Stores-close d bytes s))
  handle-Stores d bytes (read_request buffer size offset) s h =
      elim (dec_lt (length bytes) offset) [
        | yes beyond ↦ (
          d,
          rw ((read_lem u c d bytes buffer size offset s h).1 beyond, handle),
          unchanged d bytes s,
        )
        | no within ↦
            let (d', done, s') = (read_lem u c d bytes buffer size offset s h).0 (omega arith) in
            (d', rw (done, handle), unchanged d' bytes s')
      ]
  handle-Stores d bytes (write_request buffer size) s h =
      elim (ℕ_discrete (length bytes) buffer_size) [
        | yes full ↦ (
          d,
          rw ((write_appends u c d bytes buffer size s h).1 full, handle),
          subst (Stores d) (sym (kept-full bytes (take size buffer) full)) s,
        )
        | no room ↦
            let (d', done, s') = (write_appends u c d bytes buffer size s h).0 room in
            (d', rw (done, handle), subst (Stores d') (kept-taken bytes buffer size s.fits) s')
      ]

  -- However a device is opened, closed, read and written, with user buffers as long as the requests
  -- say, no request touches memory outside the device's buffer, and the device holds the first 1024
  -- of the bytes that it held before and those offered by the writes, in order.
  pub handle_all_keeps :
      (rs : List Request) (d : Driver) (bytes : List ℕ)
      → Stores d bytes
      → AllBacked rs
      → (d' : Driver) × (handle_all u d rs ≡ some d') × Stores d' (kept bytes (all_offered rs))
  unfolding handle_all kept
  handle_all_keeps [] d bytes s h = (d, refl, unchanged d bytes s)
  handle_all_keeps (r ∷ rs) d bytes s h =
      let (d1, first, s1) = handle-Stores d bytes r s h.0 in
      let (d2, rest, s2) = handle_all_keeps rs d1 (kept bytes (offered r)) s1 h.1 in
      (
        d2,
        rw (first, handle_all) rest,
        subst (Stores d2) (kept-kept bytes (offered r) (all_offered rs)) s2,
      )
