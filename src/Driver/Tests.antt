-- ===== src/Driver/Tests.antt =====
-- Concrete devices: runs of both drivers, and the theorems at inputs that meet their hypotheses.
use model_lib.Prelude.{
  ℕ, ◌+◌, ◌-◌, ◌≤◌, ◌<◌, ◌^◌, ◌≡◌, ◌≢◌, refl, true, none, some, List, [], ◌∷◌, ◌++◌, arith, length,
  take, drop, replicate,
}
use model_lib.Prelude.Int.{pos, negsuc}
use model_lib.Driver.{
  UserAccess, Copies, Driver, read, write, Request, open_request, write_request, read_request,
  handle_all, buffer_size,
}
use model_lib.Driver.Log.{Stores, write_appends, grown, grown-Stores}
use model_lib.Driver.Read.{read_lem}
use model_lib.Driver.Run.{handle_all_keeps, kept}
use model_lib.Driver.Modded.{Files, Modded, write_modded}
use model_lib.Driver.Overrun.{write_modded_overruns}

-- Copies that never fault.
abbrev pub plain : UserAccess
plain = record {
  to_user = λ n kernel user. take n kernel ++ drop n user;
  from_user = λ n user. take n user;
}

pub plain-Copies : Copies plain
plain-Copies = record { to_user_all = λ n kernel user h k. refl; from_user_all = λ n user h. refl }

-- The buffer stays a variable: its 1024 cells are not computed with.
abbrev pub device : List ℕ → Driver
device cells = record {
  device_buffer = cells;
  opencount = pos 0;
  closecount = pos 0;
  eof = pos 0;
  bread = pos 0;
  bwrite = pos 0;
  log = [];
}

pub zeros : List ℕ
zeros = replicate 1024 0

pub length-zeros : length zeros ≡ buffer_size
unfolding zeros
length-zeros = refl

pub fresh-Stores : Stores (device zeros) []
fresh-Stores = record { sized = length-zeros; fits = omega arith; end = refl; content = refl }

abbrev hello : List ℕ
hello = 104 ∷ 101 ∷ 108 ∷ 108 ∷ 111 ∷ 33 ∷ []

abbrev greeted : Driver
greeted = grown (device zeros) [] 6 hello

greeted-Stores : Stores greeted hello
greeted-Stores = grown-Stores (device zeros) [] hello 6 fresh-Stores (omega arith) (omega arith)

big : List ℕ
big = replicate 1030 7

length-big : length big ≡ 1030
unfolding big
length-big = refl

no_files : Files
no_files = record { infile_null = true; outfile_null = true; read_into = λ old at. (old, at) }

abbrev modded : Modded
modded = record { device = device zeros; disk_buffer = []; position = pos 0; calls = [] }

abbrev requests : List Request
requests =
    open_request ∷ write_request hello 6 ∷ read_request hello 4 2 ∷ write_request hello 1 ∷ []

-- Reading three bytes at offset 3 gives those at 0, though "lo!" stands there.
read_at_three :
    (d : Driver) × (read plain greeted (0 ∷ 0 ∷ 0 ∷ []) 3 (pos 3)
      ≡ some (pos 3, 104 ∷ 101 ∷ 108 ∷ [], pos 6, d))
read_at_three =
    let (d, gives, _) =
      (read_lem plain plain-Copies greeted hello (0 ∷ 0 ∷ 0 ∷ []) 3 3 greeted-Stores
          (omega arith)).0
        (omega arith) in
    (d, gives)

write_appends_example :
    (length {A = ℕ} [] ≢ buffer_size
      → (d' : Driver) × (write plain (device zeros) hello 6 ≡ some (pos 6, d')) × Stores d' hello)
    × (length {A = ℕ} [] ≡ buffer_size
        → write plain (device zeros) hello 6 ≡ some (negsuc 0, device zeros))
write_appends_example =
    write_appends plain plain-Copies (device zeros) [] hello 6 fresh-Stores (omega arith)

read_lem_example :
    (2 ≤ 6
      → (d' : Driver) × (read plain greeted (1 ∷ 2 ∷ 3 ∷ 4 ∷ 5 ∷ []) 5 (pos 2)
          ≡ some (pos 4, 104 ∷ 101 ∷ 108 ∷ 108 ∷ 5 ∷ [], pos 6, d'))
        × Stores d' hello)
    × (6 < 2
        → read plain greeted (1 ∷ 2 ∷ 3 ∷ 4 ∷ 5 ∷ []) 5 (pos 2)
          ≡ some (pos 0, 1 ∷ 2 ∷ 3 ∷ 4 ∷ 5 ∷ [], pos 2, greeted))
read_lem_example =
    read_lem plain plain-Copies greeted hello (1 ∷ 2 ∷ 3 ∷ 4 ∷ 5 ∷ []) 5 2 greeted-Stores
      (omega arith)

handle_all_keeps_example :
    (d' : Driver) × (handle_all plain (device zeros) requests ≡ some d')
    × Stores d' (kept [] (hello ++ (104 ∷ [])))
handle_all_keeps_example =
    handle_all_keeps plain plain-Copies requests (device zeros) [] fresh-Stores (omega arith)

write_modded_overruns_example :
    (m' : Modded) × (write_modded plain no_files modded big 1030 ≡ some (pos 1030, m'))
    × (m'.device.eof ≡ pos (0 + 1030))
    × (m'.device.device_buffer ≡ take (buffer_size - 0) big)
    × ((later : List ℕ) (n : ℕ)
        → 0 < n
        → n < 2 ^ 31
        → write_modded plain no_files m' later n ≡ none)
write_modded_overruns_example =
    write_modded_overruns plain plain-Copies no_files modded [] big 1030 fresh-Stores
      (omega (arith, length-big)) (omega arith) (omega arith) (omega arith)
