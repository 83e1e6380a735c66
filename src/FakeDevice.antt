-- ===== src/FakeDevice.antt =====
-- lab2/fake_device.c: a device at the other end of two pipes, which takes a request to write and then
-- the bytes to write.
pub mod Store
pub mod Messages
mod Tests
use model_lib.Prelude.{
  ℕ, ◌+◌, Bool, not, ◌&&◌, Option, none, some, List, [], ◌∷◌, ◌++◌, length, set, drop, replicate,
  ltb, leb, ◌==◌, if◌then◌else◌,
}
use model_lib.Prelude.Text.{Text, same, until_nul}

-- The sizes of DISK_BUFFER and INT_BUFFER.
abbrev pub disk_size : ℕ
disk_size = 1024

abbrev pub int_size : ℕ
int_size = 512

-- "WRITE_REQ".
abbrev pub write_req : Text
write_req = 87 ∷ 82 ∷ 73 ∷ 84 ∷ 69 ∷ 95 ∷ 82 ∷ 69 ∷ 81 ∷ []

-- What the program does that others see.
pub data Event : Type 0 where
  request_printed : Event  -- `printf("WRITE REQUEST\n")`
  ack_written : Event  -- `write(fifOut, "WRITE_ACK", sizeof("WRITE_ACK"))`
  disk_printed : Text → Event  -- `printf("%s", DISK_BUFFER)`

pub record FakeDevice : Type 0 where
  pub disk_buffer : List ℕ
  pub int_buffer : List ℕ
  pub disk_stat : ℕ
  pub eof : ℕ
  pub log : List Event

abbrev pub started : FakeDevice
started = record {
  disk_buffer = replicate disk_size 0;
  int_buffer = replicate int_size 0;
  disk_stat = 0;
  eof = 0;
  log = [];
}

infixl 5 ◌>>=◌
abbrev pub ◌>>=◌ : {A B : Type 0} → Option A → (A → Option B) → Option B
none >>= f = none
some a >>= f = f a

-- `read(fifIn, INT_BUFFER, 1024)` that gives `bytes`, none at the end of the pipe: `none` where they
-- go beyond the array.
unfoldable pub receive : List ℕ → List ℕ → Option (List ℕ)
receive int_buffer bytes =
    if leb (length bytes) int_size then some (bytes ++ drop (length bytes) int_buffer) else none

-- The loop over `i`, on the rest of INT_BUFFER, with DISK_BUFFER and `eof`: `none` where it stores
-- behind DISK_BUFFER.
unfoldable pub store : List ℕ → List ℕ → ℕ → Option (List ℕ × ℕ)
store [] disk_buffer eof = some (disk_buffer, eof)
store (b ∷ ys) disk_buffer eof =
    let rest = store ys (set disk_buffer eof b) (eof + 1) in
    if b == 0 then some (disk_buffer, eof) else (if ltb eof disk_size then rest else none)

-- What is printed of DISK_BUFFER: `none` where no NUL ends it.
unfoldable pub disk_text : List ℕ → Option Text
disk_text disk_buffer =
    if ltb (length (until_nul disk_buffer)) (length disk_buffer)
    then some (until_nul disk_buffer)
    else none

-- The second branch.
unfoldable pub take_data : FakeDevice → Option FakeDevice
take_data d = do
  (disk_buffer, eof) ← store d.int_buffer d.disk_buffer d.eof
  text ← disk_text disk_buffer
  some (record d {
    disk_buffer = disk_buffer;
    eof = eof;
    disk_stat = 0;
    log = d.log ++ (disk_printed text ∷ []);
  })

unfoldable pub answer : FakeDevice → Option FakeDevice
answer d =
    let request = same (until_nul d.int_buffer) write_req in
    if request && (d.disk_stat == 0)
    then some (record d { disk_stat = 1; log = d.log ++ (request_printed ∷ ack_written ∷ []) })
    else if (d.disk_stat == 1) && not request
    then take_data d
    else some d

-- A round of `while(1)`, by what its `read` gives, and the rounds for several of them.
unfoldable pub round : List ℕ → FakeDevice → Option FakeDevice
round bytes d = do
  int_buffer ← receive d.int_buffer bytes
  answer (record d { int_buffer = int_buffer })

unfoldable pub rounds : List (List ℕ) → FakeDevice → Option FakeDevice
rounds [] d = some d
rounds (bytes ∷ rest) d = do d' ← round bytes d; rounds rest d'
