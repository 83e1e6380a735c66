-- ===== src/Console.antt =====
-- lab2/lab2_test.c: commands from the keyboard on the device of lab2/module/simple_char_driver.c.
pub mod Typed
pub mod Shows
mod Tests
use model_lib.Prelude.{
  ℕ, zero, suc, Bool, Option, none, some, List, [], ◌∷◌, ◌++◌, length, take, ◌==◌, if◌then◌else◌,
}
use model_lib.Prelude.Int.{ℤ, pos, pos_part, ltb_ℤ}
use model_lib.Prelude.Text.{Text, until_nul}
use model_lib.Driver.{
  UserAccess, Driver, read, open_device, close_device, open_request, write_request, close_request,
  handle_all,
}

-- `fgets` with room for `n` bytes and the NUL: the bytes up to the first newline, `n` at most, and the
-- input behind them. At the end of the input it gives no byte.
unfoldable pub fgets : ℕ → List ℕ → List ℕ × List ℕ
fgets zero input = ([], input)
fgets (suc n) [] = ([], [])
fgets (suc n) (b ∷ input) =
    let rest = fgets n input in if b == 10 then (b ∷ [], input) else (b ∷ rest.0, rest.1)

-- What the program shows, less the prompts.
pub data Shown : Type 0 where
  data_read : List ℕ → Shown
  unrecognized : Shown
  bye : Shown

-- How it ends: by its command, at the end of the input (the last line then stays in the array, and is
-- taken again for ever), where the device is left, or without fuel.
pub data Session : Type 0 where
  left : List Shown → Driver → Session
  no_input : Session
  outside : Session
  out_of_fuel : Session

unfoldable pub shows : Shown → Session → Session
shows s (left rest d) = left (s ∷ rest) d
shows s no_input = no_input
shows s outside = outside
shows s out_of_fuel = out_of_fuel

-- `block` is the array that stdio reads a file into.
module _ (u : UserAccess) (block : List ℕ) where
  -- `getc` to the end of the file, by reads of whole blocks.
  unfoldable pub get_all : ℕ → Driver → ℤ → Option (List ℕ × Driver)
  get_all zero d offset = none
  get_all (suc fuel) d offset = elim (read u d block (length block) offset) [
    | none ↦ none
    | some (count, bytes, offset', d') ↦
        let more = get_all fuel d' offset' in
        if ltb_ℤ (pos 0) count
        then (elim more [
          | none ↦ none
          | some (rest, d'') ↦ some (take (pos_part count) bytes ++ rest, d'')
        ])
        else some ([], d')
  ]

  -- Command r: what is printed, if the device can be opened.
  unfoldable pub read_command : ℕ → Driver → Option (List ℕ × Driver)
  read_command rounds d = elim (get_all rounds (open_device d).1 (pos 0)) [
    | none ↦ none
    | some (bytes, d') ↦ some (bytes, (close_device d').1)
  ]

-- `present` tells whether the device can be opened.
module _ (u : UserAccess) (block : List ℕ) (present : Bool) where
  -- Command w, with the bytes in the array up to its NUL.
  unfoldable pub write_command : Driver → Text → Option Driver
  write_command d text =
      if present
      then handle_all u d (open_request ∷ write_request text (length text) ∷ close_request ∷ [])
      else some d

  -- The loop over the commands, on fuel; `rounds` is the fuel of the loop of `getc`.
  unfoldable pub session : ℕ → ℕ → List ℕ → Driver → Session
  session rounds zero input d = out_of_fuel
  session rounds (suc fuel) input d =
      let (line, input') = fgets 255 input in
      let (data_line, input'') = fgets 127 input' in
      let same = session rounds fuel input' d in
      elim line [
        | [] ↦ no_input
        | b ∷ bs ↦
            if b == 0
            then same
            else if b == 114
            then (if present
                then (elim (read_command u block rounds d) [
                  | none ↦ outside
                  | some (bytes, d') ↦ shows (data_read bytes) (session rounds fuel input' d')
                ])
                else same)
            else if b == 119
            then (elim data_line [
              | [] ↦ no_input
              | c ∷ cs ↦ elim (write_command d (until_nul (c ∷ cs))) [
                | none ↦ outside
                | some d' ↦ session rounds fuel input'' d'
              ]
            ])
            else if b == 101
            then left (bye ∷ []) d
            else shows unrecognized same
      ]
