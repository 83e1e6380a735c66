-- ===== src/Xattr.antt =====
-- lab5/xattr-util.c: lists, sets, reads and removes the extended attributes of a file. The calls of
-- the system and `malloc` are parameters.
pub mod Names
pub mod Store
mod Tests
use model_lib.Prelude.{
  ℕ, zero, suc, ◌+◌, Bool, true, false, not, Option, none, some, List, [], ◌∷◌, ◌++◌, length, ltb,
  ◌==◌, if◌then◌else◌,
}
use model_lib.Prelude.Int.{ℤ, pos, pos_part, ltb_ℤ, eq_ℤ}
use model_lib.Prelude.Text.{Text, same, until_nul}

-- "-l", "-s", "-g", "-r" and "user.".
abbrev pub cmd_ls : Text
cmd_ls = 45 ∷ 108 ∷ []

abbrev pub cmd_set : Text
cmd_set = 45 ∷ 115 ∷ []

abbrev pub cmd_get : Text
cmd_get = 45 ∷ 103 ∷ []

abbrev pub cmd_rem : Text
cmd_rem = 45 ∷ 114 ∷ []

abbrev pub xattr_user_prefix : Text
xattr_user_prefix = 117 ∷ 115 ∷ 101 ∷ 114 ∷ 46 ∷ []

-- What is printed. The last four are on standard output.
pub data Message : Type 0 where
  usage_general : Message
  usage_list : Message
  usage_set : Message
  usage_get : Message
  usage_rem : Message
  unrecognized : Message
  no_memory : Message
  list_error : Message
  set_error : Message
  get_error : Message
  remove_error : Message
  attribute_name : Text → Message
  attribute_value : Text → Text → Message
  no_attribute : Text → Text → Message

-- `wild` is a read past the end of a buffer, which is undefined.
pub data Status : Type 0 where
  exit_success : Status
  exit_failure : Status
  wild : Status

-- The calls. Those that fill a buffer have a form that only tells the size, and `none` for the bytes
-- there. A result below 0 is a failure; then `no_attr` tells that `errno` is ENOATTR.
pub record Answer : Type 0 where
  pub result : ℤ
  pub no_attr : Bool
  pub bytes : List ℕ

pub record Calls (W : Type 0) : Type 0 where
  pub listxattr : W → Text → Option ℕ → Answer × W
  pub setxattr : W → Text → Text → Text → Answer × W
  pub getxattr : W → Text → Text → Option ℕ → Answer × W
  pub removexattr : W → Text → Text → Answer × W
  pub malloc : ℕ → Bool

-- The bytes before the first NUL and those behind it; `none` where the buffer has no NUL.
unfoldable pub name_at : List ℕ → Option (Text × List ℕ)
name_at [] = none
name_at (b ∷ bs) =
    let rest = name_at bs in
    if b == 0
    then some ([], bs)
    else elim rest [ none ↦ none | some (name, behind) ↦ some (b ∷ name, behind) ]

-- The loop over the buffer from `start` on, with `cnt` bytes behind it; `none` where it leaves the
-- buffer. Each round takes a byte at least, and `fuel` counts the rounds.
unfoldable pub print_names : ℕ → List ℕ → ℕ → ℕ → Option (List Message)
print_names zero start cnt lstsize = none
print_names (suc fuel) start cnt lstsize = elim (ltb cnt lstsize) [
  | false ↦ some []
  | true ↦ elim (name_at start) [
    | none ↦ none
    | some (name, behind) ↦ elim (print_names fuel behind (cnt + length name + 1) lstsize) [
      | none ↦ none
      | some lines ↦ some (attribute_name name ∷ lines)
    ]
  ]
]

pub record Outcome (W : Type 0) : Type 0 where
  pub status : Status
  pub lines : List Message
  pub world : W

abbrev pub fails : {W : Type 0} → Message → W → Outcome W
fails m w = record { status = exit_failure; lines = m ∷ []; world = w }

abbrev pub ends : {W : Type 0} → List Message → W → Outcome W
ends ms w = record { status = exit_success; lines = ms; world = w }

module _ {W : Type 0} (calls : Calls W) where
  unfoldable pub list_command : Text → W → Outcome W
  list_command path w =
      let (size, w1) = calls.listxattr w path none in
      let (list, w2) = calls.listxattr w1 path (some (pos_part size.result)) in
      if ltb_ℤ size.result (pos 0)
      then fails list_error w1
      else if not (calls.malloc (pos_part size.result))
      then fails no_memory w1
      else if ltb_ℤ list.result (pos 0)
      then fails list_error w2
      else elim (print_names (suc (pos_part list.result)) list.bytes 0 (pos_part list.result)) [
        | none ↦ record { status = wild; lines = []; world = w2 }
        | some lines ↦ ends lines w2
      ]

  -- `malloc(strlen(name) + XATTR_USER_PREFIX_LEN + 1)` and the prefixed name in it.
  unfoldable pub prefixed : Text → Text
  prefixed name = xattr_user_prefix ++ name

  unfoldable pub set_command : Text → Text → Text → W → Outcome W
  set_command name value path w =
      let (answer, w1) = calls.setxattr w path (prefixed name) value in
      if not (calls.malloc (length name + length xattr_user_prefix + 1))
      then fails no_memory w
      else if eq_ℤ answer.result (pos 0)
      then ends [] w1
      else fails set_error w1

  -- A failure of `getxattr` or `removexattr`.
  unfoldable pub refused : Answer → Message → Text → Text → W → Outcome W
  refused answer error name path w =
      if answer.no_attr then ends (no_attribute name path ∷ []) w else fails error w

  unfoldable pub get_command : Text → Text → W → Outcome W
  get_command name path w =
      let (size, w1) = calls.getxattr w path (prefixed name) none in
      let (value, w2) = calls.getxattr w1 path (prefixed name) (some (pos_part size.result)) in
      if not (calls.malloc (length name + length xattr_user_prefix + 1))
      then fails no_memory w
      else if ltb_ℤ size.result (pos 0)
      then refused size get_error (prefixed name) path w1
      else if not (calls.malloc (pos_part size.result + 1))
      then fails no_memory w1
      else if ltb_ℤ value.result (pos 0)
      then refused value get_error (prefixed name) path w2
      else ends (attribute_value (prefixed name) (until_nul value.bytes) ∷ []) w2

  unfoldable pub remove_command : Text → Text → W → Outcome W
  remove_command name path w =
      let (answer, w1) = calls.removexattr w path (prefixed name) in
      if not (calls.malloc (length name + length xattr_user_prefix + 1))
      then fails no_memory w
      else if eq_ℤ answer.result (pos 0)
      then ends [] w1
      else refused answer remove_error (prefixed name) path w1

  -- What each command makes of the arguments behind it.
  unfoldable pub run_list : List Text → W → Outcome W
  run_list (path ∷ []) w = list_command path w
  run_list _ w = fails usage_list w

  unfoldable pub run_set : List Text → W → Outcome W
  run_set (name ∷ value ∷ path ∷ []) w = set_command name value path w
  run_set _ w = fails usage_set w

  unfoldable pub run_get : List Text → W → Outcome W
  run_get (name ∷ path ∷ []) w = get_command name path w
  run_get _ w = fails usage_get w

  unfoldable pub run_remove : List Text → W → Outcome W
  run_remove (name ∷ path ∷ []) w = remove_command name path w
  run_remove _ w = fails usage_rem w

  -- `main`, with the arguments behind the name of the program.
  unfoldable pub xattr_main : List Text → W → Outcome W
  xattr_main [] w = fails usage_general w
  xattr_main (command ∷ args) w =
      if same command cmd_ls
      then run_list args w
      else if same command cmd_set
      then run_set args w
      else if same command cmd_get
      then run_get args w
      else if same command cmd_rem
      then run_remove args w
      else fails unrecognized w
