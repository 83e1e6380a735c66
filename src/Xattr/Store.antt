-- ===== src/Xattr/Store.antt =====
-- lab5/xattr-util.c on a file system that keeps attributes.
use model_lib.Prelude.{ℕ, ◌+◌, ◌≤◌, ◌≡◌, ◌∙◌, true, Option, none, some, [], ◌∷◌, arith, length}
use model_lib.Prelude.Int.{pos, ltb_ℤ, eq_ℤ}
use model_lib.Prelude.Text.{Text, IsText, same, until_nul_text}
use model_lib.Xattr.{
  Calls, attribute_value, no_attribute, ends, cmd_set, cmd_get, cmd_rem, prefixed, xattr_main,
  run_set, run_get, run_remove, set_command, get_command, remove_command, refused,
}

-- What the calls document, for the value of each name on each path. A call that succeeds changes one
-- value, reading changes none, and a value is given whole to a buffer that is large enough.
pub record Lawful {W : Type 0} (calls : Calls W) (value_of : W → Text → Text → Option Text)
    : Type 0 where
  pub set_value :
      (w : W) (path name value : Text)
      → eq_ℤ (calls.setxattr w path name value).0.result (pos 0) ≡ true
      → value_of (calls.setxattr w path name value).1 path name ≡ some value
  pub remove_value :
      (w : W) (path name : Text)
      → eq_ℤ (calls.removexattr w path name).0.result (pos 0) ≡ true
      → value_of (calls.removexattr w path name).1 path name ≡ none
  pub get_keeps :
      (w : W) (path name : Text) (room : Option ℕ)
      → value_of (calls.getxattr w path name room).1 path name ≡ value_of w path name
  pub get_size :
      (w : W) (path name value : Text)
      → value_of w path name ≡ some value
      → (calls.getxattr w path name none).0.result ≡ pos (length value)
  pub get_whole :
      (w : W) (path name value : Text) (room : ℕ)
      → value_of w path name ≡ some value
      → length value ≤ room
      → ((calls.getxattr w path name (some room)).0.result ≡ pos (length value))
        × ((calls.getxattr w path name (some room)).0.bytes ≡ value)
  pub get_absent :
      (w : W) (path name : Text)
      → value_of w path name ≡ none
      → (ltb_ℤ (calls.getxattr w path name none).0.result (pos 0) ≡ true)
        × ((calls.getxattr w path name none).0.no_attr ≡ true)

module _ {W : Type 0} (calls : Calls W) (value_of : W → Text → Text → Option Text)
    (lawful : Lawful calls value_of) (memory : (n : ℕ) → calls.malloc n ≡ true) where
  get_value :
      (w : W) (path name value : Text)
      → IsText value
      → value_of w path (prefixed calls name) ≡ some value
      → (last : W) × (xattr_main calls (cmd_get ∷ name ∷ path ∷ []) w
          ≡ ends (attribute_value (prefixed calls name) value ∷ []) last)
  unfolding xattr_main run_get get_command same
  get_value w path name value h e =
      let n = prefixed calls name in
      let w1 = (calls.getxattr w path n none).1 in
      (
        (calls.getxattr w1 path n (some (length value))).1,
        ground (
          arith,
          memory (length name + 5 + 1),
          memory (length value + 1),
          lawful.get_size w path n value e,
          lawful.get_whole w1 path n value (length value) (lawful.get_keeps w path n none ∙ e)
              (omega arith),
          until_nul_text value h,
        ),
      )

  get_none :
      (w : W) (path name : Text)
      → value_of w path (prefixed calls name) ≡ none
      → (last : W) × (xattr_main calls (cmd_get ∷ name ∷ path ∷ []) w
          ≡ ends (no_attribute (prefixed calls name) path ∷ []) last)
  unfolding xattr_main run_get get_command refused same
  get_none w path name e =
      let n = prefixed calls name in
      (
        (calls.getxattr w path n none).1,
        ground (arith, memory (length name + 5 + 1), lawful.get_absent w path n e),
      )

  -- Where memory is there and the system keeps attributes: if it sets the attribute, `-s` succeeds and
  -- prints nothing, and `-g` then prints the prefixed name and the value that was set.
  pub set_then_get :
      (w : W) (name value path : Text)
      → IsText value
      → eq_ℤ (calls.setxattr w path (prefixed calls name) value).0.result (pos 0) ≡ true
      → (w1 last : W) × (xattr_main calls (cmd_set ∷ name ∷ value ∷ path ∷ []) w ≡ ends [] w1)
        × (xattr_main calls (cmd_get ∷ name ∷ path ∷ []) w1
            ≡ ends (attribute_value (prefixed calls name) value ∷ []) last)
  unfolding xattr_main run_set set_command same
  set_then_get w name value path h e =
      let w1 = (calls.setxattr w path (prefixed calls name) value).1 in
      let (last, printed) =
        get_value w1 path name value h (lawful.set_value w path (prefixed calls name) value e) in
      (w1, last, ground (arith, memory (length name + 5 + 1), e), printed)

  -- There too: if the system removes the attribute, `-r` succeeds and prints nothing, and `-g` then
  -- tells that there is none, and succeeds.
  remove_then_get :
      (w : W) (name path : Text)
      → eq_ℤ (calls.removexattr w path (prefixed calls name)).0.result (pos 0) ≡ true
      → (w1 last : W) × (xattr_main calls (cmd_rem ∷ name ∷ path ∷ []) w ≡ ends [] w1)
        × (xattr_main calls (cmd_get ∷ name ∷ path ∷ []) w1
            ≡ ends (no_attribute (prefixed calls name) path ∷ []) last)
  unfolding xattr_main run_remove remove_command same
  remove_then_get w name path e =
      let w1 = (calls.removexattr w path (prefixed calls name)).1 in
      let (last, printed) =
        get_none w1 path name (lawful.remove_value w path (prefixed calls name) e) in
      (w1, last, ground (arith, memory (length name + 5 + 1), e), printed)
