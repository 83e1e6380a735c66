-- ===== src/Xattr/Tests.antt =====
-- lab5/xattr-util.c on a file system whose state gives the value of each name on each path, and
-- which lists two names everywhere.
use model_lib.Prelude.{
  ℕ, ◌≡◌, refl, true, false, ◌&&◌, Option, none, some, List, [], ◌∷◌, arith, length, if◌then◌else◌,
  map,
}
use model_lib.Prelude.Int.{pos, negsuc}
use model_lib.Prelude.Text.{Text, same, same_self}
use model_lib.Xattr.{
  Answer, Calls, attribute_name, attribute_value, ends, cmd_ls, cmd_set, cmd_get, prefixed,
  xattr_main,
}
use model_lib.Xattr.Names.{joined, list_prints}
use model_lib.Xattr.Store.{Lawful, set_then_get}

abbrev State : Type 0
State = Text → Text → Option Text

abbrev path : Text
path = 102 ∷ []

abbrev names : List Text
names = (97 ∷ []) ∷ (98 ∷ 99 ∷ []) ∷ []

abbrev read : Option Text → Option ℕ → Answer
read none room = record { result = negsuc 0; no_attr = true; bytes = [] }
read (some v) none = record { result = pos (length v); no_attr = false; bytes = [] }
read (some v) (some n) = record { result = pos (length v); no_attr = false; bytes = v }

abbrev change : State → Text → Text → Option Text → State
change w p n v q m = if same p q && same n m then v else w q m

abbrev system : Calls State
system = record {
  listxattr = λ w p room. (record { result = pos 5; no_attr = false; bytes = joined names }, w);
  setxattr =
      λ w p n v. (record { result = pos 0; no_attr = false; bytes = [] }, change w p n (some v));
  getxattr = λ w p n room. (read (w p n) room, w);
  removexattr =
      λ w p n. (record { result = pos 0; no_attr = false; bytes = [] }, change w p n none);
  malloc = λ n. true;
}

change_self : (w : State) (p n : Text) (v : Option Text) → change w p n v p n ≡ v
change_self w p n v = rw (same_self p, same_self n) refl

system-Lawful : Lawful system (λ w p n. w p n)
system-Lawful = record {
  set_value = λ w p n v e. change_self w p n (some v);
  remove_value = λ w p n e. change_self w p n none;
  get_keeps = λ w p n room. refl;
  get_size = λ w p n v e. rw e refl;
  get_whole = λ w p n v room e fits. rw e (refl, refl);
  get_absent = λ w p n e. rw e (refl, refl);
}

abbrev empty : State
empty p n = none

list_prints_example :
    xattr_main system (cmd_ls ∷ path ∷ []) empty ≡ ends (map attribute_name names) empty
list_prints_example =
    list_prints system path empty empty empty
      (record { result = pos 5; no_attr = false; bytes = joined names })
      (record { result = pos 5; no_attr = false; bytes = joined names }) names [] (omega arith) refl
      refl refl refl refl refl

set_then_get_example :
    (w1 last : State) × (xattr_main system (cmd_set ∷ (97 ∷ []) ∷ (98 ∷ 99 ∷ []) ∷ path ∷ []) empty
      ≡ ends [] w1)
    × (xattr_main system (cmd_get ∷ (97 ∷ []) ∷ path ∷ []) w1
        ≡ ends (attribute_value (prefixed system (97 ∷ [])) (98 ∷ 99 ∷ []) ∷ []) last)
set_then_get_example =
    set_then_get system (λ w p n. w p n) system-Lawful (λ n. refl) empty (97 ∷ []) (98 ∷ 99 ∷ [])
      path (omega arith) refl
