-- ===== src/Xattr/Names.antt =====
-- The list command of lab5/xattr-util.c: the system gives the names one behind the other, each with
-- its NUL.
use model_lib.Prelude.{
  ℕ, zero, suc, ◌+◌, ◌<◌, ◌≤◌, ◌≡◌, refl, true, none, some, List, [], ◌∷◌, ◌++◌, map, arith, length,
  length-append, append_assoc,
}
use model_lib.Prelude.Int.{pos}
use model_lib.Prelude.Text.{Text, IsText, same}
use model_lib.Xattr.{
  Answer, Calls, attribute_name, ends, name_at, print_names, list_command, run_list, xattr_main,
  cmd_ls,
}

abbrev pub joined : List Text → List ℕ
joined [] = []
joined (name ∷ names) = name ++ (0 ∷ joined names)

abbrev pub AllTexts : List Text → Type 0
AllTexts [] = Unit {0}
AllTexts (name ∷ names) = IsText name × AllTexts names

name_at-append :
    (name : Text) (behind : List ℕ)
    → IsText name
    → name_at (name ++ (0 ∷ behind)) ≡ some (name, behind)
unfolding name_at
name_at-append [] behind h = refl
name_at-append (b ∷ bs) behind (h, hs) = ground (arith, name_at-append bs behind hs)

-- Only the names are read, whatever stands behind them.
print_names-joined :
    (fuel cnt total : ℕ) (names : List Text) (spare : List ℕ)
    → AllTexts names
    → total ≡ cnt + length (joined names)
    → length names < fuel
    → print_names fuel (joined names ++ spare) cnt total ≡ some (map attribute_name names)
unfolding print_names
print_names-joined zero cnt total names spare h e lt = absurd (omega arith)
print_names-joined (suc fuel) cnt total [] spare h e lt = ground arith
print_names-joined (suc fuel) cnt total (name ∷ names) spare (h, hs) e lt = ground (
  arith,
  append_assoc name (0 ∷ joined names) spare,
  name_at-append name (joined names ++ spare) h,
  length-append name (0 ∷ joined names),
  print_names-joined fuel (cnt + length name + 1) total names spare hs
      (omega (arith, e, length-append name (0 ∷ joined names))) (omega arith),
)

fewer : (names : List Text) → length names ≤ length (joined names)
fewer [] = omega arith
fewer (name ∷ names) = omega (arith, fewer names, length-append name (0 ∷ joined names))

module _ {W : Type 0} (calls : Calls W) where
  -- With `-l` and a path, where the system gives the size of the names and then the names, each with
  -- its NUL, the program prints the names, one to a line, and succeeds; no name is read past the
  -- buffer, whatever memory lies behind it.
  pub list_prints :
      (path : Text) (w w1 w2 : W) (size list : Answer) (names : List Text) (spare : List ℕ)
      → AllTexts names
      → calls.listxattr w path none ≡ (size, w1)
      → size.result ≡ pos (length (joined names))
      → calls.malloc (length (joined names)) ≡ true
      → calls.listxattr w1 path (some (length (joined names))) ≡ (list, w2)
      → list.result ≡ pos (length (joined names))
      → list.bytes ≡ joined names ++ spare
      → xattr_main calls (cmd_ls ∷ path ∷ []) w ≡ ends (map attribute_name names) w2
  unfolding xattr_main run_list list_command same
  list_prints path w w1 w2 size list names spare h asked count room given same_count bytes =
      ground (
        arith,
        asked,
        given,
        print_names-joined (suc (length (joined names))) 0 (length (joined names)) names spare h
            (omega arith) (omega (arith, fewer names)),
      )
