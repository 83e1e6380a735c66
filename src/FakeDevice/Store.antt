-- ===== src/FakeDevice/Store.antt =====
-- What the loop of lab2/fake_device.c stores of a text that a NUL ends, and what is printed of it.
use model_lib.Prelude.{
  ℕ, ◌+◌, ◌<◌, ◌≡◌, refl, sym, ◌∙◌, ap, ap₂, append-nil, Option, some, List, [], ◌∷◌, ◌++◌, length,
  set, replicate, arith, append_assoc, length-append, zero, suc,
}
use model_lib.Prelude.Text.{Text, IsText, until_nul}
use model_lib.FakeDevice.{disk_size, store, disk_text}

set-middle :
    (held rest : List ℕ) (a b : ℕ) → set (held ++ (a ∷ rest)) (length held) b ≡ held ++ (b ∷ rest)
set-middle [] rest a b = refl
set-middle (x ∷ held) rest a b = ap (λ l. x ∷ l) (set-middle held rest a b)

-- What stands before the first NUL.
pub until_nul_end : (t rest : List ℕ) → IsText t → until_nul (t ++ (0 ∷ rest)) ≡ t
unfolding until_nul
until_nul_end [] rest h = refl
until_nul_end (b ∷ ys) rest (h, hs) = ground (arith, until_nul_end ys rest hs)

pair :
    (x x' : List ℕ) (n n' : ℕ)
    → x ≡ x'
    → n ≡ n'
    → ◌≡◌ {A = Option (List ℕ × ℕ)} (some (x, n)) (some (x', n'))
pair x x' n n' e f = ap₂ (λ y m. some (y, m)) e f

pub disk_as :
    (held held' : Text) (m m' : ℕ)
    → held ≡ held'
    → m ≡ m'
    → held ++ replicate m 0 ≡ held' ++ replicate m' 0
disk_as held held' m m' e f = ap₂ (λ l j. l ++ replicate j 0) e f

pub store_lem :
    (t rest held disk : List ℕ) (n m k : ℕ)
    → IsText t
    → disk ≡ held ++ replicate m 0
    → m ≡ length t + k
    → n ≡ length held
    → n + length t < disk_size
    → store (t ++ (0 ∷ rest)) disk n ≡ some ((held ++ t) ++ replicate k 0, n + length t)
unfolding store
store_lem [] rest held disk n m k h e zeros f fits =
    pair disk ((held ++ []) ++ replicate k 0) n (n + 0)
      (e ∙ disk_as held (held ++ []) m k (sym (append-nil held)) (omega arith)) (omega arith)
store_lem (b ∷ ys) rest held disk n zero k h e zeros f fits = absurd (omega arith)
store_lem (b ∷ ys) rest held disk n (suc m) k (h, hs) e zeros f fits =
    let again =
      store_lem ys rest (held ++ (b ∷ [])) (set disk n b) (n + 1) m k hs
        (rw (e, f)
          (set-middle held (replicate m 0) 0 b ∙ sym (append_assoc held (b ∷ []) (replicate m 0))))
        (omega arith) (omega (arith, length-append held (b ∷ []))) (omega arith) in
    let whole =
      again
      ∙ pair (((held ++ (b ∷ [])) ++ ys) ++ replicate k 0) ((held ++ (b ∷ ys)) ++ replicate k 0)
          (n + 1 + length ys) (n + suc (length ys))
          (ap (λ l. l ++ replicate k 0) (append_assoc held (b ∷ []) ys)) (omega arith) in
    ground (arith, whole)

-- A device with a zero left has a text to print.
pub disk_text_lem :
    (held : Text) (k : ℕ) → IsText held → disk_text (held ++ replicate (suc k) 0) ≡ some held
unfolding disk_text
disk_text_lem held k h =
    rw (until_nul_end held (replicate k 0) h)
      (ground (arith, length-append held (replicate (suc k) 0)))

pub IsText-append : (held t : Text) → IsText held → IsText t → IsText (held ++ t)
IsText-append [] t h g = g
IsText-append (b ∷ ys) t (h, hs) g = (h, IsText-append ys t hs g)
