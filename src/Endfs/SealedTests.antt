-- ===== src/Endfs/SealedTests.antt =====
-- `xmp_create` and `xmp_release` of lab5/pa5-endfs.c on a disk with one file.
use model_lib.Prelude.{
  ℕ, zero, suc, ◌-◌, ◌≤◌, ◌≡◌, ◌≢◌, refl, ap, true, false, Option, none, some, List, [], ◌∷◌, ◌++◌,
  length, arith, map, ◌==◌, if◌then◌else◌,
}
use model_lib.Prelude.Int.{pos}
use model_lib.Prelude.Text.{NoNewline, Text}
use model_lib.Crypt.Disk.{Disk, disk, put, disk-Lawful}
use model_lib.Crypt.Tests.{lists, lists-Regular, toy, toy-Cipher, lower, password, plain}
use model_lib.Endfs.{Headers, Answer, Call, FilePath, xmp_getpath}
use model_lib.Endfs.Sealed.{ok, Host, Context, line_size, infile, outfile, crypt_text}
use model_lib.Endfs.Handlers.{Junk, master, xmp_create}
use model_lib.Endfs.Runs.{IsLine, System}
use model_lib.Endfs.Created.{create_key}

-- At most `n` bytes, up to the first newline.
line_of : ℕ → List ℕ → List ℕ
line_of zero bytes = []
line_of (suc n) [] = []
line_of (suc n) (b ∷ bs) = let rest = line_of n bs in if b == 10 then b ∷ [] else b ∷ rest

line_of_lem : (n : ℕ) (t : Text) → NoNewline t → length t ≤ n → line_of n t ≡ t
unfolding line_of
line_of_lem zero [] one le = refl
line_of_lem zero (b ∷ bs) one le = absurd (omega arith)
line_of_lem (suc n) [] one le = refl
line_of_lem (suc n) (b ∷ bs) (ne, one) le = ground (arith, line_of_lem n bs one (omega arith))

fgets : ℕ → List ℕ → Option (List ℕ)
fgets size [] = none
fgets size (b ∷ bs) = some (line_of (size - 1) (b ∷ bs))

fgets_lem : (t : Text) → IsLine t → fgets line_size t ≡ some t
unfolding fgets
fgets_lem [] l = absurd (l.some_byte refl)
fgets_lem (b ∷ bs) l =
    ap some (line_of_lem (line_size - 1) (b ∷ bs) l.one_line (omega (arith, l.fits)))

abbrev calls : Disk → Call → Answer × Disk
calls w c = (record { result = pos 0; errno = 0; bytes = [] }, w)

abbrev host : Host Disk (List ℕ) (List ℕ)
host = record {
  sys = calls;
  stdio = disk;
  streams = lists;
  fprintf = λ o t. o ++ t;
  fgets = fgets;
  uid = λ w. 48 ∷ [];
}

host-System : System host (λ i. i) (λ o. o) (λ w p. w p)
host-System = record {
  laws = disk-Lawful;
  regular = lists-Regular;
  prints = λ o t. refl;
  gets = λ i line l e. rw e (fgets_lem line l);
  asks = λ w name p q. refl;
  closes = λ w fd q. refl;
}

abbrev headers : Headers
headers = record {
  o_rdonly = 0;
  o_wronly = 1;
  o_creat_excl_wronly = 193;
  s_isreg = λ mode. true;
  s_isfifo = λ mode. false;
}

abbrev context : Context
context = record { userkey = password; mirrordir = [] }

abbrev path : FilePath
path = 102 ∷ []

abbrev junk : Junk
junk = record { lst = map suc password; key = [] }

abbrev start : Disk
start = put (λ p. none) path (some plain)

stored-IsLine : IsLine (map suc master)
stored-IsLine = record {
  some_byte = λ e. cc;
  one_line = omega arith;
  text = omega arith;
  fits = omega arith;
}

create_key_example :
    (v s : Disk) × (xmp_create host toy headers context 65 99 start path 420 junk
      ≡ ok (record { code = pos 0; buffer = [] }, v))
    × ((q : FilePath) → q ≢ infile → q ≢ outfile → v q ≡ start q)
    × (crypt_text host toy headers context 99 start (map suc master) [] (pos 0) ≡ ok (master, s))
unfolding xmp_getpath
create_key_example =
    create_key host toy headers context (λ i. i) (λ o. o) (λ w p. w p) host-System
      (λ key iv. map suc) (λ key iv. lower) toy-Cipher 65 99 start path 420 junk 99 start [] refl
      refl stored-IsLine (omega arith) (omega arith)
