-- ===== src/Crypt/Tests.antt =====
-- `do_crypt` of lab5/aes-crypt.c on lists of bytes, with a cipher that shifts each byte by one and
-- ends the encrypted text with a byte 0.
use model_lib.Prelude.{
  ℕ, zero, suc, ◌≡◌, refl, sym, ◌∙◌, ap, true, false, Bool, Option, none, some, List, [], ◌∷◌, ◌++◌,
  arith, length, map, append-nil, append_assoc,
}
use model_lib.Prelude.Int.{pos, negsuc, eq_ℤ}
use model_lib.Prelude.Text.{same}
use model_lib.Crypt.{Streams, Evp, success, failure, do_crypt}
use model_lib.Crypt.Stream.{Regular, Returns, feed, concat}
use model_lib.Crypt.Disk.{Disk, disk, put, disk-Lawful}
use model_lib.Crypt.Tool.{aes_main, exit_success, option_e, option_d}
use model_lib.Crypt.Trip.{tool_round_trip}
use model_lib.Crypt.Cipher.{Cipher, do_crypt_copies, round_trip, do_crypt_bad_text}

-- Files that give a byte at a time and take everything.
abbrev head_of : List ℕ → List ℕ
head_of [] = []
head_of (b ∷ bs) = b ∷ []

abbrev tail_of : List ℕ → List ℕ
tail_of [] = []
tail_of (b ∷ bs) = bs

abbrev pub lists : Streams (List ℕ) (List ℕ)
lists = record {
  fread = λ i. (head_of i, tail_of i);
  fwrite = λ o b. (length b, o ++ b);
  unset_cleanup = λ i o. none;
}

pub lists-Regular : Regular lists (λ i. i) (λ o. o)
lists-Regular = record {
  read_block = whole;
  read_end = at_end;
  write_all = λ o b. refl;
  write_text = λ o b. refl;
}
  where
    whole : (i : List ℕ) → i ≡ head_of i ++ tail_of i
    whole [] = refl
    whole (b ∷ bs) = refl

    at_end : (i : List ℕ) → head_of i ≡ [] → i ≡ []
    at_end [] e = refl
    at_end (b ∷ bs) e = absurd cc

-- An engine that keeps all bytes to its end: then it adds one to each, or takes one off and refuses
-- the byte 0.
pub lower : List ℕ → Option (List ℕ)
lower [] = some []
lower (zero ∷ bs) = none
lower (suc b ∷ bs) = elim (lower bs) [ none ↦ none | some rest ↦ some (b ∷ rest) ]

lower-map : (text : List ℕ) → lower (map suc text) ≡ some text
unfolding lower
lower-map [] = refl
lower-map (b ∷ bs) = rw (lower-map bs) refl

abbrev pub end : Bool → List ℕ → Option (List ℕ)
end true held = lower held
end false held = some (map suc held)

abbrev pub toy : Evp (Bool × List ℕ)
toy = record {
  bytes_to_key = λ text. (pos (length text), text, []);
  cipher_init = λ key iv action. (eq_ℤ action (pos 0), []);
  cipher_update = λ c block. some ((c.0, c.1 ++ block), []);
  cipher_final = λ c. end c.0 c.1;
}

feed-toy :
    (op : Bool) (held : List ℕ) (bs : List (List ℕ))
    → feed toy (op, held) bs ≡ end op (held ++ concat bs)
unfolding feed concat
feed-toy op held [] = ap (end op) (sym (append-nil held))
feed-toy op held (b ∷ bs) =
    rw (feed-toy op (held ++ b) bs)
      (kept (end op (held ++ b ++ concat bs)) ∙ ap (end op) (append_assoc held b (concat bs)))
  where
    kept :
        (x : Option (List ℕ))
        → ◌≡◌ {A = Option (List ℕ)} (elim x [ none ↦ none | some rest ↦ some rest ]) x
    kept none = refl
    kept (some rest) = refl

pub toy-Cipher : Cipher toy (λ key iv. map suc) (λ key iv. lower)
toy-Cipher = record {
  encrypts = λ key iv bs. feed-toy false [] bs;
  decrypts = λ key iv bs. feed-toy true [] bs;
  inverse = λ key iv text. lower-map text;
}

abbrev pub password : List ℕ
password =
    1 ∷ 2 ∷ 3 ∷ 4 ∷ 5 ∷ 6 ∷ 7 ∷ 8 ∷ 1 ∷ 2 ∷ 3 ∷ 4 ∷ 5 ∷ 6 ∷ 7 ∷ 8 ∷ 1 ∷ 2 ∷ 3 ∷ 4 ∷ 5 ∷ 6 ∷ 7 ∷ 8
    ∷ 1 ∷ 2 ∷ 3 ∷ 4 ∷ 5 ∷ 6 ∷ 7 ∷ 8 ∷ []

abbrev pub plain : List ℕ
plain = 72 ∷ 105 ∷ []

round_trip_example :
    Returns (λ o. o) (do_crypt lists toy 5 plain [] (pos 1) (some password)) success (73 ∷ 106 ∷ [])
    × Returns
        (λ o. o)
        (do_crypt lists toy 5 (73 ∷ 106 ∷ []) [] (pos 0) (some password))
        success
        plain
round_trip_example =
    round_trip lists toy (λ i. i) (λ o. o) lists-Regular (λ key iv. map suc) (λ key iv. lower)
      toy-Cipher 5 5 plain (73 ∷ 106 ∷ []) [] [] password refl (omega arith) (omega arith) refl

do_crypt_copies_example :
    Returns (λ o. o) (do_crypt lists toy 5 plain (33 ∷ []) (negsuc 0) none) success (33 ∷ plain)
do_crypt_copies_example =
    do_crypt_copies lists toy (λ i. i) (λ o. o) lists-Regular (λ key iv. map suc) (λ key iv. lower)
      toy-Cipher 5 plain (33 ∷ []) 0 none (omega arith)

do_crypt_bad_text_example :
    (bytes : List ℕ) × Returns
      (λ o. o)
      (do_crypt lists toy 5 (73 ∷ 0 ∷ []) [] (pos 0) (some password))
      failure
      bytes
unfolding lower
do_crypt_bad_text_example =
    do_crypt_bad_text lists toy (λ i. i) (λ o. o) lists-Regular (λ key iv. map suc)
      (λ key iv. lower) toy-Cipher 5 (73 ∷ 0 ∷ []) [] password refl (omega arith) refl

-- A full disk, and an engine whose end is one byte.
abbrev full : Streams (List ℕ) (List ℕ)
full = record {
  fread = λ i. (head_of i, tail_of i);
  fwrite = λ o b. (0, o);
  unset_cleanup = λ i o. none;
}

abbrev padding : Evp Bool
padding = record {
  bytes_to_key = λ text. (pos (length text), text, []);
  cipher_init = λ key iv action. true;
  cipher_update = λ c block. some (c, block);
  cipher_final = λ c. some (16 ∷ []);
}

-- A disk with one file, "a".
abbrev path_a : List ℕ
path_a = 97 ∷ []

abbrev path_b : List ℕ
path_b = 97 ∷ 46 ∷ []

abbrev one_file : Disk
one_file = put (λ p. none) path_a (some plain)

tool_round_trip_example :
    (w1 w2 : Disk) × (aes_main disk lists toy 9
        (option_e ∷ password ∷ path_a ∷ path_b ∷ [])
        one_file
      ≡ some (exit_success, w1))
    × (w1 path_b ≡ some (73 ∷ 106 ∷ []))
    × (aes_main disk lists toy 9 (option_d ∷ password ∷ path_b ∷ path_a ∷ []) w1
        ≡ some (exit_success, w2))
    × (w2 path_a ≡ some plain)
unfolding same
tool_round_trip_example =
    tool_round_trip disk lists toy (λ i. i) (λ o. o) (λ w p. w p) disk-Lawful lists-Regular
      (λ key iv. map suc) (λ key iv. lower) toy-Cipher password refl 9 9 one_file path_a path_b
      path_a plain refl (λ h. cc) (λ h. cc) (omega arith) (omega arith)
