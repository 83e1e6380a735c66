-- ===== src/Transfer/Arguments.antt =====
-- The arguments that lab4/rw.c goes on with.
use model_lib.Prelude.{
  ℕ, ◌+◌, ◌%◌, ◌<◌, ◌≤◌, ◌≡◌, refl, ap, Bool, true, false, not, Option, none, some, List, arith,
  length, ltb, ◌==◌, leb, min, if◌then◌else◌, get_elem?,
}
use model_lib.Prelude.Int.{ℤ, pos, pos_part, neg_part, ltb_ℤ, negsuc}
use model_lib.Transfer.{
  Name, Error, Checked, ok, exits, Settings, settings, and_then, default_transfersize,
  default_blocksize, default_output_filename_base, bad_transfersize, bad_blocksize,
  input_name_too_long, output_base_too_long, blocksize_exceeds, not_a_multiple, size_argument,
  name_argument, sizes_match, max_filename_length, default_input_filename,
}

-- What the program goes on with.
pub record Accepted (s : Settings) : Type 0 where
  pub natural : neg_part s.blocksize + neg_part s.transfersize ≡ 0
  pub some_block : 1 ≤ pos_part s.blocksize
  pub whole : pos_part s.transfersize % pos_part s.blocksize ≡ 0
  pub one_block : pos_part s.blocksize ≤ pos_part s.transfersize
  pub input_fits : length s.input_filename < max_filename_length
  pub base_fits : length s.output_filename_base < max_filename_length

and_then-ok :
    {A B : Type 0} (x : Checked A) (f : A → Checked B) (b : B)
    → and_then x f ≡ ok b
    → (a : A) × (x ≡ ok a) × (f a ≡ ok b)
unfolding and_then
and_then-ok (ok a) f b e = (a, refl, e)
and_then-ok (exits err) f b e = absurd cc

if-ok :
    {A : Type 0} (test : Bool) (err : Error) (a b : A)
    → ◌≡◌ {A = Checked A} (if test then exits err else ok a) (ok b)
    → (test ≡ false) × (a ≡ b)
if-ok true err a b e = absurd cc
if-ok false err a b e = (refl, cc)

size_argument_lem :
    (atol : Name → ℤ) (argument : Option Name) (default : ℤ) (e : Error) (size : ℤ)
    → 1 ≤ pos_part default
    → neg_part default ≡ 0
    → size_argument atol argument default e ≡ ok size
    → (1 ≤ pos_part size) × (neg_part size ≡ 0)
unfolding size_argument
size_argument_lem atol none default err size h k e = ground arith
size_argument_lem atol (some text) default err size h k e =
    let (positive, same) = if-ok (ltb_ℤ (atol text) (pos 1)) err (atol text) size e in
    rw (← same) (sign (atol text) positive)
  where
    sign : (a : ℤ) → ltb_ℤ a (pos 1) ≡ false → (1 ≤ pos_part a) × (neg_part a ≡ 0)
    sign (pos a) below = ground arith
    sign (negsuc a) below = ground arith

name_argument_lem :
    (argument : Option Name) (default : Name) (err : Error) (name : Name)
    → name_argument argument default err ≡ ok name
    → length name < max_filename_length
unfolding name_argument
name_argument_lem none default err name e =
    let (below, same) =
      if-ok (leb max_filename_length (min (length default) max_filename_length)) err default name
        e in
    rw (← same) (ground arith)
name_argument_lem (some text) default err name e =
    let (below, same) =
      if-ok (leb max_filename_length (min (length text) max_filename_length)) err text name e in
    rw (← same) (ground arith)

sizes_match_lem :
    (s s' : Settings)
    → sizes_match s ≡ ok s'
    → (pos_part s'.transfersize % pos_part s'.blocksize ≡ 0)
      × (ltb_ℤ s'.transfersize s'.blocksize ≡ false)
      × (s ≡ s')
unfolding sizes_match
sizes_match_lem s s' e = go (ltb_ℤ s.transfersize s.blocksize) refl e
  where
    go :
        (test : Bool)
        → ltb_ℤ s.transfersize s.blocksize ≡ test
        → ◌≡◌ {A = Checked Settings}
            (if test
              then exits blocksize_exceeds
              else if not (pos_part s.transfersize % pos_part s.blocksize == 0)
              then exits not_a_multiple
              else ok s)
            (ok s')
        → (pos_part s'.transfersize % pos_part s'.blocksize ≡ 0)
          × (ltb_ℤ s'.transfersize s'.blocksize ≡ false)
          × (s ≡ s')
    go true h f = absurd cc
    go false h f =
        let (whole, same) =
          if-ok (not (pos_part s.transfersize % pos_part s.blocksize == 0)) not_a_multiple s s' f in
        (rw (← same) (ground (arith, whole)), rw (← same) h, same)

-- Whatever `atol` gives, the program goes on only with a block size of at least 1 that divides the
-- transfer size and does not exceed it, and with two names of less than 80 bytes.
pub settings-Accepted :
    (atol : Name → ℤ) (argv : List Name) (s : Settings) → settings atol argv ≡ ok s → Accepted s
unfolding settings
settings-Accepted atol argv s e =
    let (t, ht, e1) =
      and_then-ok (size_argument atol (get_elem? argv 0) default_transfersize bad_transfersize) _ s
        e in
    let (b, hb, e2) =
      and_then-ok (size_argument atol (get_elem? argv 1) default_blocksize bad_blocksize) _ s e1 in
    let (i, hi, e3) =
      and_then-ok (name_argument (get_elem? argv 2) default_input_filename input_name_too_long) _ s
        e2 in
    let (o, ho, e4) =
      and_then-ok
        (name_argument (get_elem? argv 3) default_output_filename_base output_base_too_long) _ s
        e3 in
    let (t1, t2) =
      size_argument_lem atol (get_elem? argv 0) default_transfersize bad_transfersize t
        (omega arith) refl ht in
    let (b1, b2) =
      size_argument_lem atol (get_elem? argv 1) default_blocksize bad_blocksize b (omega arith) refl
        hb in
    let (whole, one, same) = sizes_match_lem _ s e4 in
    record {
      natural =
          omega (arith, t2, b2, ap (λ x. neg_part x.blocksize + neg_part x.transfersize) same);
      some_block = omega (arith, b1, ap (λ x. pos_part x.blocksize) same);
      whole = whole;
      one_block =
          ground
            (arith, one, t2, b2, ap (λ x. neg_part x.blocksize + neg_part x.transfersize) same);
      input_fits = omega (
        arith,
        name_argument_lem (get_elem? argv 2) default_input_filename input_name_too_long i hi,
        ap (λ x. length x.input_filename) same,
      );
      base_fits = omega (
        arith,
        name_argument_lem (get_elem? argv 3) default_output_filename_base output_base_too_long o ho,
        ap (λ x. length x.output_filename_base) same,
      );
    }

ltb_above : (n k : ℕ) → n < k → ltb n k ≡ true
ltb_above n k h = ground arith

ltb_below : (n k : ℕ) → k ≤ n → ltb n k ≡ false
ltb_below n k h = ground arith
