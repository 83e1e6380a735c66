-- ===== src/Crypt/Disk.antt =====
-- Files as a function from their paths, for the runs of the programs on them.
use model_lib.Prelude.{
  ℕ, ◌≡◌, ◌≢◌, refl, sym, ap, true, false, Bool, Option, none, some, List, [], if◌then◌else◌,
  Bool-cases, inl, inr,
}
use model_lib.Prelude.Text.{Text, same, same_self, same_eq}
use model_lib.Crypt.Files.{Stdio, Lawful}

abbrev pub Disk : Type 0
Disk = Text → Option (List ℕ)

abbrev pub put : Disk → Text → Option (List ℕ) → Disk
put w p v q = if same p q then v else w q

abbrev pub or_empty : Option (List ℕ) → List ℕ
or_empty none = []
or_empty (some bytes) = bytes

abbrev pub is_some : Option (List ℕ) → Bool
is_some none = false
is_some (some bytes) = true

abbrev pub disk : Stdio Disk (List ℕ) (List ℕ)
disk = record {
  open_read = λ w p. is_some (w p);
  open_write = λ w p. (true, put w p (some []));
  reader = λ w p. or_empty (w p);
  writer = λ w p. or_empty (w p);
  close = λ w p o. put w p (some o);
  remove = λ w p. put w p none;
}

put_self : (w : Disk) (p : Text) (v : Option (List ℕ)) → put w p v p ≡ v
put_self w p v = rw (same_self p) refl

put_ne : (w : Disk) (p q : Text) (v : Option (List ℕ)) → q ≢ p → put w p v q ≡ w q
put_ne w p q v ne = elim (Bool-cases (same p q)) [
  | inl e ↦ absurd (ne (sym (same_eq p q e)))
  | inr e ↦ rw e refl
]

pub disk-Lawful : Lawful disk (λ i. i) (λ o. o) (λ w p. w p)
disk-Lawful = record {
  can_read = λ w p bytes e. ap is_some e;
  read = λ w p bytes e. ap or_empty e;
  can_write = λ w p. refl;
  emptied = λ w p. put_self w p (some []);
  open_keeps = λ w p q ne. put_ne w p q (some []) ne;
  write = λ w p e. ap or_empty e;
  closed = λ w p o. put_self w p (some o);
  close_keeps = λ w p q o ne. put_ne w p q (some o) ne;
  removed = λ w p. put_self w p none;
  remove_keeps = λ w p q ne. put_ne w p q none ne;
}
