-- ===== src/Endfs/Tests.antt =====
-- The theorems on lab5/pa5-endfs.c with a system whose world is the log of its calls and its only
-- descriptor.
use model_lib.Prelude.{
  arith, ℕ, ◌≡◌, refl, ap, Bool, true, false, List, [], ◌∷◌, length, length-append, if◌then◌else◌,
}
use model_lib.Prelude.Int.{ℤ, pos, negsuc, eq_ℤ, ltb_ℤ}
use model_lib.Endfs.{
  FilePath, Call, Answer, on_path, on_file, open_file, close, Headers, serve, read_of, PathCall,
}
use model_lib.Endfs.Confined.{Clean, Inside, serve_confined}
use model_lib.Endfs.Descriptors.{Tracks, is_open, serve_closes}

record World : Type 0 where
  calls : List Call
  three : Bool  -- whether the descriptor 3 is open, the only one there is

abbrev opens : World → ℤ → Bool
opens w x = if eq_ℤ x (pos 3) then w.three else false

abbrev result_of_call : Call → Bool → ℤ
result_of_call (on_path (open_file flags mode) p) true = negsuc 0
result_of_call c b = pos 3

abbrev after : Call → Bool → Bool
after (on_path (open_file flags mode) p) b = true
after (on_file close fd) b = if eq_ℤ fd (pos 3) then false else b
after c b = b

abbrev system : World → Call → Answer × World
system w c = (
  record { result = result_of_call c w.three; errno = 0; bytes = [] },
  record { calls = c ∷ w.calls; three = after c w.three },
)

abbrev headers : Headers
headers = record {
  o_rdonly = 0;
  o_wronly = 1;
  o_creat_excl_wronly = 193;
  s_isreg = λ mode. true;
  s_isfifo = λ mode. false;
}

abbrev mirror : FilePath
mirror = 47 ∷ 109 ∷ []

-- The log has calls inside the mirrored directory only.
data Confined : List Call → Type 0 where
  none_yet : Confined []
  one_more : (c : Call) (cs : List Call) → Inside mirror c → Confined cs → Confined (c ∷ cs)

abbrev quiet : World
quiet = record { calls = []; three = false }

name_f-Clean : Clean (47 ∷ 102 ∷ [])
name_f-Clean = record {
  slash = (102 ∷ [], refl);
  no_dots = λ before rest e.
      absurd (omega (arith, ap length e, length-append before (47 ∷ 46 ∷ 46 ∷ rest)));
}

serve_confined_example :
    Confined (serve system headers mirror quiet (read_of (47 ∷ 102 ∷ []) 10 (pos 0))).1.calls
serve_confined_example =
    serve_confined system headers mirror (λ w. Confined w.calls)
      (λ w c inside good. one_more c w.calls inside good) quiet (read_of (47 ∷ 102 ∷ []) 10 (pos 0))
      name_f-Clean none_yet

other_call :
    (c : PathCall) (p : FilePath) (b : Bool) → is_open c ≡ false → after (on_path c p) b ≡ b
other_call c p b e = ground arith

refused :
    (flags mode : ℕ) (p : FilePath) (b : Bool)
    → ltb_ℤ (result_of_call (on_path (open_file flags mode) p) b) (pos 0) ≡ true
    → b ≡ true
refused flags mode p true e = refl
refused flags mode p false e = cc

given :
    (flags mode : ℕ) (p : FilePath) (b : Bool)
    → ltb_ℤ (result_of_call (on_path (open_file flags mode) p) b) (pos 0) ≡ false
    → b ≡ false
given flags mode p true e = cc
given flags mode p false e = refl

system-Tracks : Tracks system opens
system-Tracks = record {
  other_path =
      λ w c p e x. ap (λ b. if eq_ℤ x (pos 3) then b else false) (other_call c p w.three e);
  pair = λ w c p q x. refl;
  failed = λ w flags mode p e. rw (refused flags mode p w.three e) (refl, λ x. refl);
  opened = λ w flags mode p e. rw (given flags mode p w.three e) (refl, λ x h. ground arith);
  read_same = λ w n at fd x. refl;
  write_same = λ w b at fd x. refl;
  closed = λ w fd. ground arith;
  close_same = λ w fd x e. ground arith;
}

serve_closes_example :
    opens (serve system headers mirror quiet (read_of (47 ∷ 102 ∷ []) 10 (pos 0))).1 (pos 3) ≡ false
serve_closes_example =
    serve_closes system headers mirror opens system-Tracks quiet
      (read_of (47 ∷ 102 ∷ []) 10 (pos 0)) (pos 3)
