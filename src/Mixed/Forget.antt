-- ===== src/Mixed/Forget.antt =====
-- lab4/mixed.c against lab4/rw.c.
use model_lib.Prelude.{
  ℕ, zero, suc, ◌≡◌, refl, sym, Bool, Option, none, some, List, [], ◌∷◌, arith, take, if◌then◌else◌,
}
use model_lib.Prelude.Int.{ℤ, pos, ltb_ℤ}
use model_lib.Pi.{Double, Generator, no_samples}
use model_lib.Transfer.{
  Name, Checked, ok, exits, Settings, Files, Totals, no_totals, transfer_block, transfer,
  close_files, copy_files, settings, rw_main, output_filename,
}
use model_lib.Mixed.{
  Run, goes, fails, bad_iterations, undefined, mixed_settings, round_iterations, State, mixed_block,
  mixed_loop, mixed_end, mixed_copy, mixed_main,
}

-- A run of rw.c as one of mixed.c, and what the two have in common of a value.
abbrev pub as_run : {A : Type 0} → Checked A → Run A
as_run (ok a) = goes a
as_run (exits e) = fails e

abbrev pub over : {A B : Type 0} → (A → B) → Run A → Run B
over f (goes a) = goes (f a)
over f (fails e) = fails e
over f bad_iterations = bad_iterations
over f undefined = undefined

abbrev pub over? : {A B : Type 0} → (A → B) → Option A → Option B
over? f none = none
over? f (some a) = some (f a)

abbrev pub copied : {W F R : Type 0} → State W F R → W × Totals
copied st = (st.files, st.totals)

abbrev pub without_code : {W : Type 0} → ℤ × W × Totals → W × Totals
without_code (code, w, t) = (w, t)

mixed_settings_lem :
    (atol : Name → ℤ) (argv : List Name) → mixed_settings atol argv ≡ settings atol (take 2 argv)
unfolding mixed_settings settings
mixed_settings_lem atol [] = refl
mixed_settings_lem atol (a ∷ []) = refl
mixed_settings_lem atol (a ∷ b ∷ rest) = refl

module _ {W F R : Type 0} (files : Files W) (double : Double F) (generator : Generator R)
    (atol : Name → ℤ) (argv : List Name) (n : ℕ) (given : round_iterations atol argv ≡ goes n) where
  block-forget :
      (s : Settings) (st : State W F R)
      → over copied (mixed_block files double generator atol argv s st)
        ≡ as_run (transfer_block files s st.files st.totals)
  unfolding mixed_block transfer_block
  block-forget s st = rw (mixed_block, transfer_block, given) (ground arith)

  -- What each loop does behind its body.
  abbrev mixed_next : ℕ → Settings → Run (State W F R) → Option (Run (State W F R))
  mixed_next fuel s (fails e) = some (fails e)
  mixed_next fuel s bad_iterations = some bad_iterations
  mixed_next fuel s undefined = some undefined
  mixed_next fuel s (goes st) =
      if ltb_ℤ st.totals.bytes_written s.transfersize
      then mixed_loop files double generator fuel atol argv s st
      else some (goes st)

  abbrev rw_next : ℕ → Settings → Checked (W × Totals) → Option (Checked (W × Totals))
  rw_next fuel s (exits e) = some (exits e)
  rw_next fuel s (ok (w, t)) =
      if ltb_ℤ t.bytes_written s.transfersize then transfer files fuel s w t else some (ok (w, t))

  next-forget :
      (fuel : ℕ) (s : Settings) (x : Run (State W F R)) (y : Checked (W × Totals))
      → over copied x ≡ as_run y
      → ((st : State W F R)
          → over? (over copied) (mixed_loop files double generator fuel atol argv s st)
            ≡ over? as_run (transfer files fuel s st.files st.totals))
      → over? (over copied) (mixed_next fuel s x) ≡ over? as_run (rw_next fuel s y)
  next-forget fuel s (goes st) (ok (w, t)) e later = ground (arith, later st)
  next-forget fuel s (goes st) (exits err) e later = cc
  next-forget fuel s (fails err) (ok (w, t)) e later = cc
  next-forget fuel s (fails err) (exits err') e later = cc
  next-forget fuel s bad_iterations (ok (w, t)) e later = cc
  next-forget fuel s bad_iterations (exits err) e later = cc
  next-forget fuel s undefined (ok (w, t)) e later = cc
  next-forget fuel s undefined (exits err) e later = cc

  loop-forget :
      (fuel : ℕ) (s : Settings) (st : State W F R)
      → over? (over copied) (mixed_loop files double generator fuel atol argv s st)
        ≡ over? as_run (transfer files fuel s st.files st.totals)
  unfolding mixed_loop transfer
  loop-forget zero s st = refl
  loop-forget (suc fuel) s st =
      next-forget fuel s (mixed_block files double generator atol argv s st)
        (transfer_block files s st.files st.totals) (block-forget s st) (loop-forget fuel s)

  -- What each program does behind its loop.
  abbrev mixed_rest : Option (Run (State W F R)) → Option (Run (ℤ × W × Totals))
  mixed_rest none = none
  mixed_rest (some (fails e)) = some (fails e)
  mixed_rest (some bad_iterations) = some bad_iterations
  mixed_rest (some undefined) = some undefined
  mixed_rest (some (goes st)) = some (mixed_end files double generator st)

  abbrev rw_rest : Option (Checked (W × Totals)) → Option (Checked (W × Totals))
  rw_rest none = none
  rw_rest (some (exits e)) = some (exits e)
  rw_rest (some (ok (w, t))) = some (close_files files w t)

  end-forget :
      (st : State W F R)
      → over without_code (mixed_end files double generator st)
        ≡ as_run (close_files files st.files st.totals)
  unfolding mixed_end
  end-forget st = ground arith

  rest-forget :
      (x : Option (Run (State W F R))) (y : Option (Checked (W × Totals)))
      → over? (over copied) x ≡ over? as_run y
      → over? (over without_code) (mixed_rest x) ≡ over? as_run (rw_rest y)
  rest-forget none none e = refl
  rest-forget none (some y) e = cc
  rest-forget (some (goes st)) none e = cc
  rest-forget (some (goes st)) (some (ok (w, t))) e = ground (arith, end-forget st)
  rest-forget (some (goes st)) (some (exits err)) e = cc
  rest-forget (some (fails err)) none e = cc
  rest-forget (some (fails err)) (some (ok (w, t))) e = cc
  rest-forget (some (fails err)) (some (exits err')) e = cc
  rest-forget (some bad_iterations) none e = cc
  rest-forget (some bad_iterations) (some (ok (w, t))) e = cc
  rest-forget (some bad_iterations) (some (exits err)) e = cc
  rest-forget (some undefined) none e = cc
  rest-forget (some undefined) (some (ok (w, t))) e = cc
  rest-forget (some undefined) (some (exits err)) e = cc

  copy-forget :
      (fuel : ℕ) (malloc : Bool) (pid : Name) (s : Settings) (w : W) (r : R)
      → over?
          (over without_code)
          (mixed_copy files double generator fuel atol malloc pid argv s w r)
        ≡ over? as_run (copy_files files fuel malloc pid s w)
  unfolding mixed_copy copy_files
  copy-forget fuel malloc pid s w r =
      elim (output_filename s.output_filename_base pid)
          as (λ x.
            x ≡ output_filename s.output_filename_base pid
            → over? (over without_code)
                (mixed_copy files double generator fuel atol malloc pid argv s w r)
              ≡ over? as_run (copy_files files fuel malloc pid s w)) [
                | exits err ↦ λ e. rw (mixed_copy, copy_files, sym e) (ground arith)
                | ok name ↦ λ e.
                    rw (mixed_copy, copy_files, sym e)
                      (ground (
                        arith,
                        rest-forget
                            (mixed_loop files double generator fuel atol argv s (record {
                              files =
                                  (files.open_output (files.open_input w s.input_filename).1
                                    name).1;
                              totals = no_totals;
                              samples = no_samples double generator r;
                              pi = double.of_int (pos 0);
                            }))
                            (transfer files fuel s
                              (files.open_output (files.open_input w s.input_filename).1 name).1
                              no_totals)
                            (loop-forget fuel s _),
                      ))
              ]
        refl

  -- Where no argument is given, or the third is a number of iterations that is accepted: `main` of
  -- mixed.c does to the files what `main` of rw.c does with the first two arguments, in every case. It
  -- fails with the same message, runs out of the same fuel, or ends in the same state of the files with
  -- the same totals.
  pub mixed_as_rw :
      (fuel : ℕ) (malloc : Bool) (pid : Name) (w : W) (r : R)
      → over? (over without_code) (mixed_main files double generator fuel atol malloc pid argv w r)
        ≡ over? as_run (rw_main files fuel atol malloc pid (take 2 argv) w)
  unfolding mixed_main rw_main
  mixed_as_rw fuel malloc pid w r =
      rw (mixed_main, rw_main, mixed_settings_lem atol argv) (go (settings atol (take 2 argv)))
    where
      go :
          (x : Checked Settings)
          → over? (over without_code) (elim x as (λ z. Option (Run (ℤ × W × Totals))) [
            | exits e ↦ some (fails e)
            | ok s ↦ mixed_copy files double generator fuel atol malloc pid argv s w r
          ])
            ≡ over? as_run (elim x as (λ z. Option (Checked (W × Totals))) [
              | exits e ↦ some (exits e)
              | ok s ↦ copy_files files fuel malloc pid s w
            ])
      go (exits e) = refl
      go (ok s) = copy-forget fuel malloc pid s w r
