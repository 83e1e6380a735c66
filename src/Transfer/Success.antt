-- ===== src/Transfer/Success.antt =====
-- What the success of lab4/rw.c tells, whatever the system calls do.
use model_lib.Prelude.{
  ℕ, zero, suc, ◌≡◌, refl, sym, ◌∙◌, ap, Bool, true, false, not, Option, none, some, List,
  if◌then◌else◌,
}
use model_lib.Prelude.Int.{ℤ, pos, ltb_ℤ, eq_ℤ}
use model_lib.Transfer.Arguments.{Accepted, settings-Accepted}
use model_lib.Transfer.{
  Name, Settings, settings, Files, Totals, no_totals, Checked, ok, exits, Error, transfer_block,
  transfer, close_files, copy_files, rw_main, output_filename, output_not_closed, input_not_closed,
  no_buffer, input_not_opened, output_not_opened,
}

-- A test that ends the program was not met.
unless :
    {A : Type 0} (test : Bool) (err : Error) (run : Option (Checked A)) (a : A)
    → ◌≡◌ {A = Option (Checked A)} (if test then some (exits err) else run) (some (ok a))
    → run ≡ some (ok a)
unless true err run a e = absurd cc
unless false err run a e = e

exits_ne :
    {A : Type 0} {err : Error} {a : A}
    → ¬ (◌≡◌ {A = Option (Checked A)} (some (exits err)) (some (ok a)))
exits_ne e = cc

module _ {W : Type 0} (files : Files W) where
  -- The test of the loop after a round.
  after : ℕ → Settings → Checked (W × Totals) → Option (Checked (W × Totals))
  after fuel s (exits e) = some (exits e)
  after fuel s (ok (w, t)) =
      if ltb_ℤ t.bytes_written s.transfersize then transfer files fuel s w t else some (ok (w, t))

  transfer-after :
      (fuel : ℕ) (s : Settings) (w : W) (t : Totals)
      → transfer files (suc fuel) s w t ≡ after fuel s (transfer_block files s w t)
  unfolding transfer after
  transfer-after fuel s w t = go (transfer_block files s w t) refl
    where
      go :
          (x : Checked (W × Totals))
          → transfer_block files s w t ≡ x
          → transfer files (suc fuel) s w t ≡ after fuel s x
      go (exits err) e = rw (transfer, e) refl
      go (ok (w', t')) e = rw (transfer, e) refl

  Written : Settings → Option (Checked (W × Totals)) → Type 0
  Written s run =
      (w : W) (t : Totals) → run ≡ some (ok (w, t)) → ltb_ℤ t.bytes_written s.transfersize ≡ false

  same_totals :
      (w w' : W) (t t' : Totals)
      → ◌≡◌ {A = Option (Checked (W × Totals))} (some (ok (w, t))) (some (ok (w', t')))
      → t ≡ t'
  same_totals w w' t t' e = cc

  after-Written :
      (fuel : ℕ) (s : Settings)
      → ((w : W) (t : Totals) → Written s (transfer files fuel s w t))
      → (x : Checked (W × Totals)) → Written s (after fuel s x)
  unfolding after Written
  after-Written fuel s again (exits e) w t f = absurd cc
  after-Written fuel s again (ok (w', t')) w t f = go (ltb_ℤ t'.bytes_written s.transfersize) refl f
    where
      go :
          (test : Bool)
          → ltb_ℤ t'.bytes_written s.transfersize ≡ test
          → ◌≡◌ {A = Option (Checked (W × Totals))}
              (if test then transfer files fuel s w' t' else some (ok (w', t')))
              (some (ok (w, t)))
          → ltb_ℤ t.bytes_written s.transfersize ≡ false
      go true h g = again w' t' w t g
      go false h g =
          ap (λ x. ltb_ℤ x.bytes_written s.transfersize) (sym (same_totals w' w t' t g)) ∙ h

  transfer-Written :
      (fuel : ℕ) (s : Settings) (w : W) (t : Totals) → Written s (transfer files fuel s w t)
  unfolding transfer Written
  transfer-Written zero s w t w' t' e = absurd cc
  transfer-Written (suc fuel) s w t w' t' e =
      after-Written fuel s (transfer-Written fuel s) (transfer_block files s w t) w' t'
        (sym (transfer-after fuel s w t) ∙ e)

  close_same :
      (w w' : W) (t t' : Totals)
      → ◌≡◌ {A = Option (Checked (W × Totals))} (some (close_files files w t)) (some (ok (w', t')))
      → t ≡ t'
  unfolding close_files
  close_same w w' t t' e =
      go (not (eq_ℤ (files.close_output w).0 (pos 0)))
        (not (eq_ℤ (files.close_input (files.close_output w).1).0 (pos 0))) e
    where
      go :
          (a b : Bool)
          → ◌≡◌ {A = Option (Checked (W × Totals))}
              (some (
                if a
                then exits output_not_closed
                else if b
                then exits input_not_closed
                else ok ((files.close_input (files.close_output w).1).1, t)))
              (some (ok (w', t')))
          → t ≡ t'
      go true b f = absurd cc
      go false true f = absurd cc
      go false false f = same_totals _ w' t t' f

  -- What follows the loop.
  closing : Option (Checked (W × Totals)) → Option (Checked (W × Totals))
  closing none = none
  closing (some (exits e)) = some (exits e)
  closing (some (ok (w, t))) = some (close_files files w t)

  closing-Written :
      (s : Settings) (run : Option (Checked (W × Totals))) → Written s run → Written s (closing run)
  unfolding closing Written
  closing-Written s none h w t e = absurd cc
  closing-Written s (some (exits err)) h w t e = absurd cc
  closing-Written s (some (ok (w', t'))) h w t e =
      ap (λ x. ltb_ℤ x.bytes_written s.transfersize) (sym (close_same w' w t' t e)) ∙ h w' t' refl

  -- The output file is opened and the loop runs.
  opening : ℕ → Settings → W → Checked Name → Option (Checked (W × Totals))
  opening fuel s w (exits e) = some (exits e)
  opening fuel s w (ok name) =
      if ltb_ℤ (files.open_output w name).0 (pos 0)
      then some (exits output_not_opened)
      else closing (transfer files fuel s (files.open_output w name).1 no_totals)

  opening-Written :
      (fuel : ℕ) (s : Settings) (w : W) (x : Checked Name) → Written s (opening fuel s w x)
  unfolding opening Written
  opening-Written fuel s w (exits err) w' t e = absurd cc
  opening-Written fuel s w (ok name) w' t e =
      closing-Written s (transfer files fuel s (files.open_output w name).1 no_totals)
        (transfer-Written fuel s (files.open_output w name).1 no_totals) w' t
        (unless (ltb_ℤ (files.open_output w name).0 (pos 0)) output_not_opened _ (w', t) e)

  copy-Written :
      (fuel : ℕ) (malloc : Bool) (pid : Name) (s : Settings) (w : W)
      → Written s (copy_files files fuel malloc pid s w)
  unfolding copy_files Written opening closing
  copy-Written fuel malloc pid s w w' t e =
      opening-Written fuel s (files.open_input w s.input_filename).1
        (output_filename s.output_filename_base pid) w' t
        (unless (ltb_ℤ (files.open_input w s.input_filename).0 (pos 0)) input_not_opened _ (w', t)
          (unless (not malloc) no_buffer _ (w', t) e))

  -- Whatever the system calls do, where the program ends with success its arguments were accepted and
  -- it has counted no less than `transfersize` bytes as written.
  pub rw_main_written :
      (fuel : ℕ) (atol : Name → ℤ) (malloc : Bool) (pid : Name) (argv : List Name) (w w' : W)
      (t : Totals)
      → rw_main files fuel atol malloc pid argv w ≡ some (ok (w', t))
      → (s : Settings) × (settings atol argv ≡ ok s)
        × Accepted s
        × (ltb_ℤ t.bytes_written s.transfersize ≡ false)
  unfolding rw_main Written
  rw_main_written fuel atol malloc pid argv w w' t e = go (settings atol argv) refl
    where
      go :
          (x : Checked Settings)
          → settings atol argv ≡ x
          → (s : Settings) × (settings atol argv ≡ ok s)
            × Accepted s
            × (ltb_ℤ t.bytes_written s.transfersize ≡ false)
      go (exits err) h = absurd (exits_ne {err = err} (sym (rw (rw_main, h) refl) ∙ e))
      go (ok s) h = (
        s,
        h,
        settings-Accepted atol argv s h,
        copy-Written fuel malloc pid s w w' t (sym (rw (rw_main, h) refl) ∙ e),
      )
