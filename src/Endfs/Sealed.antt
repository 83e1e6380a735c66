-- ===== src/Endfs/Sealed.antt =====
-- lab5/pa5-endfs.c: what the handlers that encrypt share. A file is encrypted in place by way of a
-- temporary file, and a key goes through `do_crypt` with the user's key by way of two others.
use model_lib.Prelude.{ℕ, Option, none, some, List, [], ◌∷◌, ◌&&◌, if◌then◌else◌}
use model_lib.Prelude.Int.{ℤ, negsuc}
use model_lib.Prelude.Text.{Text, until_nul}
use model_lib.Crypt.{Streams, Evp}
use model_lib.Crypt.Files.{Stdio, crypt_files}
use model_lib.Endfs.{FilePath, Call, Answer, Headers, xmp_getpath}

-- What a part of a handler comes to: a value, a call on a FILE that is NULL, which is undefined, or no
-- fuel for `do_crypt`.
pub data Effect (A : Type 0) : Type 0 where
  ok : A → Effect A
  crash : Effect A
  out_of_fuel : Effect A

unfoldable pub and_then : {A B : Type 0} → Effect A → (A → Effect B) → Effect B
and_then (ok a) f = f a
and_then crash f = crash
and_then out_of_fuel f = out_of_fuel

-- The system: its calls, `fopen` and its kind, `fprintf(file, "%s", text)`, `fgets(line, size, file)`,
-- which stores nothing at the end of the file, and the text of `getuid()`.
pub record Host (W In Out : Type 0) : Type 0 where
  pub sys : W → Call → Answer × W
  pub stdio : Stdio W In Out
  pub streams : Streams In Out
  pub fprintf : Out → Text → Out
  pub fgets : ℕ → In → Option (List ℕ)
  pub uid : W → Text

-- `userkey` and `mirrordir` of the context.
pub record Context : Type 0 where
  pub userkey : Text
  pub mirrordir : FilePath

-- "infile.txt" and "outfile.e".
abbrev pub infile : FilePath
infile = 105 ∷ 110 ∷ 102 ∷ 105 ∷ 108 ∷ 101 ∷ 46 ∷ 116 ∷ 120 ∷ 116 ∷ []

abbrev pub outfile : FilePath
outfile = 111 ∷ 117 ∷ 116 ∷ 102 ∷ 105 ∷ 108 ∷ 101 ∷ 46 ∷ 101 ∷ []

-- The size of the buffers of keys.
abbrev pub line_size : ℕ
line_size = 4096

module _ {W In Out Ctx : Type 0} (host : Host W In Out) (evp : Evp Ctx) (headers : Headers)
    (context : Context) where
  abbrev pub place : FilePath → FilePath
  place path = xmp_getpath host.sys headers context.mirrordir path

  -- "user." and the number of the user.
  unfoldable pub attribute : W → Text
  attribute w = 117 ∷ 115 ∷ 101 ∷ 114 ∷ 46 ∷ host.uid w

  -- `fprintf` of a text to a file just opened for writing, and `fclose`.
  unfoldable pub write_text : W → FilePath → Text → W
  write_text w p text = host.stdio.close w p (host.fprintf (host.stdio.writer w p) text)

  -- `fopen`, `fgets` and `fclose`: the text in the buffer `line`, which holds `junk` before.
  unfoldable pub read_line : W → FilePath → Text → Effect Text
  read_line w p junk =
      if host.stdio.open_read w p
      then (elim (host.fgets line_size (host.stdio.reader w p)) [
        | none ↦ ok junk
        | some line ↦ ok (until_nul line)
      ])
      else crash

  -- `do_crypt` on two files that are open, and `fclose` of both. Its result is not looked at.
  unfoldable pub run_crypt : ℕ → W → FilePath → FilePath → ℤ → Text → Effect W
  run_crypt fuel w from to action key =
      elim (crypt_files host.stdio host.streams evp fuel w from to action (some key)) [
        | none ↦ out_of_fuel
        | some (code, w') ↦ ok w'
      ]

  -- The two files are opened before.
  unfoldable pub crypt_paths : ℕ → W → FilePath → FilePath → ℤ → Text → Effect W
  crypt_paths fuel w from to action key =
      let (opens, w') = host.stdio.open_write w to in
      let run = run_crypt fuel w' from to action key in
      if host.stdio.open_read w from && opens then run else crash

  -- A text through `do_crypt` by way of the files `infile` and `outfile`, whose first line comes out;
  -- `junk` is what the buffer holds where there is no line. Both files are removed.
  unfoldable pub crypt_text : ℕ → W → Text → Text → ℤ → Effect (Text × W)
  crypt_text fuel w text junk action =
      let (opens_in, w1) = host.stdio.open_write w (place infile) in
      let (opens_out, w2) = host.stdio.open_write w1 (place outfile) in
      let w3 = write_text w2 (place infile) text in
      let run = run_crypt fuel w3 (place infile) (place outfile) action context.userkey in
      if opens_in && (opens_out && host.stdio.open_read w3 (place infile))
      then and_then run (λ w4. and_then (read_line w4 (place outfile) junk) (λ line.
        ok (line, host.stdio.remove (host.stdio.remove w4 (place infile)) (place outfile))))
      else crash

  -- The file at `fpath` through `do_crypt`, by way of the file at `dpath`, which is removed.
  unfoldable pub crypt_in_place : ℕ → W → FilePath → FilePath → ℤ → Text → Effect W
  crypt_in_place fuel w fpath dpath action key =
      and_then (crypt_paths fuel w fpath dpath action key) (λ w1.
        and_then (crypt_paths fuel w1 dpath fpath (negsuc 0) key)
          (λ w2. ok (host.stdio.remove w2 dpath)))
