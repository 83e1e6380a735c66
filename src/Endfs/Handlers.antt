-- ===== src/Endfs/Handlers.antt =====
-- lab5/pa5-endfs.c: the handlers that encrypt, `xmp_open`, `xmp_create`, `xmp_release` and
-- `xmp_setxattr`, and the loop of `xmp_readdir`.
use model_lib.Prelude.{ℕ, ◌*◌, Bool, List, [], ◌∷◌, if◌then◌else◌}
use model_lib.Prelude.Int.{ℤ, pos, negsuc, ◌-ℤ◌, ltb_ℤ, eq_ℤ}
use model_lib.Prelude.Text.{Text, same}
use model_lib.Crypt.{Evp}
use model_lib.Endfs.{
  FilePath, on_path, on_file, open_file, close, getxattr, setxattr, lsetxattr, Reply, or_errno,
  Headers,
}
use model_lib.Endfs.Sealed.{
  Effect, ok, and_then, Host, Context, place, attribute, crypt_text, crypt_in_place,
}

-- "decrypted.e" and "encrypted.e".
abbrev pub decrypted : FilePath
decrypted = 100 ∷ 101 ∷ 99 ∷ 114 ∷ 121 ∷ 112 ∷ 116 ∷ 101 ∷ 100 ∷ 46 ∷ 101 ∷ []

abbrev pub encrypted : FilePath
encrypted = 101 ∷ 110 ∷ 99 ∷ 114 ∷ 121 ∷ 112 ∷ 116 ∷ 101 ∷ 100 ∷ 46 ∷ 101 ∷ []

-- "23847659273", and "e".
abbrev pub master : Text
master = 50 ∷ 51 ∷ 56 ∷ 52 ∷ 55 ∷ 54 ∷ 53 ∷ 57 ∷ 50 ∷ 55 ∷ 51 ∷ []

abbrev letter_e : Text
letter_e = 101 ∷ []

-- What the local arrays of a handler hold at first, as texts.
pub record Junk : Type 0 where
  pub lst : Text
  pub key : Text

module _ {W In Out Ctx : Type 0} (host : Host W In Out) (evp : Evp Ctx) (headers : Headers)
    (context : Context) where
  -- Where the attribute of the user is there, the file goes through `do_crypt` with the key that comes
  -- out of the text in `lst`. The second `getxattr` has the size 0 and stores nothing in it.
  unfoldable pub crypt_marked : ℕ → W → FilePath → FilePath → ℤ → Junk → Effect W
  crypt_marked fuel w path temporary action junk =
      let (xsize, w1) = host.sys w (
        on_path (getxattr (attribute host evp headers context w) 0)
          (place host evp headers context path)) in
      let (again, w2) = host.sys w1 (
        on_path (getxattr (attribute host evp headers context w) 0)
          (place host evp headers context path)) in
      let run =
        and_then (crypt_text host evp headers context fuel w2 junk.lst junk.key (pos 0)) (λ r.
          crypt_in_place host evp headers context fuel r.1 (place host evp headers context path)
            (place host evp headers context temporary) action r.0) in
      if ltb_ℤ xsize.result (pos 0) then ok w1 else run

  unfoldable pub xmp_open : ℕ → W → FilePath → ℕ → Junk → Effect (Reply × W)
  xmp_open fuel w path flags junk =
      and_then (crypt_marked fuel w path decrypted (pos 0) junk) (λ w1.
        let (res, w2) =
          host.sys w1 (on_path (open_file flags 0) (place host evp headers context path)) in
        let (closed, w3) = host.sys w2 (on_file close res.result) in
        if eq_ℤ res.result (negsuc 0)
        then ok (record { code = pos 0 -ℤ pos res.errno; buffer = [] }, w2)
        else ok (record { code = pos 0; buffer = [] }, w3))

  unfoldable pub xmp_release : ℕ → W → FilePath → Junk → Effect (Reply × W)
  xmp_release fuel w path junk =
      and_then (crypt_marked fuel w path encrypted (pos 1) junk)
        (λ w1. ok (record { code = pos 0; buffer = [] }, w1))

  -- `creat` is `open` with `o_creat`, O_CREAT | O_WRONLY | O_TRUNC.
  unfoldable pub xmp_create : ℕ → ℕ → W → FilePath → ℕ → Junk → Effect (Reply × W)
  xmp_create o_creat fuel w path mode junk =
      let (res, w1) =
        host.sys w (on_path (open_file o_creat mode) (place host evp headers context path)) in
      let (closed, w2) = host.sys w1 (on_file close res.result) in
      let run = and_then (crypt_text host evp headers context fuel w2 master junk.key (pos 1)) (λ r.
        let (set, w3) = host.sys r.1 (
          on_path (setxattr (attribute host evp headers context r.1) r.0 0)
            (place host evp headers context path)) in
        ok (record { code = pos 0; buffer = [] }, w3)) in
      if eq_ℤ res.result (negsuc 0)
      then ok (record { code = pos 0 -ℤ pos res.errno; buffer = [] }, w1)
      else run

  -- `value` is the text that begins there, and `bytes` are its first `size` bytes.
  unfoldable xmp_setxattr : ℕ → W → FilePath → Text → Text → List ℕ → ℕ → Junk → Effect (Reply × W)
  xmp_setxattr fuel w path name value bytes flags junk =
      let (res, w1) =
        host.sys w (on_path (lsetxattr name bytes flags) (place host evp headers context path)) in
      let run = and_then (crypt_text host evp headers context fuel w master junk.key (pos 1)) (λ r.
        let (set, w3) =
          host.sys r.1 (on_path (lsetxattr name r.0 0) (place host evp headers context path)) in
        ok (record { code = pos 0; buffer = [] }, w3)) in
      if same letter_e value
      then run
      else ok (record { code = or_errno res (pos 0); buffer = [] }, w1)

-- An entry of a directory, as `readdir` gives it.
record Entry : Type 0 where
  d_name : Text
  d_ino : ℕ
  d_type : ℕ

data Listing : Type 0 where
  refused : ℕ → Listing
  entries : List Entry → Listing

module _ {D : Type 0} (filler : D → Text → ℕ → ℕ → Bool × D) where
  -- The loop over the entries; `filler` takes a name, a number and a mode, and ends it where it gives
  -- a result other than 0.
  unfoldable fill_entries : List Entry → D → D
  fill_entries [] buf = buf
  fill_entries (e ∷ rest) buf =
      let (stops, buf') = filler buf e.d_name e.d_ino (e.d_type * 4096) in
      let more = fill_entries rest buf' in if stops then buf' else more

  -- `opendir` gives `errno` where it fails, and here the entries that `readdir` will give.
  unfoldable xmp_readdir : (FilePath → Listing) → FilePath → D → ℤ × D
  xmp_readdir opendir fpath buf = elim (opendir fpath) [
    | refused errno ↦ (pos 0 -ℤ pos errno, buf)
    | entries es ↦ (pos 0, fill_entries es buf)
  ]
