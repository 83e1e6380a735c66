-- ===== src/Endfs/Descriptors.antt =====
-- The descriptors that are open before and after a handler of lab5/pa5-endfs.c, of those in Endfs.
use model_lib.Prelude.{
  ℕ, ◌≡◌, refl, ◌∙◌, sym, ap, arith, Bool, true, false, List, Bool-cases, inl, inr,
}
use model_lib.Prelude.Int.{ℤ, ltb_ℤ, eq_ℤ, pos, negsuc}
use model_lib.Endfs.{
  FilePath, PathCall, PairCall, Call, on_path, on_pair, on_file, Answer, Headers, Request, serve,
  xmp_getpath, status_of, result_of, xmp_getattr, xmp_access, xmp_readlink, xmp_mknod, xmp_mkdir,
  xmp_unlink, xmp_rmdir, xmp_symlink, xmp_rename, xmp_link, xmp_chmod, xmp_chown, xmp_truncate,
  xmp_utimens, xmp_statfs, xmp_read, xmp_write, xmp_fsync, xmp_getxattr, xmp_listxattr,
  xmp_removexattr, open_file, mkfifo, mknod, pread, pwrite, close, getattr_of, access_of,
  readlink_of, mknod_of, mkdir_of, unlink_of, rmdir_of, symlink_of, rename_of, link_of, chmod_of,
  chown_of, truncate_of, utimens_of, statfs_of, read_of, write_of, fsync_of, getxattr_of,
  listxattr_of, removexattr_of,
}

abbrev pub is_open : PathCall → Bool
is_open (open_file flags mode) = true
is_open _ = false

-- Which descriptors are open, by the documentation of the calls: `open` gives -1, or a descriptor that
-- was not open, and `close` closes the one that it is given.
pub record Tracks {W : Type 0} (sys : W → Call → Answer × W) (opens : W → ℤ → Bool) : Type 0 where
  pub other_path :
      (w : W) (c : PathCall) (p : FilePath)
      → is_open c ≡ false
      → (x : ℤ) → opens (sys w (on_path c p)).1 x ≡ opens w x
  pub pair :
      (w : W) (c : PairCall) (p q : FilePath) (x : ℤ)
      → opens (sys w (on_pair c p q)).1 x ≡ opens w x
  pub failed :
      (w : W) (flags mode : ℕ) (p : FilePath)
      → ltb_ℤ (sys w (on_path (open_file flags mode) p)).0.result (pos 0) ≡ true
      → ((sys w (on_path (open_file flags mode) p)).0.result ≡ negsuc 0)
        × ((x : ℤ) → opens (sys w (on_path (open_file flags mode) p)).1 x ≡ opens w x)
  pub opened :
      (w : W) (flags mode : ℕ) (p : FilePath)
      → ltb_ℤ (sys w (on_path (open_file flags mode) p)).0.result (pos 0) ≡ false
      → (opens w (sys w (on_path (open_file flags mode) p)).0.result ≡ false)
        × ((x : ℤ)
            → eq_ℤ x (sys w (on_path (open_file flags mode) p)).0.result ≡ false
            → opens (sys w (on_path (open_file flags mode) p)).1 x ≡ opens w x)
  pub read_same :
      (w : W) (n : ℕ) (at fd x : ℤ) → opens (sys w (on_file (pread n at) fd)).1 x ≡ opens w x
  pub write_same :
      (w : W) (b : List ℕ) (at fd x : ℤ) → opens (sys w (on_file (pwrite b at) fd)).1 x ≡ opens w x
  pub closed : (w : W) (fd : ℤ) → opens (sys w (on_file close fd)).1 fd ≡ false
  pub close_same :
      (w : W) (fd x : ℤ) → eq_ℤ x fd ≡ false → opens (sys w (on_file close fd)).1 x ≡ opens w x

minus_one : (z : ℤ) → eq_ℤ z (negsuc 0) ≡ true → ltb_ℤ z (pos 0) ≡ true
minus_one z h = ground arith

eq_ℤ-eq : (x y : ℤ) → eq_ℤ x y ≡ true → x ≡ y
eq_ℤ-eq x y h = ground arith

not_minus_one : (z : ℤ) → eq_ℤ z (negsuc 0) ≡ false → z ≡ negsuc 0 → ltb_ℤ z (pos 0) ≡ false
not_minus_one z h e = absurd (ground (arith, h, e))

module _ {W : Type 0} (sys : W → Call → Answer × W) (headers : Headers) (mirrordir : FilePath)
    (opens : W → ℤ → Bool) (tracks : Tracks sys opens) where
  abbrev opening : W → ℕ → ℕ → FilePath → Answer × W
  opening w flags mode p =
      sys w (on_path (open_file flags mode) (xmp_getpath sys headers mirrordir p))

  -- `fd == -1` and `fd < 0` come to the same.
  descriptor :
      (w : W) (flags mode : ℕ) (p : FilePath)
      → eq_ℤ (opening w flags mode p).0.result (negsuc 0) ≡ false
      → ltb_ℤ (opening w flags mode p).0.result (pos 0) ≡ false
  descriptor w flags mode p h =
      elim (Bool-cases (ltb_ℤ (opening w flags mode p).0.result (pos 0))) [
        | inl below ↦
            not_minus_one _ h
              (tracks.failed w flags mode (xmp_getpath sys headers mirrordir p) below).0
        | inr above ↦ above
      ]

  -- The close of a descriptor, with only steps that keep all others open or closed since it was opened.
  closes :
      (w v : W) (flags mode : ℕ) (p : FilePath)
      → ltb_ℤ (opening w flags mode p).0.result (pos 0) ≡ false
      → ((x : ℤ) → opens v x ≡ opens (opening w flags mode p).1 x)
      → (x : ℤ) → opens (sys v (on_file close (opening w flags mode p).0.result)).1 x ≡ opens w x
  closes w v flags mode p above same x =
      let (new, others) = tracks.opened w flags mode (xmp_getpath sys headers mirrordir p) above in
      elim (Bool-cases (eq_ℤ x (opening w flags mode p).0.result)) [
        | inl here ↦
            ap (λ z. opens (sys v (on_file close (opening w flags mode p).0.result)).1 z)
              (eq_ℤ-eq x (opening w flags mode p).0.result here)
            ∙ tracks.closed v (opening w flags mode p).0.result
            ∙ sym new
            ∙ ap (opens w) (sym (eq_ℤ-eq x (opening w flags mode p).0.result here))
        | inr away ↦
            tracks.close_same v (opening w flags mode p).0.result x away ∙ same x ∙ others x away
      ]

  read_closes :
      (w : W) (p : FilePath) (size : ℕ) (offset : ℤ) (x : ℤ)
      → opens (xmp_read sys headers mirrordir w p size offset).1 x ≡ opens w x
  unfolding xmp_read
  read_closes w p size offset x =
      elim (Bool-cases (eq_ℤ (opening w headers.o_rdonly 0 p).0.result (negsuc 0))) [
        | inl fails ↦
            rw (xmp_read, fails)
              ((tracks.failed w headers.o_rdonly 0 _
                  (minus_one (opening w headers.o_rdonly 0 p).0.result fails)).1
                x)
        | inr opens_it ↦
            rw (xmp_read, opens_it)
              (closes w
                (sys (opening w headers.o_rdonly 0 p).1
                  (on_file (pread size offset) (opening w headers.o_rdonly 0 p).0.result)).1
                headers.o_rdonly 0 p (descriptor w headers.o_rdonly 0 p opens_it)
                (tracks.read_same (opening w headers.o_rdonly 0 p).1 size offset
                  (opening w headers.o_rdonly 0 p).0.result)
                x)
      ]

  write_closes :
      (w : W) (p : FilePath) (buf : List ℕ) (offset : ℤ) (x : ℤ)
      → opens (xmp_write sys headers mirrordir w p buf offset).1 x ≡ opens w x
  unfolding xmp_write
  write_closes w p buf offset x =
      elim (Bool-cases (eq_ℤ (opening w headers.o_wronly 0 p).0.result (negsuc 0))) [
        | inl fails ↦
            rw (xmp_write, fails)
              ((tracks.failed w headers.o_wronly 0 _
                  (minus_one (opening w headers.o_wronly 0 p).0.result fails)).1
                x)
        | inr opens_it ↦
            rw (xmp_write, opens_it)
              (closes w
                (sys (opening w headers.o_wronly 0 p).1
                  (on_file (pwrite buf offset) (opening w headers.o_wronly 0 p).0.result)).1
                headers.o_wronly 0 p (descriptor w headers.o_wronly 0 p opens_it)
                (tracks.write_same (opening w headers.o_wronly 0 p).1 buf offset
                  (opening w headers.o_wronly 0 p).0.result)
                x)
      ]

  mknod_closes :
      (w : W) (p : FilePath) (mode rdev : ℕ) (x : ℤ)
      → opens (xmp_mknod sys headers mirrordir w p mode rdev).1 x ≡ opens w x
  unfolding xmp_mknod status_of
  mknod_closes w p mode rdev x = elim (Bool-cases (headers.s_isreg mode)) [
    | inl regular ↦
        elim (Bool-cases (ltb_ℤ (opening w headers.o_creat_excl_wronly mode p).0.result (pos 0))) [
          | inl fails ↦
              rw (xmp_mknod, regular, fails)
                ((tracks.failed w headers.o_creat_excl_wronly mode _ fails).1 x)
          | inr opens_it ↦
              rw (xmp_mknod, regular, opens_it)
                (closes w (opening w headers.o_creat_excl_wronly mode p).1
                  headers.o_creat_excl_wronly mode p opens_it (λ y. refl) x)
        ]
    | inr special ↦ elim (Bool-cases (headers.s_isfifo mode)) [
      | inl fifo ↦ rw (xmp_mknod, special, fifo) (tracks.other_path w (mkfifo mode) _ refl x)
      | inr device ↦
          rw (xmp_mknod, special, device) (tracks.other_path w (mknod mode rdev) _ refl x)
    ]
  ]

  -- Every handler that `serve` calls leaves the same descriptors open as there were, on its error paths
  -- too.
  pub serve_closes :
      (w : W) (r : Request) (x : ℤ) → opens (serve sys headers mirrordir w r).1 x ≡ opens w x
  unfolding serve status_of result_of xmp_getattr xmp_access xmp_readlink xmp_mkdir xmp_unlink
      xmp_rmdir xmp_symlink xmp_rename xmp_link xmp_chmod xmp_chown xmp_truncate xmp_utimens
      xmp_statfs xmp_fsync xmp_getxattr xmp_listxattr xmp_removexattr
  serve_closes w (getattr_of p) x = tracks.other_path w _ _ refl x
  serve_closes w (access_of p mask) x = tracks.other_path w _ _ refl x
  serve_closes w (readlink_of p size) x = tracks.other_path w _ _ refl x
  serve_closes w (mknod_of p mode rdev) x = mknod_closes w p mode rdev x
  serve_closes w (mkdir_of p mode) x = tracks.other_path w _ _ refl x
  serve_closes w (unlink_of p) x = tracks.other_path w _ _ refl x
  serve_closes w (rmdir_of p) x = tracks.other_path w _ _ refl x
  serve_closes w (symlink_of p q) x = tracks.pair w _ p q x
  serve_closes w (rename_of p q) x = tracks.pair w _ p q x
  serve_closes w (link_of p q) x = tracks.pair w _ p q x
  serve_closes w (chmod_of p mode) x = tracks.other_path w _ _ refl x
  serve_closes w (chown_of p uid gid) x = tracks.other_path w _ _ refl x
  serve_closes w (truncate_of p size) x = tracks.other_path w _ _ refl x
  serve_closes w (utimens_of p s n s' n') x = tracks.other_path w _ _ refl x
  serve_closes w (statfs_of p) x = tracks.other_path w _ _ refl x
  serve_closes w (read_of p size offset) x = read_closes w p size offset x
  serve_closes w (write_of p buf offset) x = write_closes w p buf offset x
  serve_closes w fsync_of x = refl
  serve_closes w (getxattr_of p name size) x = tracks.other_path w _ _ refl x
  serve_closes w (listxattr_of p size) x = tracks.other_path w _ _ refl x
  serve_closes w (removexattr_of p name) x = tracks.other_path w _ _ refl x
