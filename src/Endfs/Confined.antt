-- ===== src/Endfs/Confined.antt =====
-- The paths that the handlers of lab5/pa5-endfs.c in Endfs give to the system, for clean paths from
-- FUSE.
use model_lib.Prelude.{ℕ, ◌≡◌, ◌≢◌, refl, List, ◌∷◌, ◌++◌, Bool-cases, inl, inr}
use model_lib.Prelude.Int.{ℤ, ltb_ℤ, eq_ℤ, pos, negsuc}
use model_lib.Endfs.{
  FilePath, PathCall, Call, on_path, on_file, Answer, Headers, Request, serve, xmp_getpath,
  status_of, result_of, xmp_getattr, xmp_access, xmp_readlink, xmp_mknod, xmp_mkdir, xmp_unlink,
  xmp_rmdir, xmp_chmod, xmp_chown, xmp_truncate, xmp_utimens, xmp_statfs, xmp_read, xmp_write,
  xmp_fsync, xmp_getxattr, xmp_listxattr, xmp_removexattr, open_file, mkfifo, mknod, pread, pwrite,
  close, getattr_of, access_of, readlink_of, mknod_of, mkdir_of, unlink_of, rmdir_of, symlink_of,
  rename_of, link_of, chmod_of, chown_of, truncate_of, utimens_of, statfs_of, read_of, write_of,
  fsync_of, getxattr_of, listxattr_of, removexattr_of,
}

-- A path as FUSE gives it: it begins with a slash, and no component of it is "..".
pub record Clean (path : FilePath) : Type 0 where
  pub slash : (rest : FilePath) × (path ≡ 47 ∷ rest)
  pub no_dots :
      (before after : FilePath)
      → path ≡ before ++ (47 ∷ 46 ∷ 46 ∷ after)
      → (b : ℕ) × (rest : FilePath) × (after ≡ b ∷ rest) × (b ≢ 47)

-- The mirrored directory with a clean path behind it.
abbrev pub Under : FilePath → FilePath → Type 0
Under mirrordir path = (p : FilePath) × Clean p × (path ≡ mirrordir ++ p)

-- The call is on such a path, or on a file that is open.
pub data Inside (mirrordir : FilePath) : Call → Type 0 where
  path_inside : {c : PathCall} {p : FilePath} → Under mirrordir p → Inside mirrordir (on_path c p)
  file_inside : {c : _} {fd : _} → Inside mirrordir (on_file c fd)

-- A request with one path, which is clean, or with none.
abbrev pub Single : Request → Type 0
Single (getattr_of p) = Clean p
Single (access_of p mask) = Clean p
Single (readlink_of p size) = Clean p
Single (mknod_of p mode rdev) = Clean p
Single (mkdir_of p mode) = Clean p
Single (unlink_of p) = Clean p
Single (rmdir_of p) = Clean p
Single (symlink_of p q) = ⊥
Single (rename_of p q) = ⊥
Single (link_of p q) = ⊥
Single (chmod_of p mode) = Clean p
Single (chown_of p uid gid) = Clean p
Single (truncate_of p size) = Clean p
Single (utimens_of p s n s' n') = Clean p
Single (statfs_of p) = Clean p
Single (read_of p size offset) = Clean p
Single (write_of p buf offset) = Clean p
Single fsync_of = Unit {0}
Single (getxattr_of p name size) = Clean p
Single (listxattr_of p size) = Clean p
Single (removexattr_of p name) = Clean p

module _ {W : Type 0} (sys : W → Call → Answer × W) (headers : Headers) (mirrordir : FilePath)
    (Good : W → Type 0)
    (kept : (w : W) (c : Call) → Inside mirrordir c → Good w → Good (sys w c).1) where
  mirrored :
      (w : W) (c : PathCall) (p : FilePath)
      → Clean p
      → Good w
      → Good (sys w (on_path c (xmp_getpath sys headers mirrordir p))).1
  unfolding xmp_getpath
  mirrored w c p clean g = kept w (on_path c (mirrordir ++ p)) (path_inside (p, clean, refl)) g

  opened_file : (w : W) (c : _) (fd : _) → Good w → Good (sys w (on_file c fd)).1
  opened_file w c fd g = kept w (on_file c fd) file_inside g

  abbrev opening : W → ℕ → ℕ → FilePath → Answer × W
  opening w flags mode p =
      sys w (on_path (open_file flags mode) (xmp_getpath sys headers mirrordir p))

  read_confined :
      (w : W) (p : FilePath) (size : ℕ) (offset : ℤ)
      → Clean p
      → Good w
      → Good (xmp_read sys headers mirrordir w p size offset).1
  unfolding xmp_read
  read_confined w p size offset clean g =
      elim (Bool-cases (eq_ℤ (opening w headers.o_rdonly 0 p).0.result (negsuc 0))) [
        | inl failed ↦ rw (xmp_read, failed) (mirrored w _ p clean g)
        | inr opened ↦
            rw (xmp_read, opened)
              (opened_file _ close _ (opened_file _ (pread size offset) _ (mirrored w _ p clean g)))
      ]

  write_confined :
      (w : W) (p : FilePath) (buf : List ℕ) (offset : ℤ)
      → Clean p
      → Good w
      → Good (xmp_write sys headers mirrordir w p buf offset).1
  unfolding xmp_write
  write_confined w p buf offset clean g =
      elim (Bool-cases (eq_ℤ (opening w headers.o_wronly 0 p).0.result (negsuc 0))) [
        | inl failed ↦ rw (xmp_write, failed) (mirrored w _ p clean g)
        | inr opened ↦
            rw (xmp_write, opened)
              (opened_file _ close _ (opened_file _ (pwrite buf offset) _ (mirrored w _ p clean g)))
      ]

  mknod_confined :
      (w : W) (p : FilePath) (mode rdev : ℕ)
      → Clean p
      → Good w
      → Good (xmp_mknod sys headers mirrordir w p mode rdev).1
  unfolding xmp_mknod status_of
  mknod_confined w p mode rdev clean g = elim (Bool-cases (headers.s_isreg mode)) [
    | inl regular ↦
        elim (Bool-cases (ltb_ℤ (opening w headers.o_creat_excl_wronly mode p).0.result (pos 0))) [
          | inl failed ↦ rw (xmp_mknod, regular, failed) (mirrored w _ p clean g)
          | inr opened ↦
              rw (xmp_mknod, regular, opened) (opened_file _ close _ (mirrored w _ p clean g))
        ]
    | inr special ↦ elim (Bool-cases (headers.s_isfifo mode)) [
      | inl fifo ↦ rw (xmp_mknod, special, fifo) (mirrored w (mkfifo mode) p clean g)
      | inr device ↦ rw (xmp_mknod, special, device) (mirrored w (mknod mode rdev) p clean g)
    ]
  ]

  -- A property of the world that is kept by every call on a file that is open, and on the mirrored
  -- directory with a clean path behind it, is kept by every handler that `serve` calls, where the
  -- request has one path, which is clean, or none.
  pub serve_confined :
      (w : W) (r : Request) → Single r → Good w → Good (serve sys headers mirrordir w r).1
  unfolding serve status_of result_of xmp_getattr xmp_access xmp_readlink xmp_mkdir xmp_unlink
      xmp_rmdir xmp_chmod xmp_chown xmp_truncate xmp_utimens xmp_statfs xmp_fsync xmp_getxattr
      xmp_listxattr xmp_removexattr
  serve_confined w (getattr_of p) one g = mirrored w _ p one g
  serve_confined w (access_of p mask) one g = mirrored w _ p one g
  serve_confined w (readlink_of p size) one g = mirrored w _ p one g
  serve_confined w (mknod_of p mode rdev) one g = mknod_confined w p mode rdev one g
  serve_confined w (mkdir_of p mode) one g = mirrored w _ p one g
  serve_confined w (unlink_of p) one g = mirrored w _ p one g
  serve_confined w (rmdir_of p) one g = mirrored w _ p one g
  serve_confined w (symlink_of p q) one g = absurd one
  serve_confined w (rename_of p q) one g = absurd one
  serve_confined w (link_of p q) one g = absurd one
  serve_confined w (chmod_of p mode) one g = mirrored w _ p one g
  serve_confined w (chown_of p uid gid) one g = mirrored w _ p one g
  serve_confined w (truncate_of p size) one g = mirrored w _ p one g
  serve_confined w (utimens_of p s n s' n') one g = mirrored w _ p one g
  serve_confined w (statfs_of p) one g = mirrored w _ p one g
  serve_confined w (read_of p size offset) one g = read_confined w p size offset one g
  serve_confined w (write_of p buf offset) one g = write_confined w p buf offset one g
  serve_confined w fsync_of one g = g
  serve_confined w (getxattr_of p name size) one g = mirrored w _ p one g
  serve_confined w (listxattr_of p size) one g = mirrored w _ p one g
  serve_confined w (removexattr_of p name) one g = mirrored w _ p one g
