-- ===== src/Endfs.antt =====
-- lab5/pa5-endfs.c: the FUSE handlers over a mirrored directory that make one request of the system
-- below. Those that encrypt, and `xmp_readdir`, are in Handlers.
pub mod Confined
pub mod Descriptors
pub mod Sealed
pub mod Handlers
pub mod Runs
pub mod Keys
pub mod Unset
pub mod Created
mod Tests
mod SealedTests
use model_lib.Prelude.{ℕ, ◌-◌, ◌/◌, Bool, List, [], ◌∷◌, ◌++◌, if◌then◌else◌}
use model_lib.Prelude.Int.{ℤ, pos, negsuc, ◌-ℤ◌, ltb_ℤ, eq_ℤ}

abbrev pub FilePath : Type 0
FilePath = List ℕ

-- The system calls on one path, with their other arguments.
pub data PathCall : Type 0 where
  lstat : PathCall
  access : ℕ → PathCall
  readlink : ℕ → PathCall
  open_file : ℕ → ℕ → PathCall  -- flags and mode
  mkfifo : ℕ → PathCall
  mknod : ℕ → ℕ → PathCall
  mkdir : ℕ → PathCall
  unlink : PathCall
  rmdir : PathCall
  chmod : ℕ → PathCall
  lchown : ℕ → ℕ → PathCall
  truncate : ℤ → PathCall
  utimes : ℤ → ℕ → ℤ → ℕ → PathCall
  statvfs : PathCall
  lsetxattr : List ℕ → List ℕ → ℕ → PathCall
  lgetxattr : List ℕ → ℕ → PathCall
  llistxattr : ℕ → PathCall
  lremovexattr : List ℕ → PathCall
  getxattr : List ℕ → ℕ → PathCall
  setxattr : List ℕ → List ℕ → ℕ → PathCall

pub data PairCall : Type 0 where
  symlink : PairCall
  rename : PairCall
  link : PairCall

pub data FileCall : Type 0 where
  pread : ℕ → ℤ → FileCall
  pwrite : List ℕ → ℤ → FileCall
  close : FileCall

pub data Call : Type 0 where
  on_path : PathCall → FilePath → Call
  on_pair : PairCall → FilePath → FilePath → Call
  on_file : FileCall → ℤ → Call

-- What a call gives: its result, `errno`, and the bytes that it stores.
pub record Answer : Type 0 where
  pub result : ℤ
  pub errno : ℕ
  pub bytes : List ℕ

-- What a handler gives to FUSE: its result and the bytes in the caller's buffer.
pub record Reply : Type 0 where
  pub code : ℤ
  pub buffer : List ℕ

-- `if (res == -1) return -errno`, before `code`.
abbrev pub or_errno : Answer → ℤ → ℤ
or_errno a code = if eq_ℤ a.result (negsuc 0) then pos 0 -ℤ pos a.errno else code

-- The flags and the tests of a mode that the system's headers define.
pub record Headers : Type 0 where
  pub o_rdonly : ℕ
  pub o_wronly : ℕ
  pub o_creat_excl_wronly : ℕ
  pub s_isreg : ℕ → Bool
  pub s_isfifo : ℕ → Bool

module _ {W : Type 0} (sys : W → Call → Answer × W) (headers : Headers) (mirrordir : FilePath) where
  unfoldable pub xmp_getpath : FilePath → FilePath
  xmp_getpath path = mirrordir ++ path

  -- A call on the mirrored path that the handler answers with 0 or `-errno`.
  unfoldable pub status_of : W → PathCall → FilePath → Reply × W
  status_of w call path =
      let (a, w') = sys w (on_path call (xmp_getpath path)) in
      (record { code = or_errno a (pos 0); buffer = a.bytes }, w')

  -- The same with the result of the call for 0.
  unfoldable pub result_of : W → PathCall → FilePath → Reply × W
  result_of w call path =
      let (a, w') = sys w (on_path call (xmp_getpath path)) in
      (record { code = or_errno a a.result; buffer = a.bytes }, w')

  unfoldable pub xmp_getattr : W → FilePath → Reply × W
  xmp_getattr w path = status_of w lstat path

  unfoldable pub xmp_access : W → FilePath → ℕ → Reply × W
  xmp_access w path mask = status_of w (access mask) path

  -- The text is ended with a 0 byte, and one byte is kept for it.
  unfoldable pub xmp_readlink : W → FilePath → ℕ → Reply × W
  xmp_readlink w path size =
      let (a, w') = sys w (on_path (readlink (size - 1)) (xmp_getpath path)) in
      (
        record {
          code = or_errno a (pos 0);
          buffer = if eq_ℤ a.result (negsuc 0) then a.bytes else a.bytes ++ (0 ∷ []);
        },
        w',
      )

  unfoldable pub xmp_mknod : W → FilePath → ℕ → ℕ → Reply × W
  xmp_mknod w path mode rdev =
      let (a, w') =
        sys w (on_path (open_file headers.o_creat_excl_wronly mode) (xmp_getpath path)) in
      let (b, w'') = sys w' (on_file close a.result) in
      if headers.s_isreg mode
      then (if ltb_ℤ a.result (pos 0)
          then (record { code = or_errno a (pos 0); buffer = [] }, w')
          else (record { code = or_errno b (pos 0); buffer = [] }, w''))
      else (if headers.s_isfifo mode
          then status_of w (mkfifo mode) path
          else status_of w (mknod mode rdev) path)

  unfoldable pub xmp_mkdir : W → FilePath → ℕ → Reply × W
  xmp_mkdir w path mode = status_of w (mkdir mode) path

  unfoldable pub xmp_unlink : W → FilePath → Reply × W
  xmp_unlink w path = status_of w unlink path

  unfoldable pub xmp_rmdir : W → FilePath → Reply × W
  xmp_rmdir w path = status_of w rmdir path

  -- These three use the paths as they come.
  unfoldable pub xmp_symlink : W → FilePath → FilePath → Reply × W
  xmp_symlink w from to =
      let (a, w') = sys w (on_pair symlink from to) in
      (record { code = or_errno a (pos 0); buffer = [] }, w')

  unfoldable pub xmp_rename : W → FilePath → FilePath → Reply × W
  xmp_rename w from to =
      let (a, w') = sys w (on_pair rename from to) in
      (record { code = or_errno a (pos 0); buffer = [] }, w')

  unfoldable pub xmp_link : W → FilePath → FilePath → Reply × W
  xmp_link w from to =
      let (a, w') = sys w (on_pair link from to) in
      (record { code = or_errno a (pos 0); buffer = [] }, w')

  unfoldable pub xmp_chmod : W → FilePath → ℕ → Reply × W
  xmp_chmod w path mode = status_of w (chmod mode) path

  unfoldable pub xmp_chown : W → FilePath → ℕ → ℕ → Reply × W
  xmp_chown w path uid gid = status_of w (lchown uid gid) path

  unfoldable pub xmp_truncate : W → FilePath → ℤ → Reply × W
  xmp_truncate w path size = status_of w (truncate size) path

  -- Seconds and nanoseconds of two times; the call takes microseconds.
  unfoldable pub xmp_utimens : W → FilePath → ℤ → ℕ → ℤ → ℕ → Reply × W
  xmp_utimens w path sec nsec sec' nsec' =
      status_of w (utimes sec (nsec / 1000) sec' (nsec' / 1000)) path

  unfoldable pub xmp_statfs : W → FilePath → Reply × W
  xmp_statfs w path = status_of w statvfs path

  unfoldable pub xmp_read : W → FilePath → ℕ → ℤ → Reply × W
  xmp_read w path size offset =
      let (fd, w1) = sys w (on_path (open_file headers.o_rdonly 0) (xmp_getpath path)) in
      let (a, w2) = sys w1 (on_file (pread size offset) fd.result) in
      let (b, w3) = sys w2 (on_file close fd.result) in
      if eq_ℤ fd.result (negsuc 0)
      then (record { code = pos 0 -ℤ pos fd.errno; buffer = [] }, w1)
      else (record { code = or_errno a a.result; buffer = a.bytes }, w3)

  unfoldable pub xmp_write : W → FilePath → List ℕ → ℤ → Reply × W
  xmp_write w path buf offset =
      let (fd, w1) = sys w (on_path (open_file headers.o_wronly 0) (xmp_getpath path)) in
      let (a, w2) = sys w1 (on_file (pwrite buf offset) fd.result) in
      let (b, w3) = sys w2 (on_file close fd.result) in
      if eq_ℤ fd.result (negsuc 0)
      then (record { code = pos 0 -ℤ pos fd.errno; buffer = [] }, w1)
      else (record { code = or_errno a a.result; buffer = [] }, w3)

  unfoldable pub xmp_fsync : W → Reply × W
  xmp_fsync w = (record { code = pos 0; buffer = [] }, w)

  unfoldable pub xmp_getxattr : W → FilePath → List ℕ → ℕ → Reply × W
  xmp_getxattr w path name size = result_of w (lgetxattr name size) path

  unfoldable pub xmp_listxattr : W → FilePath → ℕ → Reply × W
  xmp_listxattr w path size = result_of w (llistxattr size) path

  unfoldable pub xmp_removexattr : W → FilePath → List ℕ → Reply × W
  xmp_removexattr w path name = status_of w (lremovexattr name) path

-- What FUSE asks of the handlers above.
pub data Request : Type 0 where
  getattr_of : FilePath → Request
  access_of : FilePath → ℕ → Request
  readlink_of : FilePath → ℕ → Request
  mknod_of : FilePath → ℕ → ℕ → Request
  mkdir_of : FilePath → ℕ → Request
  unlink_of : FilePath → Request
  rmdir_of : FilePath → Request
  symlink_of : FilePath → FilePath → Request
  rename_of : FilePath → FilePath → Request
  link_of : FilePath → FilePath → Request
  chmod_of : FilePath → ℕ → Request
  chown_of : FilePath → ℕ → ℕ → Request
  truncate_of : FilePath → ℤ → Request
  utimens_of : FilePath → ℤ → ℕ → ℤ → ℕ → Request
  statfs_of : FilePath → Request
  read_of : FilePath → ℕ → ℤ → Request
  write_of : FilePath → List ℕ → ℤ → Request
  fsync_of : Request
  getxattr_of : FilePath → List ℕ → ℕ → Request
  listxattr_of : FilePath → ℕ → Request
  removexattr_of : FilePath → List ℕ → Request

-- `xmp_oper`, but for `readdir`, `open`, `create`, `release` and `setxattr`, which are in Handlers.
unfoldable pub serve :
    {W : Type 0} → (W → Call → Answer × W) → Headers → FilePath → W → Request → Reply × W
serve sys h m w (getattr_of p) = xmp_getattr sys h m w p
serve sys h m w (access_of p mask) = xmp_access sys h m w p mask
serve sys h m w (readlink_of p size) = xmp_readlink sys h m w p size
serve sys h m w (mknod_of p mode rdev) = xmp_mknod sys h m w p mode rdev
serve sys h m w (mkdir_of p mode) = xmp_mkdir sys h m w p mode
serve sys h m w (unlink_of p) = xmp_unlink sys h m w p
serve sys h m w (rmdir_of p) = xmp_rmdir sys h m w p
serve sys h m w (symlink_of p q) = xmp_symlink sys h m w p q
serve sys h m w (rename_of p q) = xmp_rename sys h m w p q
serve sys h m w (link_of p q) = xmp_link sys h m w p q
serve sys h m w (chmod_of p mode) = xmp_chmod sys h m w p mode
serve sys h m w (chown_of p uid gid) = xmp_chown sys h m w p uid gid
serve sys h m w (truncate_of p size) = xmp_truncate sys h m w p size
serve sys h m w (utimens_of p s n s' n') = xmp_utimens sys h m w p s n s' n'
serve sys h m w (statfs_of p) = xmp_statfs sys h m w p
serve sys h m w (read_of p size offset) = xmp_read sys h m w p size offset
serve sys h m w (write_of p buf offset) = xmp_write sys h m w p buf offset
serve sys h m w fsync_of = xmp_fsync sys h m w
serve sys h m w (getxattr_of p name size) = xmp_getxattr sys h m w p name size
serve sys h m w (listxattr_of p size) = xmp_listxattr sys h m w p size
serve sys h m w (removexattr_of p name) = xmp_removexattr sys h m w p name
