-- ===== src/Loading.antt =====
-- filter/ngx_http_brotli_filter_module.c: the loading of dictionaries when the configuration is
-- parsed, and what it calls: the file system and the pool.
pub mod Hex
pub mod Read
pub mod Walk
pub mod Load
pub mod Split
pub mod Safe
pub mod Trusted
pub mod Reaches
pub mod Digits
pub mod Reads
pub mod Accepts
pub mod Parse
pub mod Records
pub mod Orders
pub mod Listed
pub mod Keys
pub mod Located
pub mod Usable
pub mod Tests
use ngx_brotli.Base.{ℕ, Bool, true, false, Bytes, List, Option, none, some}

-- A read(2): a failure, an interruption (EINTR), or the bytes that were put into the buffer, none at
-- the end of the file.
pub data Reading : Type 0 where
  failed interrupted : Reading
  got : Bytes → Reading

-- What fstat(2) says of a directory.
pub record DirInfo : Type 0 where
  pub uid : ℕ
  pub mode : ℕ

-- `ngx_file_info_t`.
pub record FdInfo : Type 0 where
  pub uid : ℕ
  pub mode : ℕ
  pub is_file : Bool
  pub size : ℕ

-- The calls, over types of open directories and of open files; `none` is a failure. `open_root` opens
-- "/", `open_dir` is openat(2) with O_DIRECTORY and O_NOFOLLOW, `open_leaf` with O_NOFOLLOW, and
-- `open_file` is `ngx_open_file`. `max_path` is NGX_MAX_PATH. The last three fields say whether each
-- allocation succeeds.
pub record System (D F : Type 0) : Type 0 where
  pub euid : ℕ
  pub max_path : ℕ
  pub full_name : Bytes → Option Bytes
  pub open_root : Option D
  pub open_dir : D → Bytes → Option D
  pub open_leaf : D → Bytes → Option F
  pub dir_info : D → Option DirInfo
  pub open_file : Bytes → Option F
  pub fd_info : F → Option FdInfo
  pub clear_nonblock : F → F
  pub read_fd : F → ℕ → Reading × F
  pub close_file : F → Bool
  pub evp : Bytes → Option Bytes
  pub array_created : Bool
  pub dict_pushed : Bool
  pub bytes_allocated : Bool

-- What a directive leads to: it is refused, it is accepted with a value, or its fuel ends.
pub data Result (A : Type 0) : Type 0 where
  refused unfinished : Result A
  accepted : A → Result A

-- The guards of the directive, one behind the other.
abbrev pub check : {A : Type 0} → Bool → Result A → Result A
check true x = x
check false x = refused

abbrev pub need : {A B : Type 0} → Option A → (A → Result B) → Result B
need none f = refused
need (some a) f = f a

abbrev pub behind : {A B : Type 0} → Result A → (A → Result B) → Result B
behind refused f = refused
behind unfinished f = unfinished
behind (accepted a) f = f a
