-- ===== src/Sqerror.antt =====
-- src/sqerror.rs: the error kinds, and `Result` with its `?`. The texts that the kinds carry are
-- only logged, so they are left out.
pub data ErrorKind : Type 0 where
  sqlite_error fs_is_dir fs_is_not_dir fs_no_ent fs_not_empty fs_file_exist fs_parm undefined :
      ErrorKind

pub data Result {ℓ} (A : Type ℓ) : Type ℓ where
  ok : A → Result A
  err : ErrorKind → Result A

infixl 10 ◌>>=◌
abbrev pub ◌>>=◌ {ℓ κ} : {A : Type ℓ} {B : Type κ} → Result A → (A → Result B) → Result B
ok a >>= f = f a
err e >>= f = err e
