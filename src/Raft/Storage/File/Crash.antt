-- ===== src/Raft/Storage/File/Crash.antt =====
-- storage.rs: a crash in the middle of a save.
use Prim.Native.String.{String}
use macro_service.Prelude.{ℕ, zero, suc, ◌≡◌, ◌≢◌, refl, Bool, true, false, Option, none, some}
use macro_service.Raft.Storage.{PersistentData}
use macro_service.Raft.Storage.File.{
  FilePath, FileSystem, DataCodec, PersistentStorage, Result, ok, err, temp_path, load,
}

-- How many more calls the machine lives through: at `some zero` it crashes in the next one, and from
-- `none` on it does nothing any more.
abbrev pub Life : Type 0
Life = Option ℕ

-- A write in which the machine crashes leaves the text `torn` in its file, or has not begun.
module _ {F : Type 0} (fs : FileSystem F) (torn : Option String) where
  abbrev write_torn : FilePath → Option String → F → F
  write_torn p none f = f
  write_torn p (some text) f = (fs.write p text f).0

  abbrev lived : Life → F × Bool → (F × Life) × Bool
  lived l (f, done) = ((f, l), done)

  abbrev make_dir : FilePath → F × Life → (F × Life) × Bool
  make_dir p (f, none) = ((f, none), false)
  make_dir p (f, some zero) = ((f, none), false)
  make_dir p (f, some (suc k)) = lived (some k) (fs.create_dir_all p f)

  abbrev write_file : FilePath → String → F × Life → (F × Life) × Bool
  write_file p s (f, none) = ((f, none), false)
  write_file p s (f, some zero) = ((write_torn p torn f, none), false)
  write_file p s (f, some (suc k)) = lived (some k) (fs.write p s f)

  abbrev rename_file : FilePath → FilePath → F × Life → (F × Life) × Bool
  rename_file p q (f, none) = ((f, none), false)
  rename_file p q (f, some zero) = ((f, none), false)
  rename_file p q (f, some (suc k)) = lived (some k) (fs.rename p q f)

  pub exists-make_dir :
      (p q : FilePath) (f : F × Life) → fs.exists (make_dir p f).0.0 q ≡ fs.exists f.0 q
  exists-make_dir p q (f, none) = refl
  exists-make_dir p q (f, some zero) = refl
  exists-make_dir p q (f, some (suc k)) = fs.exists-create_dir_all p q f

  pub read-make_dir :
      (p q : FilePath) (f : F × Life)
      → fs.read_to_string (make_dir p f).0.0 q ≡ fs.read_to_string f.0 q
  read-make_dir p q (f, none) = refl
  read-make_dir p q (f, some zero) = refl
  read-make_dir p q (f, some (suc k)) = fs.read-create_dir_all p q f

  exists-write_torn :
      (p q : FilePath) (o : Option String) (f : F)
      → p ≢ q
      → fs.exists (write_torn p o f) q ≡ fs.exists f q
  exists-write_torn p q none f ne = refl
  exists-write_torn p q (some text) f ne = fs.exists-write p q text f ne

  read-write_torn :
      (p q : FilePath) (o : Option String) (f : F)
      → p ≢ q
      → fs.read_to_string (write_torn p o f) q ≡ fs.read_to_string f q
  read-write_torn p q none f ne = refl
  read-write_torn p q (some text) f ne = fs.read-write_ne p q text f ne

  pub exists-write_file :
      (p q : FilePath) (s : String) (f : F × Life)
      → p ≢ q
      → fs.exists (write_file p s f).0.0 q ≡ fs.exists f.0 q
  exists-write_file p q s (f, none) ne = refl
  exists-write_file p q s (f, some zero) ne = exists-write_torn p q torn f ne
  exists-write_file p q s (f, some (suc k)) ne = fs.exists-write p q s f ne

  pub read-write_file_ne :
      (p q : FilePath) (s : String) (f : F × Life)
      → p ≢ q
      → fs.read_to_string (write_file p s f).0.0 q ≡ fs.read_to_string f.0 q
  read-write_file_ne p q s (f, none) ne = refl
  read-write_file_ne p q s (f, some zero) ne = read-write_torn p q torn f ne
  read-write_file_ne p q s (f, some (suc k)) ne = fs.read-write_ne p q s f ne

  pub read-write_file :
      (p : FilePath) (s : String) (f : F × Life)
      → (write_file p s f).1 ≡ true
      → fs.read_to_string (write_file p s f).0.0 p ≡ some s
  read-write_file p s (f, none) h = cc
  read-write_file p s (f, some zero) h = cc
  read-write_file p s (f, some (suc k)) h = fs.read-write p s f h

  pub exists-rename_file :
      (p q : FilePath) (f : F × Life)
      → (rename_file p q f).1 ≡ true
      → fs.exists (rename_file p q f).0.0 q ≡ true
  exists-rename_file p q (f, none) h = cc
  exists-rename_file p q (f, some zero) h = cc
  exists-rename_file p q (f, some (suc k)) h = fs.exists-rename p q f h

  pub read-rename_file :
      (p q : FilePath) (f : F × Life)
      → (rename_file p q f).1 ≡ true
      → fs.read_to_string (rename_file p q f).0.0 q ≡ fs.read_to_string f.0 p
  read-rename_file p q (f, none) h = cc
  read-rename_file p q (f, some zero) h = cc
  read-rename_file p q (f, some (suc k)) h = fs.read-rename p q f h

  pub exists-rename_file_err :
      (p q r : FilePath) (f : F × Life)
      → (rename_file p q f).1 ≡ false
      → fs.exists (rename_file p q f).0.0 r ≡ fs.exists f.0 r
  exists-rename_file_err p q r (f, none) h = refl
  exists-rename_file_err p q r (f, some zero) h = refl
  exists-rename_file_err p q r (f, some (suc k)) h = fs.exists-rename_err p q r f h

  pub read-rename_file_err :
      (p q r : FilePath) (f : F × Life)
      → (rename_file p q f).1 ≡ false
      → fs.read_to_string (rename_file p q f).0.0 r ≡ fs.read_to_string f.0 r
  read-rename_file_err p q r (f, none) h = refl
  read-rename_file_err p q r (f, some zero) h = refl
  read-rename_file_err p q r (f, some (suc k)) h = fs.read-rename_err p q r f h

  -- The file system of a machine that crashes. A call that it does not survive does not succeed, so that
  -- the code in front of it ends there.
  abbrev pub crashing : FileSystem (F × Life)
  crashing = record {
    exists = λ f p. fs.exists f.0 p;
    read_to_string = λ f p. fs.read_to_string f.0 p;
    create_dir_all = make_dir;
    write = write_file;
    rename = rename_file;
    exists-create_dir_all = exists-make_dir;
    read-create_dir_all = read-make_dir;
    exists-write = exists-write_file;
    read-write_ne = read-write_file_ne;
    read-write = read-write_file;
    exists-rename = exists-rename_file;
    read-rename = read-rename_file;
    exists-rename_err = exists-rename_file_err;
    read-rename_err = read-rename_file_err;
  }

  module _ (codec : DataCodec) (s : PersistentStorage) (apart : temp_path s ≢ s.path) where
    -- What stands on disk after a save that came to the result `r`.
    abbrev Stands : PersistentData → F → (F × Life) × Result (Unit {0}) → Type 0
    Stands d f (g, ok _) = load fs codec s g.0 ≡ ok (some d)
    Stands d f (g, err _) = load fs codec s g.0 ≡ load fs codec s f
