-- ===== src/Raft/Storage/File/Atomic.antt =====
-- storage.rs: a save takes effect at its rename or not at all.
use Prim.Native.String.{String}
use macro_service.Prelude.{◌≡◌, ◌≢◌, refl, true, false, Option, none, some, arith, Bool, ap}
use macro_service.Raft.Storage.{PersistentData, Storage}
use macro_service.Raft.Storage.File.{
  FileSystem, DataCodec, Result, ok, err, PersistentStorage, temp_path, save, load, save_write,
  save_rename, parse,
}

module _ {F : Type 0} (fs : FileSystem F) (codec : DataCodec) (s : PersistentStorage)
    (apart : temp_path s ≢ s.path) where
  load-create_dir_all : (f : F) → load fs codec s (fs.create_dir_all s.path f).0 ≡ load fs codec s f
  unfolding load
  load-create_dir_all f =
      rw (fs.exists-create_dir_all s.path s.path f, fs.read-create_dir_all s.path s.path f)

  load-write :
      (content : String) (f : F)
      → load fs codec s (fs.write (temp_path s) content f).0 ≡ load fs codec s f
  unfolding load
  load-write content f = rw (
    fs.exists-write (temp_path s) s.path content f apart,
    fs.read-write_ne (temp_path s) s.path content f apart,
  )

  load-rename_err :
      (f : F)
      → (fs.rename (temp_path s) s.path f).1 ≡ false
      → load fs codec s (fs.rename (temp_path s) s.path f).0 ≡ load fs codec s f
  unfolding load
  load-rename_err f h = rw (
    fs.exists-rename_err (temp_path s) s.path s.path f h,
    fs.read-rename_err (temp_path s) s.path s.path f h,
  )

  load-rename :
      (f : F) (d : PersistentData) (content : String)
      → codec.to_string_pretty d ≡ some content
      → (fs.write (temp_path s) content f).1 ≡ true
      → (fs.rename (temp_path s) s.path (fs.write (temp_path s) content f).0).1 ≡ true
      → load fs codec s (fs.rename (temp_path s) s.path (fs.write (temp_path s) content f).0).0
        ≡ ok (some d)
  unfolding load
  load-rename f d content e w r =
      rw
        (
          fs.exists-rename (temp_path s) s.path (fs.write (temp_path s) content f).0 r,
          fs.read-rename (temp_path s) s.path (fs.write (temp_path s) content f).0 r,
          fs.read-write (temp_path s) content f w,
        )
        (rw (codec.from_str-to_string_pretty d content e, parse))

  -- What stands on disk after a save that came to the result `r`.
  abbrev pub Saved : PersistentData → F → F × Result (Unit {0}) → Type 0
  Saved d f (g, ok _) = load fs codec s g ≡ ok (some d)
  Saved d f (g, err _) = load fs codec s g ≡ load fs codec s f

  save_rename-Saved :
      (f : F) (d : PersistentData) (content : String)
      → codec.to_string_pretty d ≡ some content
      → Saved d f (save_rename fs codec s (fs.write (temp_path s) content f))
  unfolding save_rename
  save_rename-Saved f d content e = ground (
    arith,
    load-write content f,
    load-rename f d content e,
    load-rename_err (fs.write (temp_path s) content f).0,
  )

  save_write-Saved :
      (f : F) (d : PersistentData) (o : Option String)
      → codec.to_string_pretty d ≡ o
      → Saved d f (save_write fs codec s f o)
  unfolding save_write
  save_write-Saved f d none e = refl
  save_write-Saved f d (some content) e = save_rename-Saved f d content e

  -- A save that succeeds is what the next load gives; one that fails leaves the load unchanged.
  pub save-Saved : (d : PersistentData) (f : F) → Saved d f (save fs codec s d f)
  unfolding save
  save-Saved d f = ground (
    arith,
    load-create_dir_all f,
    save_write-Saved (fs.create_dir_all s.path f).0 d (codec.to_string_pretty d) refl,
  )

  abbrev is_ok {ℓ} : {A : Type ℓ} → Result A → Bool
  is_ok (ok a) = true
  is_ok (err e) = false

  abbrev loaded : Result (Option PersistentData) → Option (Option PersistentData)
  loaded (ok r) = some r
  loaded (err e) = none

  loaded-ok :
      (d : PersistentData) (f : F) (r : F × Result (Unit {0}))
      → Saved d f r
      → is_ok r.1 ≡ true
      → loaded (load fs codec s r.0) ≡ some (some d)
  loaded-ok d f (g, ok u) h e = ap loaded h
  loaded-ok d f (g, err x) h e = cc

  loaded-err :
      (d : PersistentData) (f : F) (r : F × Result (Unit {0}))
      → Saved d f r
      → is_ok r.1 ≡ false
      → loaded (load fs codec s r.0) ≡ loaded (load fs codec s f)
  loaded-err d f (g, ok u) h e = cc
  loaded-err d f (g, err x) h e = ap loaded h

  -- The file is a storage as the Raft code asks for it.
  pub file_storage : Storage F
  file_storage = record {
    save = λ d f. ((save fs codec s d f).0, is_ok (save fs codec s d f).1);
    load = λ f. loaded (load fs codec s f);
    load-save_ok = λ d f h. loaded-ok d f (save fs codec s d f) (save-Saved d f) h;
    load-save_err = λ d f h. loaded-err d f (save fs codec s d f) (save-Saved d f) h;
  }
