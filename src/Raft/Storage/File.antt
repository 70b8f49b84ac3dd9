-- ===== src/Raft/Storage/File.antt =====
-- storage.rs: `PersistentStorage`, which writes a temporary file and renames it over the data.
use Prim.Native.String.{String}
pub mod Atomic
pub mod Crash
use macro_service.Prelude.{
  ℕ, ◌≡◌, ◌≢◌, refl, Bool, true, false, Option, none, some, List, [], ◌∷◌, arith, if◌then◌else◌,
  All, Bool-cases, inl, inr, ap, Option-cases,
}
use macro_service.Raft.Storage.{PersistentData, Storage}

-- The path `data_dir/node_<id>/<file>`.
pub record FilePath : Type 0 where
  pub data_dir : String
  pub node_id : ℕ
  pub file : String

-- The part of tokio::fs that the code calls, over the states `F` of a file system. A call gives the
-- new state and whether it succeeded. Writing and renaming touch no other file, a failed rename
-- touches none, and a rename moves the contents.
pub record FileSystem (F : Type 0) : Type 0 where
  pub exists : F → FilePath → Bool
  pub read_to_string : F → FilePath → Option String
  pub create_dir_all : FilePath → F → F × Bool
  pub write : FilePath → String → F → F × Bool
  pub rename : FilePath → FilePath → F → F × Bool
  pub exists-create_dir_all :
      (p q : FilePath) (f : F) → exists (create_dir_all p f).0 q ≡ exists f q
  pub read-create_dir_all :
      (p q : FilePath) (f : F) → read_to_string (create_dir_all p f).0 q ≡ read_to_string f q
  pub exists-write :
      (p q : FilePath) (s : String) (f : F) → p ≢ q → exists (write p s f).0 q ≡ exists f q
  pub read-write_ne :
      (p q : FilePath) (s : String) (f : F)
      → p ≢ q
      → read_to_string (write p s f).0 q ≡ read_to_string f q
  pub read-write :
      (p : FilePath) (s : String) (f : F)
      → (write p s f).1 ≡ true
      → read_to_string (write p s f).0 p ≡ some s
  pub exists-rename :
      (p q : FilePath) (f : F) → (rename p q f).1 ≡ true → exists (rename p q f).0 q ≡ true
  pub read-rename :
      (p q : FilePath) (f : F)
      → (rename p q f).1 ≡ true
      → read_to_string (rename p q f).0 q ≡ read_to_string f p
  pub exists-rename_err :
      (p q r : FilePath) (f : F) → (rename p q f).1 ≡ false → exists (rename p q f).0 r ≡ exists f r
  pub read-rename_err :
      (p q r : FilePath) (f : F)
      → (rename p q f).1 ≡ false
      → read_to_string (rename p q f).0 r ≡ read_to_string f r

-- serde_json on `PersistentData`: what it prints it reads back.
pub record DataCodec : Type 0 where
  pub to_string_pretty : PersistentData → Option String
  pub from_str : String → Option PersistentData
  pub from_str-to_string_pretty :
      (d : PersistentData) (s : String) → to_string_pretty d ≡ some s → from_str s ≡ some d

pub data StorageError : Type 0 where
  io serialize : StorageError

pub data Result {ℓ} (A : Type ℓ) : Type ℓ where
  ok : A → Result A
  err : StorageError → Result A

pub record PersistentStorage : Type 0 where
  pub path : FilePath

-- `PersistentStorage::new`
unfoldable pub new_storage : String → ℕ → PersistentStorage
new_storage data_dir node_id = record {
  path = record { data_dir = data_dir; node_id = node_id; file = "raft_state.json" };
}

-- `path.with_extension("json.tmp")`, at the paths that `new_storage` makes
unfoldable pub temp_path : PersistentStorage → FilePath
temp_path s = record (s.path) { file = "raft_state.json.tmp" }

module _ {F : Type 0} (fs : FileSystem F) (codec : DataCodec) (s : PersistentStorage) where
  -- The rest of `save` after each `?`: the rename, the write, the coding.
  save_rename : F × Bool → F × Result (Unit {0})
  save_rename (f, false) = (f, err io)
  save_rename (f, true) =
      let (g, renamed) = fs.rename (temp_path s) s.path f in
      if renamed then (g, ok tt) else (g, err io)

  save_write : F → Option String → F × Result (Unit {0})
  save_write f none = (f, err serialize)
  save_write f (some content) = save_rename (fs.write (temp_path s) content f)

  save_created : PersistentData → F × Bool → F × Result (Unit {0})
  save_created d (f, false) = (f, err io)
  save_created d (f, true) = save_write f (codec.to_string_pretty d)

  unfoldable pub save : PersistentData → F → F × Result (Unit {0})
  unfolding save_created save_write save_rename
  save d f = save_created d (fs.create_dir_all s.path f)

  parse : Option String → Result (Option PersistentData)
  parse none = err io
  parse (some content) = elim (codec.from_str content) [
    | some d ↦ ok (some d)
    | none ↦ err serialize
  ]

  unfoldable pub load : F → Result (Option PersistentData)
  unfolding parse
  load f = if fs.exists f s.path then parse (fs.read_to_string f s.path) else ok none
