-- ===== src/Examples/Disks.antt =====
-- Disks: a storage that always saves, and a file system of texts with a codec for the data of a node
-- that has only a term.
use macro_service.Prelude.{
  ℕ, zero, suc, ◌≡◌, ◌≢◌, refl, sym, ap, ◌∙◌, Bool, true, false, ◌&&◌, Option, none, some, List, [],
  ◌∷◌, arith, if◌then◌else◌,
}
use Prim.Native.String.{String}
use Prim.Native.Char.{char}
use text.Mathlib.Text.{◌==◌}
use macro_service.Raft.Log.{LogEntry}
use macro_service.Prelude.{◌==◌ as eq, Bool-cases, inl, inr}
use text.Mathlib.TextEquality.{eq_iff}
use macro_service.Raft.Storage.{PersistentData, Storage}
use macro_service.Raft.Storage.File.{FilePath, FileSystem, DataCodec}

pub true-ne-false : true ≢ false
true-ne-false h = cc

abbrev pub memory : Storage (Option PersistentData)
memory = record {
  save = λ d disk. (some d, true);
  load = λ disk. some disk;
  load-save_ok = λ d disk h. refl;
  load-save_err = λ d disk h. absurd (true-ne-false h);
}

abbrev pub term_data : ℕ → PersistentData
term_data term = record {
  version = 2;
  current_term = term;
  voted_for = none;
  log = [];
  snapshot_last_index = 0;
  snapshot_last_term = 0;
  snapshot_data = none;
}

abbrev marks : ℕ → String
marks zero = String.[]
marks (suc n) = String.◌∷◌ (char 120 tt) (marks n)

abbrev count : String → ℕ
count String.[] = zero
count (String.◌∷◌ c s) = suc (count s)

count-marks : (n : ℕ) → count (marks n) ≡ n
count-marks zero = refl
count-marks (suc n) = ap suc (count-marks n)

-- Prints the data of a node that has only a term.
abbrev print_fields : ℕ → ℕ → Option ℕ → List LogEntry → ℕ → ℕ → Option (List ℕ) → Option String
print_fields version term (some v) log index t content = none
print_fields version term none (e ∷ log) index t content = none
print_fields version term none [] (suc index) t content = none
print_fields version term none [] zero (suc t) content = none
print_fields version term none [] zero zero (some bytes) = none
print_fields zero term none [] zero zero none = none
print_fields (suc zero) term none [] zero zero none = none
print_fields (suc (suc zero)) term none [] zero zero none = some (marks term)
print_fields (suc (suc (suc version))) term none [] zero zero none = none

pub parse-print_fields :
    (version term : ℕ) (voted_for : Option ℕ) (log : List LogEntry) (index t : ℕ)
    (content : Option (List ℕ)) (s : String)
    → print_fields version term voted_for log index t content ≡ some s
    → some (term_data (count s))
      ≡ some (record {
        version = version;
        current_term = term;
        voted_for = voted_for;
        log = log;
        snapshot_last_index = index;
        snapshot_last_term = t;
        snapshot_data = content;
      })
parse-print_fields version term (some v) log index t content s e = cc
parse-print_fields version term none (x ∷ log) index t content s e = cc
parse-print_fields version term none [] (suc index) t content s e = cc
parse-print_fields version term none [] zero (suc t) content s e = cc
parse-print_fields version term none [] zero zero (some bytes) s e = cc
parse-print_fields zero term none [] zero zero none s e = cc
parse-print_fields (suc zero) term none [] zero zero none s e = cc
parse-print_fields (suc (suc zero)) term none [] zero zero none s e =
    let e' : marks term ≡ s = cc in
    ap (λ n. some (term_data n)) (ap count (sym e') ∙ count-marks term)
parse-print_fields (suc (suc (suc version))) term none [] zero zero none s e = cc

abbrev pub term_codec : DataCodec
term_codec = record {
  to_string_pretty = λ d.
      print_fields d.version d.current_term d.voted_for d.log d.snapshot_last_index
        d.snapshot_last_term d.snapshot_data;
  from_str = λ s. some (term_data (count s));
  from_str-to_string_pretty = λ d s e.
      parse-print_fields d.version d.current_term d.voted_for d.log d.snapshot_last_index
        d.snapshot_last_term d.snapshot_data s e;
}

abbrev pub Texts : Type 0
Texts = FilePath → Option String

abbrev is_some : Option String → Bool
is_some none = false
is_some (some s) = true

abbrev is_path : FilePath → FilePath → Bool
is_path p q = (p.data_dir == q.data_dir) && (eq p.node_id q.node_id && (p.file == q.file))

abbrev put_text : FilePath → Option String → Texts → Texts
put_text p s f q = if is_path p q then s else f q

is_path_refl : (p : FilePath) → is_path p p ≡ true
is_path_refl p = ground (arith, eq_iff p.data_dir p.data_dir, eq_iff p.file p.file)

is_path_sound : (p q : FilePath) → is_path p q ≡ true → p ≡ q
is_path_sound p q h =
    let dir : p.data_dir ≡ q.data_dir = ground (arith, eq_iff p.data_dir q.data_dir) in
    let id : p.node_id ≡ q.node_id = ground arith in
    let file : p.file ≡ q.file = ground (arith, eq_iff p.file q.file) in
    λ i. record { data_dir = dir i; node_id = id i; file = file i }

pub put_text-same : (p : FilePath) (s : Option String) (f : Texts) → put_text p s f p ≡ s
put_text-same p s f = ground (arith, is_path_refl p)

pub put_text-other :
    (p q : FilePath) (s : Option String) (f : Texts) → p ≢ q → put_text p s f q ≡ f q
put_text-other p q s f ne = elim (Bool-cases (is_path p q)) [
  | inl same ↦ absurd (ne (is_path_sound p q same))
  | inr other ↦ ground arith
]

abbrev move : FilePath → FilePath → Option String → Texts → Texts × Bool
move p q none f = (f, false)
move p q (some s) f = (put_text q (some s) (put_text p none f), true)

pub exists-move :
    (p q : FilePath) (o : Option String) (f : Texts)
    → (move p q o f).1 ≡ true
    → is_some ((move p q o f).0 q) ≡ true
exists-move p q none f h = cc
exists-move p q (some s) f h = ap is_some (put_text-same q (some s) (put_text p none f))

pub read-move :
    (p q : FilePath) (o : Option String) (f : Texts)
    → (move p q o f).1 ≡ true
    → (move p q o f).0 q ≡ o
read-move p q none f h = cc
read-move p q (some s) f h = put_text-same q (some s) (put_text p none f)

pub read-move_err :
    (p q r : FilePath) (o : Option String) (f : Texts)
    → (move p q o f).1 ≡ false
    → (move p q o f).0 r ≡ f r
read-move_err p q r none f h = refl
read-move_err p q r (some s) f h = cc

abbrev pub texts : FileSystem Texts
texts = record {
  exists = λ f p. is_some (f p);
  read_to_string = λ f p. f p;
  create_dir_all = λ p f. (f, true);
  write = λ p s f. (put_text p (some s) f, true);
  rename = λ p q f. move p q (f p) f;
  exists-create_dir_all = λ p q f. refl;
  read-create_dir_all = λ p q f. refl;
  exists-write = λ p q s f ne. ap is_some (put_text-other p q (some s) f ne);
  read-write_ne = λ p q s f ne. put_text-other p q (some s) f ne;
  read-write = λ p s f h. put_text-same p (some s) f;
  exists-rename = λ p q f h. exists-move p q (f p) f h;
  read-rename = λ p q f h. read-move p q (f p) f h;
  exists-rename_err = λ p q r f h. ap is_some (read-move_err p q r (f p) f h);
  read-rename_err = λ p q r f h. read-move_err p q r (f p) f h;
}
