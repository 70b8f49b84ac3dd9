-- ===== src/Raft/Log/Valid.antt =====
-- log.rs: the representation invariant of `LogStore`, and the operations that keep it.
use macro_service.Prelude.{
  ℕ, zero, suc, ◌+◌, ◌-◌, ◌≤◌, ◌<◌, ◌≡◌, refl, List, [], ◌∷◌, ◌++◌, arith, u64_mod, ltb, length,
  take, drop, retain, length-append, length-take, length-drop,
}
use macro_service.Raft.Log.{
  LogEntry, LogStore, new, last_index, append, append_one, truncate, apply_snapshot,
}

take-zero {ℓ} : {A : Type ℓ} (xs : List A) → take 0 xs ≡ []
take-zero xs = refl

-- The entries carry the indices `n`, `n + 1`, and so on.
abbrev pub IsContiguous : ℕ → List LogEntry → Type 0
IsContiguous n [] = Unit
IsContiguous n (e ∷ es) = (e.index ≡ n) × IsContiguous (suc n) es

-- The entries follow the snapshot without a gap, and the last index is a `u64`.
pub record IsValid (l : LogStore) : Type 0 where
  pub contiguous : IsContiguous (suc l.snapshot_last_index) l.entries
  pub in_range : l.snapshot_last_index + length l.entries < u64_mod

pub new-IsValid : IsValid new
new-IsValid = record { contiguous = tt; in_range = omega arith }

-- With no overflow `last_index` is the plain sum, on both of its branches.
pub last_index-eq :
    (l : LogStore) → IsValid l → last_index l ≡ l.snapshot_last_index + length l.entries
unfolding last_index
last_index-eq l v = ground (arith, v.in_range)

pub IsContiguous-append :
    (n m : ℕ) (xs ys : List LogEntry)
    → m ≡ n + length xs
    → IsContiguous n xs
    → IsContiguous m ys
    → IsContiguous n (xs ++ ys)
IsContiguous-append n m [] ys e hx hy = let e' : m ≡ n = omega arith in rw e' at hy
IsContiguous-append n m (x ∷ xs) ys e hx hy =
    (hx.0, IsContiguous-append (suc n) m xs ys (omega arith) hx.1 hy)

pub IsContiguous-take :
    (n k : ℕ) (xs : List LogEntry) → IsContiguous n xs → IsContiguous n (take k xs)
IsContiguous-take n zero xs h = tt
IsContiguous-take n (suc k) [] h = tt
IsContiguous-take n (suc k) (x ∷ xs) h = (h.0, IsContiguous-take (suc n) k xs h.1)

pub IsContiguous-drop :
    (n m k : ℕ) (xs : List LogEntry) → m ≡ n + k → IsContiguous n xs → IsContiguous m (drop k xs)
IsContiguous-drop n m zero xs e h = let e' : n ≡ m = omega arith in rw e' at h
IsContiguous-drop n m (suc k) [] e h = tt
IsContiguous-drop n m (suc k) (x ∷ xs) e h = IsContiguous-drop (suc n) m k xs (omega arith) h.1

-- Dropping the entries at or below `k` from a contiguous run drops a prefix of it.
pub retain-eq-drop :
    (n k d : ℕ) (xs : List LogEntry)
    → suc k - n ≡ d
    → IsContiguous n xs
    → retain (λ e. ltb k e.index) xs ≡ drop d xs
unfolding retain
retain-eq-drop n k zero [] e h = refl
retain-eq-drop n k (suc d) [] e h = refl
retain-eq-drop n k zero (x ∷ xs) e h =
    ground (arith, h.0, retain-eq-drop (suc n) k 0 xs (omega arith) h.1)
retain-eq-drop n k (suc d) (x ∷ xs) e h =
    ground (arith, h.0, retain-eq-drop (suc n) k d xs (omega arith) h.1)

pub append-IsValid :
    (l : LogStore) (es : List LogEntry)
    → IsValid l
    → IsContiguous (suc (last_index l)) es
    → last_index l + length es < u64_mod
    → IsValid (append l es)
unfolding append
append-IsValid l es v c r = record {
  contiguous =
      IsContiguous-append (suc l.snapshot_last_index) (suc (last_index l)) l.entries es
        (omega (arith, last_index-eq l v)) v.contiguous c;
  in_range = omega (arith, last_index-eq l v, length-append l.entries es);
}

pub append_one-IsValid :
    (l : LogStore) (e : LogEntry)
    → IsValid l
    → e.index ≡ suc (last_index l)
    → suc (last_index l) < u64_mod
    → IsValid (append_one l e).0
unfolding append_one
append_one-IsValid l e v i r = unfold append in append-IsValid l (e ∷ []) v (i, tt) (omega arith)

-- The guards of `truncate` only protect its subtractions: it keeps a prefix.
pub truncate-eq :
    (l : LogStore) (k : ℕ)
    → truncate l k ≡ record l { entries = take (k - l.snapshot_last_index - 1) l.entries }
unfolding truncate
truncate-eq l k = ground (arith, take-zero {0} l.entries)

pub truncate-IsValid : (l : LogStore) (k : ℕ) → IsValid l → IsValid (truncate l k)
truncate-IsValid l k v = rw (truncate-eq l k) (record {
  contiguous = IsContiguous-take _ _ l.entries v.contiguous;
  in_range = omega (arith, length-take (k - l.snapshot_last_index - 1) l.entries, v.in_range);
})

-- A later snapshot boundary keeps the store valid.
pub apply_snapshot-IsValid :
    (l : LogStore) (n t : ℕ)
    → IsValid l
    → l.snapshot_last_index ≤ n
    → n < u64_mod
    → IsValid (apply_snapshot l n t)
unfolding apply_snapshot
apply_snapshot-IsValid l n t v h r =
    let d = n - l.snapshot_last_index in
    let e = retain-eq-drop (suc l.snapshot_last_index) n d l.entries (omega arith) v.contiguous in
    record {
      contiguous = rw e (
          IsContiguous-drop (suc l.snapshot_last_index) (suc n) d l.entries (omega arith)
            v.contiguous);
      in_range = rw e (omega (arith, length-drop d l.entries, v.in_range));
    }
