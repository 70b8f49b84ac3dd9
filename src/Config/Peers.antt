-- ===== src/Config/Peers.antt =====
-- config.rs: what the peer list is read as.
use macro_service.Prelude.{
  ℕ, ◌+◌, ◌-◌, ◌*◌, ◌^◌, ◌≤◌, ◌<◌, ◌≡◌, ◌≢◌, refl, false, some, List, [], ◌∷◌, ◌++◌, map, arith,
  ◌==◌, All, is_empty, ◌⊎◌,
}
use macro_service.Config.{
  Text, Peer, split, scan, parse_digits, parse_u32, peer_of, filter_peers, peers_of,
}

abbrev pub IsDigit : ℕ → Type 0
IsDigit c = (b'0' ≤ c) × (c ≤ b'9')

-- The number that digits spell behind `n`.
abbrev pub value : ℕ → Text → ℕ
value n [] = n
value n (c ∷ cs) = value (n * 10 + (c - b'0')) cs

le-value : (n : ℕ) (cs : Text) → n ≤ value n cs
le-value n [] = omega arith
le-value n (c ∷ cs) = omega (arith, le-value (n * 10 + (c - b'0')) cs)

scan_complete :
    (n : ℕ) (cs : Text) → All IsDigit cs → value n cs < 2 ^ 32 → scan n cs ≡ some (value n cs)
unfolding scan
scan_complete n [] ds fits = refl
scan_complete n (c ∷ cs) (d, ds) fits =
    let m = n * 10 + (c - b'0') in ground (arith, scan_complete m cs ds fits, le-value m cs)

scan_bounds : (n r : ℕ) (cs : Text) → n < 2 ^ 32 → scan n cs ≡ some r → r < 2 ^ 32
unfolding scan
scan_bounds n r [] fits h = ground arith
scan_bounds n r (c ∷ cs) fits h = ground (arith, scan_bounds (n * 10 + (c - b'0')) r cs)

-- An identifier fits into 32 bits.
pub parse_u32_bounds : (cs : Text) (r : ℕ) → parse_u32 cs ≡ some r → r < 2 ^ 32
unfolding parse_u32 parse_digits
parse_u32_bounds [] r h = cc
parse_u32_bounds (c ∷ []) r h = ground (arith, scan_bounds 0 r (c ∷ []))
parse_u32_bounds (c ∷ d ∷ cs) r h =
    ground (arith, scan_bounds 0 r (c ∷ d ∷ cs), scan_bounds 0 r (d ∷ cs))

pub parse_u32_complete :
    (cs : Text) → cs ≢ [] → All IsDigit cs → value 0 cs < 2 ^ 32 → parse_u32 cs ≡ some (value 0 cs)
unfolding parse_u32 parse_digits
parse_u32_complete [] ne ds fits = absurd (ne refl)
parse_u32_complete (c ∷ cs) ne ds fits = ground (arith, scan_complete 0 (c ∷ cs) ds fits)

abbrev pub Lacks : ℕ → Text → Type 0
Lacks sep [] = Unit
Lacks sep (c ∷ cs) = ((c == sep) ≡ false) × Lacks sep cs

-- A piece without the separator, with nothing or the separator behind it.
split-end : (sep : ℕ) (s : Text) → Lacks sep s → split sep s ≡ s ∷ []
unfolding split
split-end sep [] l = refl
split-end sep (c ∷ cs) l = ground (arith, split-end sep cs l.1)

split-append :
    (sep : ℕ) (s rest : Text) → Lacks sep s → split sep (s ++ sep ∷ rest) ≡ s ∷ split sep rest
unfolding split
split-append sep [] rest l = ground arith
split-append sep (c ∷ cs) rest l = ground (arith, split-append sep cs rest l.1)

Lacks-digits : (sep : ℕ) (ds : Text) → (sep < b'0') ⊎ (b'9' < sep) → All IsDigit ds → Lacks sep ds
Lacks-digits sep [] out d = tt
Lacks-digits sep (c ∷ cs) out (d, ds) = (ground arith, Lacks-digits sep cs out ds)

Lacks-append : (sep : ℕ) (s t : Text) → Lacks sep s → Lacks sep t → Lacks sep (s ++ t)
Lacks-append sep [] t l m = m
Lacks-append sep (c ∷ cs) t (l, ls) m = (l, Lacks-append sep cs t ls m)

-- An entry: the digits of an identifier, and an address.
abbrev pub Entry : Type 0
Entry = Text × Text

pub record IsEntry (e : Entry) : Type 0 where
  pub some_digit : e.0 ≢ []
  pub digits : All IsDigit e.0
  pub fits : value 0 e.0 < 2 ^ 32
  pub no_at : Lacks b'@' e.1
  pub no_comma : Lacks b',' e.1

abbrev pub piece : Entry → Text
piece e = e.0 ++ b'@' ∷ e.1

-- The list as it is written on the command line.
abbrev pub render : List Entry → Text
render [] = []
render (e ∷ []) = piece e
render (e ∷ f ∷ es) = piece e ++ b',' ∷ render (f ∷ es)

abbrev pub peer : Entry → Peer
peer e = record { id = value 0 e.0; raft_addr = e.1 }

peer_of-piece : (e : Entry) → IsEntry e → peer_of (split b'@' (piece e)) ≡ some (peer e)
unfolding peer_of
peer_of-piece e v =
    let at = split-append b'@' e.0 e.1 (Lacks-digits b'@' e.0 (omega arith) v.digits) in
    rw
      (at, split-end b'@' e.1 v.no_at, peer_of, parse_u32_complete e.0 v.some_digit v.digits v.fits)

piece-Lacks : (e : Entry) → IsEntry e → Lacks b',' (piece e)
piece-Lacks e v =
    Lacks-append b',' e.0 (b'@' ∷ e.1) (Lacks-digits b',' e.0 (omega arith) v.digits)
      (refl, v.no_comma)

filter_peers-render :
    (e : Entry) (es : List Entry)
    → All IsEntry (e ∷ es)
    → filter_peers (split b',' (render (e ∷ es))) ≡ map peer (e ∷ es)
unfolding filter_peers
filter_peers-render e [] v =
    rw (split-end b',' (piece e) (piece-Lacks e v.0), filter_peers, peer_of-piece e v.0)
filter_peers-render e (f ∷ es) v = rw (
  split-append b',' (piece e) (render (f ∷ es)) (piece-Lacks e v.0),
  filter_peers,
  peer_of-piece e v.0,
  filter_peers-render f es v.1,
)

render-ne : (e : Entry) (es : List Entry) → e.0 ≢ [] → is_empty (render (e ∷ es)) ≡ false
render-ne ([], addr) es ne = absurd (ne refl)
render-ne (c ∷ cs, addr) [] ne = refl
render-ne (c ∷ cs, addr) (f ∷ es) ne = refl

-- A peer list that is written as the command line wants it, with decimal identifiers of 32 bits and
-- addresses without `,` and `@`, is read back: each entry in its place.
pub peers_of-render : (es : List Entry) → All IsEntry es → peers_of (render es) ≡ map peer es
unfolding peers_of
peers_of-render [] v = refl
peers_of-render (e ∷ es) v = rw (render-ne e es v.0.some_digit) (filter_peers-render e es v)
