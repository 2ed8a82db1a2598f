-- ===== src/Service/Connections.antt =====
-- mash-go/pkg/service/conn_tracker.go: the connections before commissioning, which a reaper closes when
-- they are too old. A connection is a number; what is closed is a list.
use mash.Base.{
  inr, inl, ℕ, ◌+◌, ◌≤◌, ◌≡◌, Bool, List, [], ◌∷◌, ltb, if◌then◌else◌, length, All, arith,
  Bool-cases,
}
use mash.Base.GoMap.{GoMap, nat_key, insert, delete}

abbrev pub ConnTracker : Type 0
ConnTracker = GoMap ℕ ℕ

unfoldable pub new_conn_tracker : ConnTracker
new_conn_tracker = []

unfoldable pub add : ConnTracker → ℕ → ℕ → ConnTracker
add ct conn now = insert conn now ct

unfoldable pub remove : ConnTracker → ℕ → ConnTracker
remove ct conn = delete conn ct

-- `added.Before(cutoff)` for the cutoff `now - max_age`.
abbrev pub is_stale : ℕ → ℕ → ℕ → Bool
is_stale max_age now added = ltb (added + max_age) now

-- The tracker and the connections that are closed.
unfoldable pub close_stale : ConnTracker → ℕ → ℕ → ConnTracker × List ℕ
close_stale [] max_age now = ([], [])
close_stale ((conn, added) ∷ ct) max_age now =
    let (kept, closed) = close_stale ct max_age now in
    if is_stale max_age now added then (kept, conn ∷ closed) else ((conn, added) ∷ kept, closed)

unfoldable pub close_all : ConnTracker → ConnTracker × List ℕ
close_all [] = ([], [])
close_all ((conn, added) ∷ ct) = let (kept, closed) = close_all ct in (kept, conn ∷ closed)

unfoldable pub len : ConnTracker → ℕ
len ct = length ct

-- What stays is not older than the limit, and every connection stays or is closed.
pub close_stale_lem :
    (ct : ConnTracker) (max_age now : ℕ)
    → All (λ e. now ≤ e.1 + max_age) (close_stale ct max_age now).0
      × (length (close_stale ct max_age now).0 + length (close_stale ct max_age now).1 ≡ length ct)
unfolding close_stale
close_stale_lem [] max_age now = (tt, omega arith)
close_stale_lem ((conn, added) ∷ ct) max_age now =
    let ih = close_stale_lem ct max_age now in
    elim (Bool-cases (is_stale max_age now added)) [
      | inl old ↦ rw old (ih.0, omega (arith, ih.1))
      | inr young ↦ rw young ((ground arith, ih.0), omega (arith, ih.1))
    ]
