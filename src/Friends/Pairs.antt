-- ===== src/Friends/Pairs.antt =====
-- The rows of two users over any interleaving of calls (Chess-Backend/src/models/Friendship.js).
use Prim.Native.String.{String}
use end_to_end_kubernetes_ch.Base.{ℕ, ◌≤◌, ◌≡◌, false, List, ◌==◌, All}
use end_to_end_kubernetes_ch.Store.{count_where}
use end_to_end_kubernetes_ch.Friends.{FriendRow, is_directed}

-- At most one row in each direction, and none from a user to itself.
abbrev pub Sparse : ℕ → ℕ → List FriendRow → Type 0
Sparse a b rows =
    (count_where (is_directed a b) rows ≤ 1) × (count_where (is_directed a a) rows ≡ 0)

-- Nobody waits to ask itself.
abbrev pub Others : List (ℕ × ℕ) → Type 0
Others waiting = All (λ (p : ℕ × ℕ). (p.1 == p.0) ≡ false) waiting
