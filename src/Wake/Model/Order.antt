-- ===== src/Wake/Model/Order.antt =====
-- What `WakeAccountData::prune` leaves of the requests.
use rdesk.Prelude.{
  ℕ, zero, suc, ◌-◌, ◌≤◌, ◌<◌, List, [], ◌∷◌, arith, length, length-take, All, keep, take,
}
use rdesk.Wake.Model.{
  WakeRequest, WakeAccountData, insert_newest, sort_newest, is_recent, prune, retention_ms,
}

-- Newest first.
abbrev pub IsNewestFirst : List WakeRequest → Type 0
IsNewestFirst [] = Unit
IsNewestFirst (r ∷ rs) = All (λ q. q.created_at_ms ≤ r.created_at_ms) rs × IsNewestFirst rs

abbrev pub IsKept : ℕ → WakeRequest → Type 0
IsKept now r = now - r.created_at_ms < retention_ms

module _ (P : WakeRequest → Type 0) where
  pub All-take : (n : ℕ) (rs : List WakeRequest) → All P rs → All P (take n rs)
  All-take zero rs h = tt
  All-take (suc n) [] h = tt
  All-take (suc n) (r ∷ rs) h = (h.0, All-take n rs h.1)

  pub All-insert_newest :
      (r : WakeRequest) (rs : List WakeRequest) → P r → All P rs → All P (insert_newest r rs)
  unfolding insert_newest
  All-insert_newest r [] p h = (p, h)
  All-insert_newest r (q ∷ qs) p h = ground (arith, All-insert_newest r qs p h.1)

  pub All-sort_newest : (rs : List WakeRequest) → All P rs → All P (sort_newest rs)
  unfolding sort_newest
  All-sort_newest [] h = tt
  All-sort_newest (r ∷ rs) h = All-insert_newest r (sort_newest rs) h.0 (All-sort_newest rs h.1)

All-weaken :
    (m n : ℕ) (rs : List WakeRequest)
    → m ≤ n
    → All (λ q. q.created_at_ms ≤ m) rs
    → All (λ q. q.created_at_ms ≤ n) rs
All-weaken m n [] h a = tt
All-weaken m n (r ∷ rs) h a = (omega arith, All-weaken m n rs h a.1)

insert_newest-IsNewestFirst :
    (r : WakeRequest) (rs : List WakeRequest)
    → IsNewestFirst rs
    → IsNewestFirst (insert_newest r rs)
unfolding insert_newest
insert_newest-IsNewestFirst r [] h = (tt, tt)
insert_newest-IsNewestFirst r (q ∷ qs) h = ground (
  arith,
  insert_newest-IsNewestFirst r qs h.1,
  λ (p : r.created_at_ms ≤ q.created_at_ms).
      All-insert_newest (λ x. x.created_at_ms ≤ q.created_at_ms) r qs p h.0,
  λ (p : q.created_at_ms ≤ r.created_at_ms). All-weaken q.created_at_ms r.created_at_ms qs p h.0,
)

sort_newest-IsNewestFirst : (rs : List WakeRequest) → IsNewestFirst (sort_newest rs)
unfolding sort_newest
sort_newest-IsNewestFirst [] = tt
sort_newest-IsNewestFirst (r ∷ rs) =
    insert_newest-IsNewestFirst r (sort_newest rs) (sort_newest-IsNewestFirst rs)

take-IsNewestFirst : (n : ℕ) (rs : List WakeRequest) → IsNewestFirst rs → IsNewestFirst (take n rs)
take-IsNewestFirst zero rs h = tt
take-IsNewestFirst (suc n) [] h = tt
take-IsNewestFirst (suc n) (r ∷ rs) h =
    (All-take (λ q. q.created_at_ms ≤ r.created_at_ms) n rs h.0, take-IsNewestFirst n rs h.1)

keep_recent : (now : ℕ) (rs : List WakeRequest) → All (IsKept now) (keep (is_recent now) rs)
keep_recent now [] = tt
keep_recent now (r ∷ rs) = ground (arith, keep_recent now rs)

-- After pruning there are at most 50 requests, newest first, and each is younger than seven days.
pub prune_lem :
    (now : ℕ) (d : WakeAccountData)
    → (length (prune now d).requests ≤ 50)
      × IsNewestFirst (prune now d).requests
      × All (IsKept now) (prune now d).requests
unfolding prune
prune_lem now d =
    let kept = keep (is_recent now) d.requests in
    (
      omega (arith, length-take 50 (sort_newest kept)),
      take-IsNewestFirst 50 _ (sort_newest-IsNewestFirst kept),
      All-take (IsKept now) 50 _ (All-sort_newest (IsKept now) kept (keep_recent now d.requests)),
    )
