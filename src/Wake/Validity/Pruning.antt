-- ===== src/Wake/Validity/Pruning.antt =====
-- crates/rdesk_server/src/wake/model.rs: pruning and the recovery after a restart, and valid data.
use rdesk.Prelude.{
  ℕ, ◌≡◌, refl, Text, Bool, true, List, [], ◌∷◌, arith, count, keep, count-take-le, count-keep-le,
  count-map-le, All-keep, All-map,
}
use rdesk.Wake.Model.{
  WakeAccountData, WakeRequest, sort_newest, insert_newest, prune, is_recent, recover_after_restart,
  interrupt, active,
}
use rdesk.Wake.Model.Life.{IsSound, interrupt-IsSound}
use rdesk.Wake.Model.Order.{All-take, All-sort_newest}
use rdesk.Wake.Requests.{active_for}
use rdesk.Wake.Validity.{IsValid}

module _ (p : WakeRequest → Bool) where
  count-insert_newest :
      (r : WakeRequest) (rs : List WakeRequest) → count p (insert_newest r rs) ≡ count p (r ∷ rs)
  unfolding insert_newest
  count-insert_newest r [] = refl
  count-insert_newest r (q ∷ qs) = ground (arith, count-insert_newest r qs)

  -- Sorting loses no request and makes none up.
  pub count-sort_newest : (rs : List WakeRequest) → count p (sort_newest rs) ≡ count p rs
  unfolding sort_newest
  count-sort_newest [] = refl
  count-sort_newest (r ∷ rs) =
      omega (arith, count-insert_newest r (sort_newest rs), count-sort_newest rs)

pub prune-IsValid : (now : ℕ) (d : WakeAccountData) → IsValid d → IsValid (prune now d)
unfolding prune
prune-IsValid now d v =
    let recent = keep (is_recent now) d.requests in
    record {
      few_agents = v.few_agents;
      few_targets = v.few_targets;
      single = λ t. omega (
        arith,
        count-take-le (active_for t) 50 (sort_newest recent),
        count-sort_newest (active_for t) recent,
        count-keep-le (active_for t) (is_recent now) d.requests,
        v.single t,
      );
      sound =
          All-take IsSound 50 _
            (All-sort_newest IsSound recent (All-keep IsSound (is_recent now) d.requests v.sound));
    }

interrupt-inactive :
    (t : Text) (r : WakeRequest) → active_for t (interrupt r) ≡ true → active_for t r ≡ true
unfolding interrupt active
interrupt-inactive t r h = ground arith

-- After a restart the data are valid as before.
pub recover-IsValid :
    (now : ℕ) (d : WakeAccountData) → IsValid d → IsValid (recover_after_restart now d)
unfolding recover_after_restart
recover-IsValid now d v =
    let p = prune-IsValid now d v in
    record {
      few_agents = p.few_agents;
      few_targets = p.few_targets;
      single = λ t. omega (
        arith,
        count-map-le (active_for t) interrupt (prune now d).requests (interrupt-inactive t),
        p.single t,
      );
      sound = All-map IsSound interrupt (prune now d).requests interrupt-IsSound p.sound;
    }
