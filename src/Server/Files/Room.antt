-- ===== src/Server/Files/Room.antt =====
-- crates/rdesk_server/src/main.rs, `FileReservation`: the counter of the files in transit, over any
-- interleaving of uploads.
use rdesk.Prelude.{
  ℕ, zero, suc, if◌then◌else◌, ◌↔◌, ◌+◌, ◌≤◌, ◌≡◌, true, Option, none, some, List, [], ◌∷◌, arith,
  Option-cases, inl, inr,
}
use rdesk.Server.State.{AppState, file_store_max_bytes}
use rdesk.Server.Files.{reserve, release, try_reserve}

-- The reservations that are held, one for each upload under way.
abbrev pub total : List ℕ → ℕ
total [] = 0
total (n ∷ ns) = n + total ns

pub record Relay : Type 0 where
  pub state : AppState
  pub held : List ℕ

-- An upload is admitted or refused, or one of those under way ends, however it ends.
pub data Event : Type 0 where
  admits : ℕ → Event
  ends : ℕ → Event

-- The reservation at a place of the list, and the list without it.
unfoldable pub take_at : ℕ → List ℕ → Option (ℕ × List ℕ)
take_at i [] = none
take_at zero (n ∷ ns) = some (n, ns)
take_at (suc i) (n ∷ ns) = elim (take_at i ns) [ none ↦ none | some (m, ms) ↦ some (m, n ∷ ms) ]

unfoldable pub step : Event → Relay → Relay
unfolding reserve release try_reserve
step (admits bytes) r =
    let (s, admitted) = reserve bytes r.state in
    record { state = s; held = if admitted then bytes ∷ r.held else r.held }
step (ends i) r = elim (take_at i r.held) [
  | none ↦ r
  | some (bytes, rest) ↦ record { state = release bytes r.state; held = rest }
]

unfoldable pub run : List Event → Relay → Relay
run [] r = r
run (e ∷ es) r = run es (step e r)

pub record IsAccounted (r : Relay) : Type 0 where
  pub counted : r.state.file_bytes ≡ total r.held
  pub fits : r.state.file_bytes ≤ file_store_max_bytes

total-take_at :
    (i : ℕ) (ns rest : List ℕ) (bytes : ℕ)
    → take_at i ns ≡ some (bytes, rest)
    → total ns ≡ bytes + total rest
unfolding take_at
total-take_at i [] rest bytes e = cc
total-take_at zero (n ∷ ns) rest bytes e = ground arith
total-take_at (suc i) (n ∷ ns) rest bytes e = elim (Option-cases (take_at i ns)) [
  | inl missing ↦ absurd (ground arith)
  | inr (found, f) ↦ ground (arith, total-take_at i ns found.1 found.0 f)
]

step-IsAccounted : (e : Event) (r : Relay) → IsAccounted r → IsAccounted (step e r)
unfolding step
step-IsAccounted (admits bytes) r v = ground arith
step-IsAccounted (ends i) r v = elim (Option-cases (take_at i r.held)) [
  | inl missing ↦ rw (missing, step) v
  | inr (found, f) ↦
      rw (f, step)
        (record {
          counted = ground (arith, total-take_at i r.held found.1 found.0 f);
          fits = ground arith;
        })
]

-- However uploads come and end, the counter is the sum of the reservations held and at most the
-- limit, if it was at the start.
pub run-IsAccounted : (es : List Event) (r : Relay) → IsAccounted r → IsAccounted (run es r)
unfolding run
run-IsAccounted [] r v = v
run-IsAccounted (e ∷ es) r v = run-IsAccounted es (step e r) (step-IsAccounted e r v)

-- An upload finds room exactly if what is held and its size together stay within the limit.
pub reserve_iff :
    (bytes : ℕ) (s : AppState)
    → ((reserve bytes s).1 ≡ true) ↔ (s.file_bytes + bytes ≤ file_store_max_bytes)
unfolding reserve
reserve_iff bytes s = ground arith
