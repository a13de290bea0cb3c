-- ===== src/Protocols/Replay/Batches.antt =====
-- What a replay returns.
use nipo_science.Artifacts.Store.{empty}
use nipo_science.Prelude.{
  All, Bool-cases, IsIncreasingFrom, List, Timestamp, [], ap, arith, if◌then◌else◌, inl, inr, leb,
  ltb, refl, suc, ℕ, ◌++◌, ◌+◌, ◌-◌, ◌<◌, ◌↔◌, ◌∷◌, ◌≡◌, ◌≤◌, ◌⊎◌,
}
use nipo_science.Protocols.Models.{RunEvent, sequences}
use nipo_science.Protocols.Replay.{
  RunEventWindow, batch, cursor_error, events_after, expired, latest_sequence, replay_events,
}
use nipo_science.Protocols.Replay.Windows.{IsWindow}

-- The events up to the cursor.
abbrev pub events_upto : ℕ → List RunEvent → List RunEvent
events_upto cursor [] = []
events_upto cursor (event ∷ events) =
    let rest = events_upto cursor events in if ltb cursor event.sequence then rest else event ∷ rest

all_after :
    (cursor lo : ℕ) (events : List RunEvent)
    → cursor < lo
    → IsIncreasingFrom lo (sequences events)
    → (events_upto cursor events ≡ []) × (events_after cursor events ≡ events)
unfolding sequences events_after
all_after cursor lo [] h s = (refl, refl)
all_after cursor lo (event ∷ events) h s =
    ground (arith, all_after cursor (suc event.sequence) events (omega arith) s.1)

split_at_cursor :
    (cursor lo : ℕ) (events : List RunEvent)
    → IsIncreasingFrom lo (sequences events)
    → events_upto cursor events ++ events_after cursor events ≡ events
unfolding sequences events_after
split_at_cursor cursor lo [] s = refl
split_at_cursor cursor lo (event ∷ events) s = elim (Bool-cases (ltb cursor event.sequence)) [
  | inl after ↦
      let parts = all_after cursor (suc event.sequence) events (ground arith) s.1 in
      rw (after, parts.0, parts.1) refl
  | inr upto ↦ rw upto (ap (◌∷◌ event) (split_at_cursor cursor (suc event.sequence) events s.1))
]

upto-le :
    (cursor : ℕ) (events : List RunEvent)
    → All (λ e. e.sequence ≤ cursor) (events_upto cursor events)
upto-le cursor [] = tt
upto-le cursor (event ∷ events) = elim (Bool-cases (ltb cursor event.sequence)) [
  | inl after ↦ rw after (upto-le cursor events)
  | inr upto ↦ rw upto (ground (arith, upto), upto-le cursor events)
]

after-lt :
    (cursor : ℕ) (events : List RunEvent)
    → All (λ e. cursor < e.sequence) (events_after cursor events)
unfolding events_after
after-lt cursor [] = tt
after-lt cursor (event ∷ events) = elim (Bool-cases (ltb cursor event.sequence)) [
  | inl after ↦ rw after (ground (arith, after), after-lt cursor events)
  | inr upto ↦ rw upto (after-lt cursor events)
]

-- The sequence of the last event, 0 without one.
abbrev pub IsLatest : ℕ → List RunEvent → Type 0
IsLatest n events =
    ((events ≡ []) × (n ≡ 0))
    ⊎ ((before : List RunEvent) × (event : RunEvent) × (events ≡ before ++ (event ∷ []))
        × (n ≡ event.sequence))

latest_sequence-IsLatest : (events : List RunEvent) → IsLatest (latest_sequence events) events
latest_sequence-IsLatest [] = inl (refl, refl)
latest_sequence-IsLatest (event ∷ []) = inr ([], event, refl, refl)
latest_sequence-IsLatest (event ∷ next ∷ events) = elim (latest_sequence-IsLatest (next ∷ events)) [
  | inl (empty, _) ↦ absurd (cc empty)
  | inr (before, final, split, n) ↦ inr (event ∷ before, final, ap (◌∷◌ event) split, n)
]

-- A batch continues what the client has: the events up to the cursor and the batch are together
-- the whole window, in order.
pub record IsRest (w : RunEventWindow) (cursor : ℕ) (received : List RunEvent) : Type 0 where
  pub seen : List RunEvent
  pub whole : seen ++ received ≡ w.events
  pub old : All (λ e. e.sequence ≤ cursor) seen
  pub new : All (λ e. cursor < e.sequence) received

-- A replay from an accepted window: it answers as expired when the retention is over or the cursor
-- is before the oldest event that can follow it, with an error when the cursor is past the latest
-- event, and otherwise with a batch that continues what the client has: the events up to the cursor
-- and the batch are together the whole window, in order.
pub replay_continues :
    (w : RunEventWindow) (cursor : ℕ) (t : Timestamp)
    → IsWindow w
    → (latest : ℕ) × IsLatest latest w.events
      × (((w.retention_expires_at ≤ t) × (replay_events w cursor t ≡ expired w.run_id))
          ⊎ ((t < w.retention_expires_at)
              × (cursor + 1 < w.oldest_available_sequence)
              × (replay_events w cursor t ≡ expired w.run_id))
          ⊎ ((t < w.retention_expires_at)
              × (w.oldest_available_sequence ≤ cursor + 1)
              × (latest < cursor)
              × (replay_events w cursor t ≡ cursor_error))
          ⊎ ((t < w.retention_expires_at)
              × (w.oldest_available_sequence ≤ cursor + 1)
              × (cursor ≤ latest)
              × ((received : List RunEvent) × (replay_events w cursor t ≡ batch received)
                  × IsRest w cursor received)))
unfolding replay_events
replay_continues w cursor t good =
    let events = w.events in
    let rest : IsRest w cursor (events_after cursor events) = record {
      seen = events_upto cursor events;
      whole = split_at_cursor cursor w.oldest_available_sequence events good.order;
      old = upto-le cursor events;
      new = after-lt cursor events;
    } in
    (
      latest_sequence events,
      latest_sequence-IsLatest events,
      elim (Bool-cases (leb w.retention_expires_at t)) [
        | inl over ↦ inl (ground (arith, over))
        | inr held ↦ elim (Bool-cases (ltb cursor (w.oldest_available_sequence - 1))) [
          | inl early ↦ inr (inl (ground (arith, held, early)))
          | inr late ↦ elim (Bool-cases (ltb (latest_sequence events) cursor)) [
            | inl past ↦ inr (inr (inl (ground (arith, held, late, past))))
            | inr within ↦ inr (
                inr (
                  inr (
                    ground (arith, held),
                    ground (arith, late, good.first),
                    ground (arith, within),
                    (events_after cursor events, rw (held, late, within) refl, rest),
                  )))
          ]
        ]
      ],
    )

-- A replay is refused as expired exactly when the retention is over or an event that the client
-- has not seen was dropped.
pub replay_expired_iff :
    (w : RunEventWindow) (cursor : ℕ) (t : Timestamp)
    → (replay_events w cursor t ≡ expired w.run_id)
      ↔ ((w.retention_expires_at ≤ t) ⊎ (cursor + 1 < w.oldest_available_sequence))
unfolding replay_events
replay_expired_iff w cursor t = (λ h. ground arith, λ h. ground arith)
