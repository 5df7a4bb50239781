-- ===== src/Cabinet/BerthStatus/Winner.antt =====
-- Which row of the occupancy table wins in `compute`.
use erp_iot.Base.{
  refl, ℕ, ◌+◌, ◌≤◌, ◌≡◌, ◌≢◌, ◌↔◌, inl, inr, true, false, some, arith, All, Option-cases,
}
use erp_iot.Base.Int.{pos}
use erp_iot.Base.Time.{Time}
use erp_iot.Cabinet.BerthStatus.{
  BerthSignals, StatusCode, unclassified, vessel_mismatch, vessel_present, no_cabinet, no_contact,
  standalone, outlet_silent, power_without_vessel, reserved_empty, free, nobody, wrong,
  vessel_of_code, vessel_signal, connection_signal, green, red, table, truth, winner, compute,
  offline_after, vessel_fresh_for,
}

-- The cabinet is there, heard within ten minutes, answers now, and runs under the ERP.
pub record IsInContact (s : BerthSignals) : Type 0 where
  pub served : s.has_cabinet ≡ true
  pub heard : Time
  pub heartbeat : s.last_heartbeat ≡ some heard
  pub recent : s.now ≤ heard + offline_after
  pub answered : s.data_is_stale ≡ false
  pub smart : s.smart_mode ≢ some false
  pub reported : s.outlet_silent ≡ false

-- The vessel analysis is at most thirty minutes old and says `code`.
pub record IsAnalysed (s : BerthSignals) (code : ℕ) : Type 0 where
  pub said : s.state_code ≡ some (pos code)
  pub seen : Time
  pub analysed : s.last_analyzed ≡ some seen
  pub fresh : s.now ≤ seen + vessel_fresh_for

pub record IsFree (s : BerthSignals) : Type 0 where
  pub contact : IsInContact s
  pub empty : IsAnalysed s 0
  pub unpowered : s.power_active ≢ some true
  pub unreserved : s.reserved ≢ some true

-- A green row wins only over nine rows that are false.
winner-green :
    (s : BerthSignals)
    → (winner s).colour ≡ green
    → (truth s no_cabinet ≡ false)
      × (truth s no_contact ≡ false)
      × (truth s standalone ≡ false)
      × (truth s outlet_silent ≡ false)
      × (truth s power_without_vessel ≡ false)
      × (truth s reserved_empty ≡ false)
      × (truth s free ≡ true)
unfolding winner
winner-green s h = ground arith

contact_of_truth :
    (s : BerthSignals)
    → truth s no_cabinet ≡ false
    → truth s no_contact ≡ false
    → truth s standalone ≡ false
    → truth s outlet_silent ≡ false
    → IsInContact s
unfolding truth connection_signal
contact_of_truth s a b c d = elim (Option-cases s.last_heartbeat) [
  | inl silent ↦ ground arith
  | inr (heard, e) ↦ record {
    served = ground arith;
    heard = heard;
    heartbeat = e;
    recent = ground arith;
    answered = ground arith;
    smart = ground arith;
    reported = d;
  }
]

-- A vessel signal that is known comes from a fresh analysis with that code.
IsAnalysed-of_nobody : (s : BerthSignals) → vessel_signal s ≡ nobody → IsAnalysed s 0
unfolding vessel_signal
IsAnalysed-of_nobody s e = elim (Option-cases s.state_code) [
  | inl missing ↦ ground arith
  | inr (code, said) ↦ elim (Option-cases s.last_analyzed) [
    | inl missing ↦ ground arith
    | inr (seen, at) ↦ record {
      said = ground arith;
      seen = seen;
      analysed = at;
      fresh = ground arith;
    }
  ]
]

IsAnalysed-of_wrong : (s : BerthSignals) → vessel_signal s ≡ wrong → IsAnalysed s 2
unfolding vessel_signal
IsAnalysed-of_wrong s e = elim (Option-cases s.state_code) [
  | inl missing ↦ ground arith
  | inr (code, said) ↦ elim (Option-cases s.last_analyzed) [
    | inl missing ↦ ground arith
    | inr (seen, at) ↦ record {
      said = ground arith;
      seen = seen;
      analysed = at;
      fresh = ground arith;
    }
  ]
]

vessel_of_analysed :
    (s : BerthSignals) (code : ℕ) → IsAnalysed s code → vessel_signal s ≡ vessel_of_code (pos code)
unfolding vessel_signal
vessel_of_analysed s code a = rw (a.said, a.analysed) (ground (arith, a.fresh))

contact_truths :
    (s : BerthSignals)
    → IsInContact s
    → (truth s no_cabinet ≡ false)
      × (truth s no_contact ≡ false)
      × (truth s standalone ≡ false)
      × (truth s outlet_silent ≡ false)
unfolding truth connection_signal
contact_truths s c = ground (arith, c.heartbeat, c.recent)

winner-red :
    (s : BerthSignals)
    → (winner s).colour ≡ red
    → (truth s no_cabinet ≡ false)
      × (truth s no_contact ≡ false)
      × (truth s standalone ≡ false)
      × (truth s outlet_silent ≡ false)
      × (truth s vessel_mismatch ≡ true)
unfolding winner
winner-red s h = ground arith

truth-free : (s : BerthSignals) → truth s free ≡ true → vessel_signal s ≡ nobody
unfolding truth
truth-free s h = ground arith

truth-vessel_mismatch :
    (s : BerthSignals) → truth s vessel_mismatch ≡ true → vessel_signal s ≡ wrong
unfolding truth
truth-vessel_mismatch s h = ground arith

-- What an empty berth that is neither powered nor reserved makes of the occupancy rows.
free_truths :
    (s : BerthSignals)
    → vessel_signal s ≡ nobody
    → (truth s free ≡ true)
      × (truth s vessel_mismatch ≡ false)
      × (truth s vessel_present ≡ false)
      × (truth s power_without_vessel ≡ false ↔ s.power_active ≢ some true)
      × (truth s reserved_empty ≡ false ↔ s.reserved ≢ some true)
unfolding truth
free_truths s e = ground arith

green-IsFree : (s : BerthSignals) → (winner s).colour ≡ green → IsFree s
green-IsFree s h =
    let (a, b, c, d, unpowered, unreserved, empty) = winner-green s h in
    let (_, _, _, power, reservation) = free_truths s (truth-free s empty) in
    record {
      contact = contact_of_truth s a b c d;
      empty = IsAnalysed-of_nobody s (truth-free s empty);
      unpowered = power.0 unpowered;
      unreserved = reservation.0 unreserved;
    }

IsFree-green : (s : BerthSignals) → IsFree s → (winner s).colour ≡ green
unfolding winner
IsFree-green s f =
    let (a, b, c, d) = contact_truths s f.contact in
    let (free_row, mismatch, present, power, reservation) =
      free_truths s (vessel_of_analysed s 0 f.empty) in
    rw (a, b, c, d, mismatch, power.1 f.unpowered, reservation.1 f.unreserved, present, free_row)

-- A berth is drawn green exactly when its cabinet is in contact, a fresh vessel analysis says that
-- it is empty, and it is known neither to draw power nor to be reserved.
pub compute-green_iff : (s : BerthSignals) → ((compute s).berth_colour ≡ green) ↔ IsFree s
unfolding compute
compute-green_iff s = (green-IsFree s, IsFree-green s)

truth-mismatch : (s : BerthSignals) → vessel_signal s ≡ wrong → truth s vessel_mismatch ≡ true
unfolding truth
truth-mismatch s e = ground arith

red-IsMismatch : (s : BerthSignals) → (winner s).colour ≡ red → IsInContact s × IsAnalysed s 2
red-IsMismatch s h =
    let (a, b, c, d, mismatch) = winner-red s h in
    (contact_of_truth s a b c d, IsAnalysed-of_wrong s (truth-vessel_mismatch s mismatch))

IsMismatch-red : (s : BerthSignals) → IsInContact s × IsAnalysed s 2 → (winner s).colour ≡ red
unfolding winner
IsMismatch-red s (contact, analysed) =
    let (a, b, c, d) = contact_truths s contact in
    rw (a, b, c, d, truth-mismatch s (vessel_of_analysed s 2 analysed))

-- A berth is drawn red exactly when its cabinet is in contact and a fresh vessel analysis says that
-- the vessel is the wrong one; no alarm, reservation or power signal draws red.
pub compute-red_iff :
    (s : BerthSignals) → ((compute s).berth_colour ≡ red) ↔ (IsInContact s × IsAnalysed s 2)
unfolding compute
compute-red_iff s = (red-IsMismatch s, IsMismatch-red s)

abbrev pub rank_of : StatusCode → ℕ
rank_of no_cabinet = 0
rank_of no_contact = 10
rank_of standalone = 20
rank_of outlet_silent = 25
rank_of vessel_mismatch = 80
rank_of power_without_vessel = 90
rank_of reserved_empty = 100
rank_of vessel_present = 110
rank_of free = 120
rank_of unclassified = 1000

winner-rank_least :
    (s : BerthSignals)
    → truth s unclassified ≡ true
    → (truth s (winner s).code ≡ true)
      × All (λ r. truth s r.code ≡ true → rank_of (winner s).code ≤ r.rank) table
unfolding winner
winner-rank_least s h = ground arith

truth-unclassified : (s : BerthSignals) → truth s unclassified ≡ true
unfolding truth
truth-unclassified s = refl

compute-winner : (s : BerthSignals) → (compute s).status_code ≡ (winner s).code
unfolding compute
compute-winner s = refl

rank_bounded : (c : StatusCode) → rank_of c ≤ 1000
rank_bounded c = ground arith

least_in_table :
    (s : BerthSignals) (n : ℕ)
    → n ≤ 1000
    → All (λ r. truth s r.code ≡ true → n ≤ r.rank) table
    → (c : StatusCode) → truth s c ≡ true
    → n ≤ rank_of c
least_in_table s n b l no_cabinet h = l.0 h
least_in_table s n b l no_contact h = l.1.0 h
least_in_table s n b l standalone h = l.1.1.0 h
least_in_table s n b l outlet_silent h = l.1.1.1.0 h
least_in_table s n b l vessel_mismatch h = l.1.1.1.1.0 h
least_in_table s n b l power_without_vessel h = l.1.1.1.1.1.0 h
least_in_table s n b l reserved_empty h = l.1.1.1.1.1.1.0 h
least_in_table s n b l vessel_present h = l.1.1.1.1.1.1.1.0 h
least_in_table s n b l free h = l.1.1.1.1.1.1.1.1.0 h
least_in_table s n b l unclassified h = b

-- The status that `compute` reports is true of the signals, where `unclassified` counts as true, and
-- no status that is true of them has a lower rank.
pub compute-rank_least :
    (s : BerthSignals) (c : StatusCode)
    → truth s c ≡ true
    → (truth s (compute s).status_code ≡ true) × (rank_of (compute s).status_code ≤ rank_of c)
compute-rank_least s c h =
    let (t, l) = winner-rank_least s (truth-unclassified s) in
    rw (compute-winner s)
      (t, least_in_table s (rank_of (winner s).code) (rank_bounded (winner s).code) l c h)
