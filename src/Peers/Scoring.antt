-- ===== src/Peers/Scoring.antt =====
-- p2p/peer_scoring.go: bounded reputation scores.
use sudharma.Base.{
  Bool, Bool-cases, Bytes, List, [], arith, bytes_eq, bytes_keys, if◌then◌else◌, inl, inr, is_empty,
  leb_ℤ, ltb_ℤ, nat_keys, negsuc, pos, true, ℤ, ◌+ℤ◌, ◌-ℤ◌, ◌||◌, ◌∷◌, ◌≡◌, ◌≤ℤ◌,
}
use sudharma.Dict.{Dict, erase, get, get-erase, get-insert, insert}

abbrev pub peer_score_max : ℤ
peer_score_max = pos 100

-- -100, -50 and -30
abbrev pub peer_score_min : ℤ
peer_score_min = negsuc 99

abbrev pub peer_disconnect_threshold : ℤ
peer_disconnect_threshold = negsuc 49

abbrev pub peer_avoid_threshold : ℤ
peer_avoid_threshold = negsuc 29

-- `scores`
abbrev pub PeerScorer : Type 0
PeerScorer = Dict Bytes ℤ

-- `Score`
unfoldable pub score : PeerScorer → Bytes → ℤ
score s node_id = if is_empty node_id then pos 0 else get (pos 0) node_id s

-- The two bounds of `adjust`.
unfoldable pub clamp_score : ℤ → ℤ
clamp_score next =
    let upper = if ltb_ℤ peer_score_max next then peer_score_max else next in
    if ltb_ℤ upper peer_score_min then peer_score_min else upper

-- `adjust`
unfoldable pub adjust : Bytes → ℤ → PeerScorer → ℤ × PeerScorer
adjust node_id delta s =
    let next = clamp_score (get (pos 0) node_id s +ℤ delta) in (next, insert node_id next s)

-- `Reward` and `Penalize`
unfoldable pub reward : Bytes → ℤ → PeerScorer → ℤ × PeerScorer
reward node_id amount s =
    if is_empty node_id || leb_ℤ amount (pos 0)
    then (score s node_id, s)
    else adjust node_id amount s

unfoldable pub penalize : Bytes → ℤ → PeerScorer → ℤ × PeerScorer
penalize node_id amount s =
    if is_empty node_id || leb_ℤ amount (pos 0)
    then (score s node_id, s)
    else adjust node_id (pos 0 -ℤ amount) s

-- `ShouldAvoid` and `ShouldDisconnect`
unfoldable pub should_avoid : PeerScorer → Bytes → Bool
should_avoid s node_id = leb_ℤ (score s node_id) peer_avoid_threshold

unfoldable pub should_disconnect : PeerScorer → Bytes → Bool
should_disconnect s node_id = leb_ℤ (score s node_id) peer_disconnect_threshold

-- `Remove`
unfoldable pub remove_score : Bytes → PeerScorer → PeerScorer
remove_score node_id s = if is_empty node_id then s else erase node_id s

-- The calls that change the scores.
pub data ScoreEvent : Type 0 where
  rewarded penalized : Bytes → ℤ → ScoreEvent
  forgotten : Bytes → ScoreEvent

unfoldable pub apply_event : ScoreEvent → PeerScorer → PeerScorer
apply_event (rewarded node_id amount) s = (reward node_id amount s).1
apply_event (penalized node_id amount) s = (penalize node_id amount s).1
apply_event (forgotten node_id) s = remove_score node_id s

unfoldable pub apply_events : List ScoreEvent → PeerScorer → PeerScorer
apply_events [] s = s
apply_events (e ∷ es) s = apply_events es (apply_event e s)

-- From -100 to 100.
abbrev pub IsScore : ℤ → Type 0
IsScore n = (peer_score_min ≤ℤ n) × (n ≤ℤ peer_score_max)

clamp_score-IsScore : (n : ℤ) → IsScore (clamp_score n)
unfolding clamp_score
clamp_score-IsScore (pos n) = ground arith
clamp_score-IsScore (negsuc n) = ground arith

abbrev AllScores : PeerScorer → Type 0
AllScores s = (node_id : Bytes) → IsScore (get (pos 0) node_id s)

adjust-AllScores :
    (node_id : Bytes) (delta : ℤ) (s : PeerScorer)
    → AllScores s
    → AllScores (adjust node_id delta s).1
unfolding adjust
adjust-AllScores node_id delta s a j =
    let next = clamp_score (get (pos 0) node_id s +ℤ delta) in
    rw (get-insert (pos 0) node_id j next s) (elim (Bool-cases (bytes_eq node_id j)) [
      | inl e ↦ rw e (clamp_score-IsScore (get (pos 0) node_id s +ℤ delta))
      | inr e ↦ rw e (a j)
    ])

event-AllScores : (e : ScoreEvent) (s : PeerScorer) → AllScores s → AllScores (apply_event e s)
unfolding apply_event reward penalize remove_score
event-AllScores (rewarded node_id amount) s a =
    elim (Bool-cases (is_empty node_id || leb_ℤ amount (pos 0))) [
      | inl e ↦ rw (e, apply_event, reward) a
      | inr e ↦ rw (e, apply_event, reward) (adjust-AllScores node_id amount s a)
    ]
event-AllScores (penalized node_id amount) s a =
    elim (Bool-cases (is_empty node_id || leb_ℤ amount (pos 0))) [
      | inl e ↦ rw (e, apply_event, penalize) a
      | inr e ↦ rw (e, apply_event, penalize) (adjust-AllScores node_id (pos 0 -ℤ amount) s a)
    ]
event-AllScores (forgotten node_id) s a = elim (Bool-cases (is_empty node_id)) [
  | inl e ↦ rw (e, apply_event, remove_score) a
  | inr e ↦
      rw (e, apply_event, remove_score)
        (λ j. rw (get-erase (pos 0) node_id j s) (elim (Bool-cases (bytes_eq node_id j)) [
          | inl f ↦ rw f ((omega arith, omega arith))
          | inr f ↦ rw f (a j)
        ]))
]

from-AllScores :
    (es : List ScoreEvent) (s : PeerScorer) → AllScores s → AllScores (apply_events es s)
unfolding apply_events
from-AllScores [] s a = a
from-AllScores (e ∷ es) s a = from-AllScores es (apply_event e s) (event-AllScores e s a)

none_yet : AllScores []
unfolding get
none_yet j = (omega arith, omega arith)

-- After any rewards, penalties and removals, of any int64 amounts, every score is from -100 to 100, and a
-- peer that should be disconnected should be avoided too.
pub apply_events-IsScore :
    (es : List ScoreEvent) (node_id : Bytes)
    → IsScore (score (apply_events es []) node_id)
      × (should_disconnect (apply_events es []) node_id ≡ true
          → should_avoid (apply_events es []) node_id ≡ true)
unfolding score should_disconnect should_avoid
apply_events-IsScore es node_id =
    let all = from-AllScores es [] none_yet node_id in (ground (arith, all), λ h. ground (arith, h))
