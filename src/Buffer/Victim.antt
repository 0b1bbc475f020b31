-- ===== src/Buffer/Victim.antt =====
-- What ClockReplacer::Victim of buffer/clock_replacer.cpp returns and changes.
use granite_db.Prelude.{
  ℕ, zero, suc, ◌+◌, ◌-◌, ◌*◌, ◌%◌, ◌≡◌, refl, subst, ◌∙◌, false, List, [], ◌∷◌, Option, some, ◌⊎◌,
  inl, inr, set, length, ltb, ◌==◌, arith, if◌then◌else◌, ==_iff, Bool-cases,
}
use granite_db.Buffer.{
  FrameDesc, frame_at, ClockReplacer, max_usage_count, Probe, takes, passes, ages, probe,
  victim_loop, victim,
}

-- The frame without its usage count.
unfoldable pub ageless : FrameDesc → FrameDesc
ageless frame = record frame { usage_count = 0 }

-- A write out of bounds is not read, one within bounds is, and other frames stay.
pub frame_at-set :
    (frames : List FrameDesc) (i j : ℕ) (frame : FrameDesc)
    → frame_at (set frames i frame) j ≡ (
        if (i == j)
        then (if ltb i (length frames) then frame else frame_at frames j)
        else frame_at frames j)
unfolding frame_at
frame_at-set [] i j frame = ground arith
frame_at-set (f ∷ fs) zero zero frame = ground arith
frame_at-set (f ∷ fs) zero (suc j) frame = ground arith
frame_at-set (f ∷ fs) (suc i) zero frame = ground arith
frame_at-set (f ∷ fs) (suc i) (suc j) frame = ground (arith, frame_at-set fs i j frame)

aged-ageless :
    (frames : List FrameDesc) (i j : ℕ)
    → ageless (
        frame_at
          (set frames i
            (record (frame_at frames i) { usage_count = (frame_at frames i).usage_count - 1 }))
          j)
      ≡ ageless (frame_at frames j)
unfolding ageless
aged-ageless frames i j =
    let aged : FrameDesc = record (frame_at frames i) {
      usage_count = (frame_at frames i).usage_count - 1;
    } in
    ground (arith, frame_at-set frames i j aged, ==_iff i j)

victim_loop-ageless :
    (steps : ℕ) (c : ClockReplacer) (frames : List FrameDesc) (j : ℕ)
    → ageless (frame_at (victim_loop steps c frames).1 j) ≡ ageless (frame_at frames j)
unfolding victim_loop
victim_loop-ageless zero c frames j = refl
victim_loop-ageless (suc steps) c frames j =
    let moved : ClockReplacer = record c { clock_hand = (c.clock_hand + 1) % c.pool_size } in
    let frame : FrameDesc = frame_at frames c.clock_hand in
    let aged : List FrameDesc =
      set frames c.clock_hand (record frame { usage_count = frame.usage_count - 1 }) in
    let passed = victim_loop-ageless steps moved frames j in
    let rest = victim_loop-ageless steps moved aged j ∙ aged-ageless frames c.clock_hand j in
    elim (probe frame)
      as (λ p.
        ageless (
          frame_at
            (elim p as (λ _. ClockReplacer × List FrameDesc × Option ℕ) [
              | takes ↦ (moved, frames, some c.clock_hand)
              | passes ↦ victim_loop steps moved frames
              | ages ↦ victim_loop steps moved aged
            ]).1
            j)
        ≡ ageless (frame_at frames j)) [ takes ↦ refl | passes ↦ passed | ages ↦ rest ]

-- The frame may be taken: nothing is in it, or nobody holds it.
unfoldable pub IsFree : FrameDesc → Type 0
IsFree frame = (frame.is_valid ≡ false) ⊎ (frame.pin_count ≡ 0)

probe-IsFree : (frame : FrameDesc) → probe frame ≡ takes → IsFree frame
unfolding probe IsFree
probe-IsFree frame e = ground arith

victim_loop-IsFree :
    (steps : ℕ) (c : ClockReplacer) (frames : List FrameDesc) (i : ℕ)
    → (victim_loop steps c frames).2 ≡ some i
    → IsFree (frame_at (victim_loop steps c frames).1 i)
unfolding victim_loop
victim_loop-IsFree zero c frames i e = ground arith
victim_loop-IsFree (suc steps) c frames i e =
    go (probe frame) refl (victim_loop-IsFree steps moved frames i)
      (victim_loop-IsFree steps moved aged i) e
  where
    moved : ClockReplacer
    moved = record c { clock_hand = (c.clock_hand + 1) % c.pool_size }

    frame : FrameDesc
    frame = frame_at frames c.clock_hand

    aged : List FrameDesc
    aged = set frames c.clock_hand (record frame { usage_count = frame.usage_count - 1 })

    result : Probe → ClockReplacer × List FrameDesc × Option ℕ
    result takes = (moved, frames, some c.clock_hand)
    result passes = victim_loop steps moved frames
    result ages = victim_loop steps moved aged

    go :
        (p : Probe)
        → probe frame ≡ p
        → ((result passes).2 ≡ some i → IsFree (frame_at (result passes).1 i))
        → ((result ages).2 ≡ some i → IsFree (frame_at (result ages).1 i))
        → (result p).2 ≡ some i
        → IsFree (frame_at (result p).1 i)
    go takes f hp ha e' =
        let same : c.clock_hand ≡ i = ground arith in
        subst (λ k. IsFree (frame_at frames k)) same (probe-IsFree frame f)
    go passes f hp ha e' = hp e'
    go ages f hp ha e' = ha e'

-- The clock changes nothing of a frame but its usage count, and the frame it gives is one that
-- holds no page or that nobody has pinned.
pub victim-IsFree :
    (c : ClockReplacer) (frames : List FrameDesc)
    → ((j : ℕ) → ageless (frame_at (victim c frames).1 j) ≡ ageless (frame_at frames j))
      × ((i : ℕ) → (victim c frames).2 ≡ some i → IsFree (frame_at (victim c frames).1 i))
unfolding victim
victim-IsFree c frames = elim (Bool-cases (c.pool_size == 0)) [
  | inl empty ↦ (λ j. ground arith, λ i e. ground arith)
  | inr full ↦
      let steps : ℕ = c.pool_size * (max_usage_count + 2) in
      (
        λ j. ground (arith, victim_loop-ageless steps c frames j),
        λ i e. ground (arith, victim_loop-IsFree steps c frames i),
      )
]
