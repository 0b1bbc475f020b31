-- ===== src/Buffer.antt =====
-- buffer/: frame_desc.h and clock_replacer.cpp here, buffer_pool_manager.cpp in Pool.
pub mod Victim
pub mod Pool
use granite_db.Prelude.{
  ℕ, zero, suc, ◌+◌, ◌-◌, ◌*◌, ◌%◌, Bool, true, false, not, List, Option, none, some, get_elem?,
  set, ltb, ◌==◌, if◌then◌else◌,
}
use granite_db.Types.{PageId, no_page}

pub record FrameDesc : Type 0 where
  pub page_id : PageId
  pub is_dirty : Bool
  pub is_valid : Bool
  pub pin_count : ℕ
  pub usage_count : ℕ

-- FrameDesc::Reset, which gives the member initialisers too.
abbrev pub reset_frame : FrameDesc
reset_frame = record {
  page_id = no_page;
  is_dirty = false;
  is_valid = false;
  pin_count = 0;
  usage_count = 0;
}

-- `frame_table[i]`; the source indexes within the table only.
unfoldable pub frame_at : List FrameDesc → ℕ → FrameDesc
frame_at frames i = elim (get_elem? frames i) [ none ↦ reset_frame | some frame ↦ frame ]

pub record ClockReplacer : Type 0 where
  pub pool_size : ℕ
  pub clock_hand : ℕ

abbrev pub max_usage_count : ℕ
max_usage_count = 5

unfoldable pub record_access : FrameDesc → FrameDesc
record_access frame =
    if ltb frame.usage_count max_usage_count
    then record frame { usage_count = suc frame.usage_count }
    else frame

-- What the clock does with the frame under its hand.
pub data Probe : Type 0 where
  takes passes ages : Probe

unfoldable pub probe : FrameDesc → Probe
probe frame =
    if not frame.is_valid
    then takes
    else if ltb 0 frame.pin_count
    then passes
    else if frame.usage_count == 0
    then takes
    else ages

unfoldable pub victim_loop :
    ℕ → ClockReplacer → List FrameDesc → ClockReplacer × List FrameDesc × Option ℕ
victim_loop zero c frames = (c, frames, none)
victim_loop (suc steps) c frames =
    let current = c.clock_hand in
    let frame = frame_at frames current in
    let moved : ClockReplacer = record c { clock_hand = (current + 1) % c.pool_size } in
    elim (probe frame) [
      | takes ↦ (moved, frames, some current)
      | passes ↦ victim_loop steps moved frames
      | ages ↦
          victim_loop steps moved
            (set frames current (record frame { usage_count = frame.usage_count - 1 }))
    ]

unfoldable pub victim : ClockReplacer → List FrameDesc → ClockReplacer × List FrameDesc × Option ℕ
unfolding victim_loop
victim c frames =
    if c.pool_size == 0
    then (c, frames, none)
    else victim_loop (c.pool_size * (max_usage_count + 2)) c frames
