-- ===== src/Input.antt =====
-- kernel/src/input.rs: events of the input devices, and who may listen to them.
--
-- A field of an event is a byte, or a word of 16 bits, as a number below 2 ^ 8 or 2 ^ 16; the casts
-- are written out, and an `i8` is given by its byte.
pub mod Packed
use plinth_os.Base.{
  ℕ, zero, suc, ◌+◌, ◌*◌, ◌/◌, ◌%◌, ◌^◌, ◌<◌, ◌≡◌, Bool, true, false, Option, none, some, ◌==◌, ltb,
  if◌then◌else◌, bit_and,
}
use plinth_os.Capability.{Capability, CapObject, event_source, right_read}
use plinth_os.CapTable
use plinth_os.CapTable.{Result, ok, err}
use plinth_os.Kernel.{Kernel, current}

abbrev pub event_key : ℕ
event_key = 1

abbrev pub event_mouse_move : ℕ
event_mouse_move = 2

abbrev pub source_keyboard : ℕ
source_keyboard = 0

abbrev pub source_mouse : ℕ
source_mouse = 1

abbrev pub n_sources : ℕ
n_sources = 2

pub record Event : Type 0 where
  pub kind : ℕ
  pub code : ℕ
  pub value : ℕ

unfoldable pub key : ℕ → Event
key scancode = record {
  kind = event_key;
  code = scancode;
  value = if bit_and scancode 128 == 0 then 1 else 0;
}

unfoldable pub mouse_move : ℕ → ℕ → ℕ → Event
mouse_move dx dy buttons = record {
  kind = event_mouse_move;
  code = dx * 2 ^ 8 + dy;
  value = bit_and buttons 127;
}

-- The three fields do not overlap, and so `|` is `+`.
unfoldable pub pack : Event → ℕ
pack e = e.kind + e.code * 2 ^ 8 + e.value * 2 ^ 24

abbrev pub known_source : CapObject → Option ℕ
known_source (event_source id) = if ltb id n_sources then some id else none
known_source _ = none

abbrev pub found_source : Result Capability → Option ℕ
found_source (ok c) = known_source c.object
found_source (err e) = none

unfoldable pub source_for : Kernel → ℕ → Option ℕ
source_for k slot = elim (current k) [
  | none ↦ none
  | some p ↦ found_source (CapTable.lookup p.caps slot right_read)
]

-- The shims of libplinth/src/lib.rs that take an event apart.
unfoldable pub event_kind : ℕ → ℕ
event_kind ev = ev % 2 ^ 8

unfoldable pub event_code : ℕ → ℕ
event_code ev = ev / 2 ^ 8 % 2 ^ 16

unfoldable pub event_value : ℕ → ℕ
event_value ev = ev / 2 ^ 24 % 2 ^ 8

unfoldable pub mouse_dx : ℕ → ℕ
mouse_dx ev = event_code ev / 2 ^ 8

unfoldable pub mouse_dy : ℕ → ℕ
mouse_dy ev = event_code ev % 2 ^ 8
