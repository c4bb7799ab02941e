-- ===== src/Input/Packed.antt =====
-- An event survives its packing, and leaves the flag of a completion free.
use plinth_os.Base.{ℕ, ◌/◌, ◌%◌, ◌^◌, ◌<◌, ◌≡◌, ◌∙◌, arith, bit_and}
use plinth_os.Base.Bits.{bit_and-halves, bit_and-mask, size64}
use plinth_os.Input.{
  Event, mouse_move, pack, event_kind, event_code, event_value, mouse_dx, mouse_dy,
}

fields-pack :
    (e : Event)
    → e.kind < 2 ^ 8
    → e.code < 2 ^ 16
    → e.value < 2 ^ 7
    → (event_kind (pack e) ≡ e.kind)
      × (event_code (pack e) ≡ e.code)
      × (event_value (pack e) ≡ e.value)
      × (pack e < 2 ^ 31)
unfolding pack event_kind event_code event_value
fields-pack e k c v = (omega arith, omega arith, omega arith, omega arith)

mask127 : (x : ℕ) → bit_and x 127 ≡ x % 128
mask127 x =
    let halves = bit_and-halves x 127 in let rest = bit_and-mask (x / 2) size64 in omega arith

-- The shims read from a packed mouse event the two movements and the buttons that the driver put in,
-- and its kind; a packed event never uses the bit that marks a completion as following a loss.
mouse_move-pack :
    (dx dy buttons : ℕ)
    → dx < 2 ^ 8
    → dy < 2 ^ 8
    → buttons < 2 ^ 7
    → (event_kind (pack (mouse_move dx dy buttons)) ≡ 2)
      × (mouse_dx (pack (mouse_move dx dy buttons)) ≡ dx)
      × (mouse_dy (pack (mouse_move dx dy buttons)) ≡ dy)
      × (event_value (pack (mouse_move dx dy buttons)) ≡ buttons)
      × (pack (mouse_move dx dy buttons) < 2 ^ 31)
unfolding mouse_move mouse_dx mouse_dy
mouse_move-pack dx dy buttons x y b =
    let masked : bit_and buttons 127 ≡ buttons = mask127 buttons ∙ omega arith in
    let (k, c, v, small) =
      fields-pack (mouse_move dx dy buttons) (omega arith) (omega arith) (omega (arith, masked)) in
    (k, omega (arith, c), omega (arith, c), v ∙ masked, small)
