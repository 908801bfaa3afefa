-- ===== src/Devices/St7735/Window.antt =====
-- The addresses of an accepted drawing window.
use ecu_drivers.Prelude.{ℕ, ◌+◌, ◌-◌, ◌/◌, ◌%◌, ◌^◌, ◌≤◌, ◌<◌, ◌≡◌, ap₂, true, [], ◌∷◌, arith}
use ecu_drivers.Foundation.Word.{u16}
use ecu_drivers.Devices.St7735.Panel.{PanelProfile, valid_window, address_data}

-- The four bytes that tell the controller of `size` lines from `start` on, in a memory whose visible
-- lines begin at `offset`: the first and the last line, high bytes first. Neither sum wraps,
-- and the last line is inside the extent.
abbrev pub AddressesLines : ℕ → ℕ → ℕ → ℕ → Type 0
AddressesLines offset extent start size =
    let first = offset + start in
    let last = offset + start + size - 1 in
    (start + size ≤ extent)
    × (first ≤ last)
    × (last < 2 ^ 16)
    × (address_data (u16 first) size ≡ first / 256 ∷ first % 256 ∷ last / 256 ∷ last % 256 ∷ [])

lines :
    (offset extent start size : ℕ)
    → 0 < size
    → start + size ≤ extent
    → offset + start + size ≤ 0x1_0000
    → AddressesLines offset extent start size
unfolding address_data
lines offset extent start size pos inside word = (
  inside,
  omega arith,
  omega arith,
  ap₂ (λ (a b : ℕ). a / 256 ∷ a % 256 ∷ b / 256 ∷ b % 256 ∷ []) low high,
)
  where
    low : u16 (offset + start) ≡ offset + start
    low = omega arith

    high : u16 (u16 (offset + start) + size + 2 ^ 16 - 1) ≡ offset + start + size - 1
    high = omega arith

-- A window that is accepted lies inside the panel, and the address bytes computed for it are those
-- of its first and last column and row: no 16-bit sum wraps.
pub window_addresses :
    (p : PanelProfile) (x y width height : ℕ)
    → p.width < 2 ^ 16
    → p.height < 2 ^ 16
    → valid_window p x y width height ≡ true
    → AddressesLines p.column_offset p.width x width × AddressesLines p.row_offset p.height y height
unfolding valid_window
window_addresses p x y width height wide high h = (
  lines p.column_offset p.width x width (ground arith) (ground arith) (ground arith),
  lines p.row_offset p.height y height (ground arith) (ground arith) (ground arith),
)
