-- ===== src/Regalloc/Frame.antt =====
-- The stack frame of src/regalloc.c.
use vortech.Prelude.{ℕ, ◌+◌, ◌*◌, ◌%◌, ◌^◌, ◌≤◌, ◌<◌, ◌≡◌, arith}
use vortech.Regalloc.Scan.{align16, frame_size}

align16_lem :
    (n : ℕ) → n + 15 < 2 ^ 32 → (align16 n % 16 ≡ 0) × (n ≤ align16 n) × (align16 n ≤ n + 15)
unfolding align16
align16_lem n h = (omega (arith, h), omega (arith, h), omega (arith, h))

-- The frame is a multiple of 16 bytes that holds the stack slots and the saved registers, 8 bytes
-- each, and has at most 30 bytes more, where the sum is in the range of 32 bits.
pub frame_size-holds :
    (slots saved : ℕ)
    → slots * 8 + saved * 8 + 30 < 2 ^ 32
    → (frame_size slots saved % 16 ≡ 0)
      × (slots * 8 + saved * 8 ≤ frame_size slots saved)
      × (frame_size slots saved ≤ slots * 8 + saved * 8 + 30)
unfolding frame_size
frame_size-holds slots saved h =
    let a = align16_lem (slots * 8 % 2 ^ 32) (omega (arith, h)) in
    let b =
      align16_lem ((align16 (slots * 8 % 2 ^ 32) + saved * 8) % 2 ^ 32) (omega (arith, h, a.2)) in
    (b.0, omega (arith, h, a.1, a.2, b.1), omega (arith, h, a.1, a.2, b.2))
