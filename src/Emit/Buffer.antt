-- ===== src/Emit/Buffer.antt =====
-- `CodeBuf` of src/emit.c: the bytes written and the capacity of their block. A block whose size
-- passes 2^64 is not modelled: the allocation fails before that.
use vortech.Prelude.{
  ℕ, zero, suc, ◌+◌, ◌*◌, ◌/◌, ◌%◌, ◌^◌, ◌≤◌, ◌<◌, ◌≡◌, refl, List, [], ◌∷◌, ◌++◌, arith, ltb,
  if◌then◌else◌, if_cases, length, length-append, set,
}

pub record CodeBuf : Type 0 where
  pub data_ : List ℕ
  pub cap : ℕ

abbrev pub cb_init : CodeBuf
cb_init = record { data_ = []; cap = 4096 }

-- `while (need > cap) cap *= 2`, with fuel.
unfoldable pub grow : ℕ → ℕ → ℕ → ℕ
grow zero need cap = cap
grow (suc n) need cap = let more = grow n need (cap * 2) in if ltb cap need then more else cap

unfoldable pub cb_ensure : ℕ → CodeBuf → CodeBuf
unfolding grow
cb_ensure extra cb = let need = length cb.data_ + extra in record cb { cap = grow need need cb.cap }

-- Room for the bytes, and the bytes.
unfoldable pub push : List ℕ → CodeBuf → CodeBuf
unfolding cb_ensure
push bytes cb =
    let roomy = cb_ensure (length bytes) cb in record roomy { data_ = roomy.data_ ++ bytes }

abbrev pub cb_push1 : ℕ → CodeBuf → CodeBuf
cb_push1 a = push (a ∷ [])

abbrev pub cb_push2 : ℕ → ℕ → CodeBuf → CodeBuf
cb_push2 a b = push (a ∷ b ∷ [])

abbrev pub cb_push3 : ℕ → ℕ → ℕ → CodeBuf → CodeBuf
cb_push3 a b c = push (a ∷ b ∷ c ∷ [])

abbrev pub cb_push4 : ℕ → ℕ → ℕ → ℕ → CodeBuf → CodeBuf
cb_push4 a b c d = push (a ∷ b ∷ c ∷ d ∷ [])

-- The `n` low bytes of a number, the lowest one first.
abbrev pub bytes_le : ℕ → ℕ → List ℕ
bytes_le zero v = []
bytes_le (suc n) v = v % 2 ^ 8 ∷ bytes_le n (v / 2 ^ 8)

abbrev pub cb_push32le : ℕ → CodeBuf → CodeBuf
cb_push32le v = push (bytes_le 4 v)

abbrev pub cb_push64le : ℕ → CodeBuf → CodeBuf
cb_push64le v = push (bytes_le 8 v)

-- The bytes written over those from `offset` on.
abbrev pub overwrite : List ℕ → ℕ → List ℕ → List ℕ
overwrite [] offset xs = xs
overwrite (b ∷ bs) offset xs = overwrite bs (suc offset) (set xs offset b)

unfoldable pub cb_patch32 : ℕ → ℕ → CodeBuf → CodeBuf
cb_patch32 offset v cb = record cb { data_ = overwrite (bytes_le 4 v) offset cb.data_ }

-- The bytes are inside the block.
abbrev pub IsBounded : CodeBuf → Type 0
IsBounded cb = (0 < cb.cap) × (length cb.data_ ≤ cb.cap)

grow-enough :
    (n need cap : ℕ) → 0 < cap → need ≤ n + cap → (need ≤ grow n need cap) × (cap ≤ grow n need cap)
unfolding grow
grow-enough zero need cap pos h = (omega arith, omega arith)
grow-enough (suc n) need cap pos h =
    let more = grow-enough n need (cap * 2) (omega arith) (omega arith) in
    if_cases (λ c. (need ≤ c) × (cap ≤ c)) (ltb cap need) _ _
      (λ small. (more.0, let le = more.1 in omega arith)) (λ big. (ground arith, omega arith))

-- A push writes inside the block, whatever its size: the buffer grows first and never shrinks, and
-- the bytes that stood in it are kept, with the new ones behind them.
pub push-IsBounded :
    (bytes : List ℕ) (cb : CodeBuf)
    → IsBounded cb
    → IsBounded (push bytes cb)
      × (cb.cap ≤ (push bytes cb).cap)
      × ((push bytes cb).data_ ≡ cb.data_ ++ bytes)
unfolding push
push-IsBounded bytes cb (pos, fit) =
    let need = length cb.data_ + length bytes in
    let (enough, larger) = grow-enough need need cb.cap pos (omega arith) in
    let e = length-append cb.data_ bytes in ((omega arith, omega arith), larger, refl)
