-- ===== src/Bpf/Message/Inverse.antt =====
-- democracy-scheduler/src/bpf.rs: what any 40 bytes of the ring are read as.
use mathlib.Core.List.{append-nil, append_assoc}
use native.Mathlib.Nat.{pow-suc}
use managed_linux_democracy.Prelude.{
  ap, ℕ, zero, suc, ◌+◌, ◌*◌, ◌/◌, ◌%◌, ◌^◌, ◌≤◌, ◌<◌, ◌≡◌, refl, sym, subst, ◌∙◌, arith, All,
  length, [], ◌∷◌, ◌++◌,
}
use managed_linux_democracy.Bpf.Message.{
  Bytes, read, write, signed, pattern_of, IsI32, IsInRange, from_bytes, to_queued_task, to_bytes,
}

abbrev pub IsByte : ℕ → Type 0
IsByte b = b < 256

-- A number read from `k` bytes fits them, and they are its bytes.
abbrev IsRead : ℕ → Bytes → ℕ × Bytes → Type 0
IsRead k bytes (n, rest) =
    (n < 256 ^ k) × (write k n ++ rest ≡ bytes) × All IsByte rest × (length rest + k ≡ length bytes)

read-IsRead :
    (k : ℕ) (bytes : Bytes) → All IsByte bytes → k ≤ length bytes → IsRead k bytes (read k bytes)
unfolding read write
read-IsRead zero bytes h enough = (omega arith, refl, h, omega arith)
read-IsRead (suc k) [] h enough = absurd (omega arith)
read-IsRead (suc k) (b ∷ bytes) h enough =
    let (fits, same, rest, left) = read-IsRead k bytes h.1 (omega arith) in
    let n : ℕ = (read k bytes).0 in
    let low : (b + 256 * n) % 256 ≡ b = omega (arith, h.0) in
    let high : (b + 256 * n) / 256 ≡ n = omega (arith, h.0) in
    (
      omega (arith, pow-suc 256 k, fits, h.0),
      rw (low, high) (ap (λ t. b ∷ t) same),
      rest,
      omega (arith, left),
    )

signed-fits : (w : ℕ) → w < 256 ^ 4 → IsI32 (signed w) × (pattern_of (signed w) ≡ w)
signed-fits w h = ground arith

no_bytes : (bytes : Bytes) → length bytes ≡ 0 → bytes ≡ []
no_bytes [] h = refl
no_bytes (b ∷ bytes) h = absurd (omega arith)

joined :
    (w₁ w₂ w₃ w₄ w₅ w₆ b₁ b₂ b₃ b₄ b₅ bytes : Bytes)
    → w₁ ++ b₁ ≡ bytes
    → w₂ ++ b₂ ≡ b₁
    → w₃ ++ b₃ ≡ b₂
    → w₄ ++ b₄ ≡ b₃
    → w₅ ++ b₅ ≡ b₄
    → w₆ ++ [] ≡ b₅
    → w₁ ++ w₂ ++ w₃ ++ w₄ ++ w₅ ++ w₆ ≡ bytes
joined w₁ w₂ w₃ w₄ w₅ w₆ b₁ b₂ b₃ b₄ b₅ bytes e₁ e₂ e₃ e₄ e₅ e₆ =
    let c₅ = ap (λ r. w₅ ++ r) (sym (append-nil w₆) ∙ e₆) ∙ e₅ in
    let c₄ = ap (λ r. w₄ ++ r) c₅ ∙ e₄ in
    let c₃ = ap (λ r. w₃ ++ r) c₄ ∙ e₃ in
    let c₂ = ap (λ r. w₂ ++ r) c₃ ∙ e₂ in simp append_assoc (ap (λ r. w₁ ++ r) c₂ ∙ e₁)

-- Whatever 40 bytes arrive, the task that is read from them has its fields in the range of their C
-- types, and its message is those very bytes: nothing is lost.
pub from_bytes-IsInRange :
    (bytes : Bytes)
    → length bytes ≡ 40
    → All IsByte bytes
    → IsInRange (to_queued_task (from_bytes bytes))
      × (to_bytes (to_queued_task (from_bytes bytes)) ≡ bytes)
unfolding to_queued_task from_bytes to_bytes
from_bytes-IsInRange bytes size h =
    let b₁ : Bytes = (read 4 bytes).1 in
    let b₂ : Bytes = (read 4 b₁).1 in
    let b₃ : Bytes = (read 8 b₂).1 in
    let b₄ : Bytes = (read 8 b₃).1 in
    let b₅ : Bytes = (read 8 b₄).1 in
    let b₆ : Bytes = (read 8 b₅).1 in
    let (fits₁, same₁, h₁, left₁) = read-IsRead 4 bytes h (omega arith) in
    let (fits₂, same₂, h₂, left₂) = read-IsRead 4 b₁ h₁ (omega (arith, left₁)) in
    let (fits₃, same₃, h₃, left₃) = read-IsRead 8 b₂ h₂ (omega (arith, left₁, left₂)) in
    let (fits₄, same₄, h₄, left₄) = read-IsRead 8 b₃ h₃ (omega (arith, left₁, left₂, left₃)) in
    let (fits₅, same₅, h₅, left₅) =
      read-IsRead 8 b₄ h₄ (omega (arith, left₁, left₂, left₃, left₄)) in
    let (fits₆, same₆, h₆, left₆) =
      read-IsRead 8 b₅ h₅ (omega (arith, left₁, left₂, left₃, left₄, left₅)) in
    let (pid_fits, pid) = signed-fits (read 4 bytes).0 fits₁ in
    let (cpu_fits, cpu) = signed-fits (read 4 b₁).0 fits₂ in
    let none_left : length b₆ ≡ 0 = omega (arith, left₁, left₂, left₃, left₄, left₅, left₆) in
    (
      record {
        pid_fits = pid_fits;
        cpu_fits = cpu_fits;
        cpumask_cnt_fits = fits₃;
        sum_exec_runtime_fits = fits₄;
        nvcsw_fits = fits₅;
        weight_fits = fits₆;
      },
      rw (pid, cpu)
          (joined (write 4 (read 4 bytes).0) (write 4 (read 4 b₁).0) (write 8 (read 8 b₂).0)
            (write 8 (read 8 b₃).0) (write 8 (read 8 b₄).0) (write 8 (read 8 b₅).0) b₁ b₂ b₃ b₄ b₅
            bytes same₁ same₂ same₃ same₄ same₅
            (subst (λ r. write 8 (read 8 b₅).0 ++ r ≡ b₅) (no_bytes b₆ none_left) same₆)),
    )
