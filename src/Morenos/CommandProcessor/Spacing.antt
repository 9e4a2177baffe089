-- ===== src/Morenos/CommandProcessor/Spacing.antt =====
-- The checks of `validate` that compare each command of a kind with the one before it: the rephase
-- commands of a channel, and the transmit commands.
use radar_software.Prelude.{
  ℕ, ◌+◌, ◌≤◌, ◌<◌, ◌≡◌, refl, sym, ◌∙◌, ◌⊎◌, Bool, true, false, ◌&&◌, Option, none, some, List, [],
  ◌∷◌, inl, inr, arith, if◌then◌else◌, Bool-cases, All, filter, u64_mod, sub64, add64, sub64-of_le,
}
use radar_software.Morenos.Settings.{au_command_delay}
use radar_software.Morenos.ControlCommand.{
  CommandType, ControlCommand, nop_command, is_nop, is_transmit, is_tr_rephase, is_rs_rephase,
  ct_nop,
}
use radar_software.Morenos.PriorityQueue.{IsSorted}
use radar_software.Morenos.CommandProcessor.{
  CommandProcessor, due, next_rephase, check_rephase, check_transmit, validate,
}
use radar_software.Morenos.CommandProcessor.Run.{IsOrdered}

-- Each command comes at least `gap` after the one before it, the first one after `prev`.
abbrev pub Apart : (ControlCommand → ℕ) → ControlCommand → List ControlCommand → Type 0
Apart gap prev [] = Unit
Apart gap prev (c ∷ cs) = (prev.execution_time + gap prev ≤ c.execution_time) × Apart gap c cs

abbrev pub Spaced : (ControlCommand → ℕ) → List ControlCommand → Type 0
Spaced gap [] = Unit
Spaced gap (c ∷ cs) = Apart gap c cs

-- At `prev`, of which the flag says that it is the initial nop.
abbrev After : Bool → (ControlCommand → ℕ) → ControlCommand → List ControlCommand → Type 0
After true gap prev cs = Spaced gap cs
After false gap prev cs = Apart gap prev cs

-- Commands in 64 bits, with their lengths.
abbrev pub InRange : List ControlCommand → Type 0
InRange = All (λ c. c.execution_time + c.execution_length < u64_mod)

abbrev NotBefore : ControlCommand → List ControlCommand → Type 0
NotBefore prev = All (λ c. prev.execution_time ≤ c.execution_time)

-- The rephase loop on the commands of one kind alone.
check_channel : (CommandType → Bool) → ControlCommand → List ControlCommand → Bool
unfolding next_rephase
check_channel kind prev [] = true
check_channel kind prev (c ∷ cs) = elim (if kind c.type then next_rephase prev c else some prev) [
  | none ↦ false
  | some prev' ↦ check_channel kind prev' cs
]

check_rephase-channels :
    (prev_tr prev_rs : ControlCommand) (cs : List ControlCommand)
    → check_rephase prev_tr prev_rs cs
      ≡ (check_channel is_tr_rephase prev_tr cs && check_channel is_rs_rephase prev_rs cs)
unfolding check_rephase check_channel
check_rephase-channels prev_tr prev_rs [] = refl
check_rephase-channels prev_tr prev_rs (c ∷ cs) =
    both (if is_tr_rephase c.type then next_rephase prev_tr c else some prev_tr)
      (if is_rs_rephase c.type then next_rephase prev_rs c else some prev_rs)
      (λ tr rs. check_rephase-channels tr rs cs)
  where
    and_false : (b : Bool) → false ≡ (b && false)
    and_false true = refl
    and_false false = refl

    both :
        (next_tr next_rs : Option ControlCommand)
        → ((tr rs : ControlCommand)
            → check_rephase tr rs cs
              ≡ (check_channel is_tr_rephase tr cs && check_channel is_rs_rephase rs cs))
        → elim next_tr [
          | none ↦ false
          | some tr ↦ elim next_rs [ none ↦ false | some rs ↦ check_rephase tr rs cs ]
        ]
          ≡ (elim next_tr [ none ↦ false | some tr ↦ check_channel is_tr_rephase tr cs ]
              && elim next_rs [ none ↦ false | some rs ↦ check_channel is_rs_rephase rs cs ])
    both none next_rs ih = refl
    both (some tr) none ih = and_false (check_channel is_tr_rephase tr cs)
    both (some tr) (some rs) ih = ih tr rs

module _ (kind : CommandType → Bool) (prev c : ControlCommand) (cs : List ControlCommand) where
  check_channel_kept :
      kind c.type ≡ true
      → check_channel kind prev (c ∷ cs) ≡ true
      → ((is_nop prev.type ≡ true)
          ⊎ (au_command_delay ≤ sub64 c.execution_time prev.execution_time))
        × (check_channel kind c cs ≡ true)
  unfolding check_channel
  check_channel_kept k h = ground arith

  check_channel_skipped :
      kind c.type ≡ false → check_channel kind prev (c ∷ cs) ≡ check_channel kind prev cs
  unfolding check_channel
  check_channel_skipped k = rw (k, check_channel)

After-cons :
    (nop : Bool) (gap : ControlCommand → ℕ) (prev c : ControlCommand) (cs : List ControlCommand)
    → (nop ≡ true) ⊎ (prev.execution_time + gap prev ≤ c.execution_time)
    → Apart gap c cs
    → After nop gap prev (c ∷ cs)
After-cons true gap prev c cs near rest = rest
After-cons false gap prev c cs (inl e) rest = cc
After-cons false gap prev c cs (inr far) rest = (far, rest)

After-nil : (nop : Bool) (gap : ControlCommand → ℕ) (prev : ControlCommand) → After nop gap prev []
After-nil true gap prev = tt
After-nil false gap prev = tt

module _ (kind : CommandType → Bool)
    (kind-not_nop : (t : CommandType) → kind t ≡ true → is_nop t ≡ false) where
  check_channel-After :
      (prev : ControlCommand) (cs : List ControlCommand)
      → IsSorted due cs
      → NotBefore prev cs
      → InRange cs
      → check_channel kind prev cs ≡ true
      → After (is_nop prev.type) (λ _. au_command_delay) prev (filter (λ c. kind c.type) cs)
  check_channel-After prev [] s b r h = After-nil (is_nop prev.type) (λ _. au_command_delay) prev
  check_channel-After prev (c ∷ cs) s b r h = elim (Bool-cases (kind c.type)) [
    | inl k ↦
        let kept = check_channel_kept kind prev c cs k h in
        rw k (
          After-cons (is_nop prev.type) (λ _. au_command_delay) prev c
            (filter (λ other. kind other.type) cs) (apart kept.0)
            (rw (kind-not_nop c.type k) at (check_channel-After c cs s.1 s.0 r.1 kept.1)))
    | inr k ↦
        rw k (
          check_channel-After prev cs s.1 b.1 r.1
            (sym (check_channel_skipped kind prev c cs k) ∙ h))
  ]
    where
      apart :
          (is_nop prev.type ≡ true)
            ⊎ (au_command_delay ≤ sub64 c.execution_time prev.execution_time)
          → (is_nop prev.type ≡ true) ⊎ (prev.execution_time + au_command_delay ≤ c.execution_time)
      apart (inl nop) = inl nop
      apart (inr far) =
          inr (omega (arith, b.0, r.0, sub64-of_le c.execution_time prev.execution_time))

-- The length of a command, for the energy restore time after a transmission.
abbrev pub energy_gap : ControlCommand → ℕ
energy_gap c = c.execution_length

module _ (prev c : ControlCommand) (cs : List ControlCommand) where
  check_transmit_kept :
      is_transmit c.type ≡ true
      → check_transmit prev (c ∷ cs) ≡ true
      → ((is_nop prev.type ≡ true)
          ⊎ (add64 prev.execution_time prev.execution_length ≤ c.execution_time))
        × (check_transmit c cs ≡ true)
  unfolding check_transmit
  check_transmit_kept k h = ground arith

  check_transmit_skipped :
      is_transmit c.type ≡ false → check_transmit prev (c ∷ cs) ≡ check_transmit prev cs
  unfolding check_transmit
  check_transmit_skipped k = rw (k, check_transmit)

transmit-not_nop : (t : CommandType) → is_transmit t ≡ true → is_nop t ≡ false
transmit-not_nop ct_nop h = cc
transmit-not_nop _ h = refl

tr_rephase-not_nop : (t : CommandType) → is_tr_rephase t ≡ true → is_nop t ≡ false
tr_rephase-not_nop ct_nop h = cc
tr_rephase-not_nop _ h = refl

rs_rephase-not_nop : (t : CommandType) → is_rs_rephase t ≡ true → is_nop t ≡ false
rs_rephase-not_nop ct_nop h = cc
rs_rephase-not_nop _ h = refl

check_transmit-After :
    (prev : ControlCommand) (cs : List ControlCommand)
    → prev.execution_time + prev.execution_length < u64_mod
    → InRange cs
    → check_transmit prev cs ≡ true
    → After (is_nop prev.type) energy_gap prev (filter (λ c. is_transmit c.type) cs)
check_transmit-After prev [] p r h = After-nil (is_nop prev.type) energy_gap prev
check_transmit-After prev (c ∷ cs) p r h = elim (Bool-cases (is_transmit c.type)) [
  | inl k ↦
      let kept = check_transmit_kept prev c cs k h in
      rw k (
        After-cons (is_nop prev.type) energy_gap prev c
          (filter (λ other. is_transmit other.type) cs) (apart kept.0)
          (rw (transmit-not_nop c.type k) at (check_transmit-After c cs r.0 r.1 kept.1)))
  | inr k ↦ rw k (check_transmit-After prev cs p r.1 (sym (check_transmit_skipped prev c cs k) ∙ h))
]
  where
    apart :
        (is_nop prev.type ≡ true)
          ⊎ (add64 prev.execution_time prev.execution_length ≤ c.execution_time)
        → (is_nop prev.type ≡ true)
          ⊎ (prev.execution_time + prev.execution_length ≤ c.execution_time)
    apart (inl nop) = inl nop
    apart (inr far) = inr (omega arith)

NotBefore-nop : (cs : List ControlCommand) → NotBefore nop_command cs
NotBefore-nop [] = tt
NotBefore-nop (c ∷ cs) = (omega arith, NotBefore-nop cs)

-- An ordered queue of commands in 64 bits that `validate` accepts keeps the distances: each transmit
-- rephase command comes at least `au_command_delay` after the one before it, so does each receive
-- rephase command, and each transmit command comes after the length of the one before it.
pub validate_spacing :
    (p : CommandProcessor)
    → IsOrdered p
    → InRange p.command_queue
    → validate p ≡ true
    → Spaced (λ _. au_command_delay) (filter (λ c. is_tr_rephase c.type) p.command_queue)
      × Spaced (λ _. au_command_delay) (filter (λ c. is_rs_rephase c.type) p.command_queue)
      × Spaced energy_gap (filter (λ c. is_transmit c.type) p.command_queue)
unfolding validate
validate_spacing p s r h = (
  check_channel-After is_tr_rephase tr_rephase-not_nop nop_command queue s (NotBefore-nop queue) r
      (ground (arith, check_rephase-channels nop_command nop_command queue)),
  check_channel-After is_rs_rephase rs_rephase-not_nop nop_command queue s (NotBefore-nop queue) r
      (ground (arith, check_rephase-channels nop_command nop_command queue)),
  check_transmit-After nop_command queue (omega arith) r (ground arith),
)
  where
    queue : List ControlCommand
    queue = p.command_queue
