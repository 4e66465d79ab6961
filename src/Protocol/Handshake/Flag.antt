-- ===== src/Protocol/Handshake/Flag.antt =====
-- The flag `handshake_emitted` (src/protocol.rs): once set it stays set.
use hypercore_protocol_rs.Prelude.{ℕ, ◌≤◌, ◌≡◌, refl, Bool, true, false, if◌then◌else◌, arith}
use hypercore_protocol_rs.Wire.{External}
use hypercore_protocol_rs.Platform.{Platform}
use hypercore_protocol_rs.Protocol.Invariant.{Context}
use hypercore_protocol_rs.Protocol.IoLaws.{any-IoLaws, IoLaws}

-- The handshake events that may still come.
abbrev pub budget : Bool → ℕ
budget emitted = if emitted then 0 else 1

-- A flag that is set stays set.
abbrev pub Stays : Bool → Bool → Type 0
Stays before after = before ≡ true → after ≡ true

pub budget-le : (b b' : Bool) → Stays b b' → budget b' ≤ budget b
budget-le true false stays = cc (stays refl)
budget-le false false stays = omega arith
budget-le true true stays = omega arith
budget-le false true stays = omega arith

-- A flag that is not set was not set before.
pub budget-unset : (b b' : Bool) → b' ≡ false → Stays b b' → 1 ≤ budget b
budget-unset true b' f stays = cc (stays refl)
budget-unset false b' f stays = omega arith

module _ {x : External} (p : Platform x) (b : Bool) where
  -- A flag that was set before stays set.
  abbrev pub StaysSet : Context p
  StaysSet emitted commands io = Stays b emitted

  pub StaysSet-IoLaws : IoLaws p Unit (λ n. StaysSet)
  StaysSet-IoLaws =
      any-IoLaws p StaysSet (λ emitted commands io m w stays. stays)
        (λ emitted c commands io stays. stays) (λ emitted commands io stays. stays)
        (λ n emitted commands io stays. stays)
